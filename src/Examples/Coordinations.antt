-- ===== src/Examples/Coordinations.antt =====
-- application/run_coordinator.py on a concrete continuation.
use capability_runner.Prelude.{
  ℕ, String, ◌≡◌, ◌⊎◌, ◌≢◌, refl, sym, subst, Bool, true, false, Option, none, some, List, [], ◌∷◌,
  ok, lookup, insert, erase, contains, arith, contains_text, strip, lstrip, rstrip, keep_if,
  is_space,
}
use capability_runner.Contracts.Sessions as Sessions
use capability_runner.Contracts.Intervention.{InterventionRecord}
use capability_runner.Contracts.Replay.{ReplayCheckpoint, ReplayResult, succeeded, failure}
use capability_runner.Contracts.Continuation.{
  continuation_already_consumed, success, ReplayContinuationResult,
}
use capability_runner.Contracts.Sessions.{operator_owner}
use capability_runner.Evaluator.{text_value}
use capability_runner.Session.{fresh_record}
use capability_runner.Session.Transitions.{SessionRecord}
use capability_runner.Intervention.{Manager}
use capability_runner.Coordination.{
  Coordinator, Hub, Moment, Peers, resume, suspend_for_intervention,
}
use capability_runner.Coordination.Registry.{
  Continuation, PendingReplayContinuation, ReplayContinuationRegistry, new_registry, was_consumed,
  get, register, consume, pending_for,
}
use capability_runner.Coordination.Ledger.{
  Call, call_register, call_consume, registry_run, ledger_run, new_ledger,
}
use capability_runner.Coordination.Refinement.{Reads, registry_refines}
use capability_runner.Coordination.Results.{result, safe_checkpoint}
use capability_runner.Coordination.Suspension.{replay-safe_checkpoint, Settled, suspend-Settled}
use capability_runner.Coordination.Reach.{Reached-refl, register-Reached, IsLawful}
use capability_runner.Coordination.Resumption.{
  replaced, strayed, Begun, resume-Begun, replayed_once,
}
use capability_runner.Examples.Fixtures.{
  bank_ports, bank_world, bank_engine, bank_run, read_balance, bank_gateway,
}
use capability_runner.Replay.Engine.{replay}
use capability_runner.Replay.Steps.{Engine}
use capability_runner.Contracts.Policy.{require_approval}

abbrev blocked : ReplayCheckpoint
blocked = record {
  capability_id = "read-balance";
  capability_version = "1";
  blocked_step_id = "step-1";
  blocked_step_index = 0;
  suspended_generation = 0;
}

abbrev continuation : Continuation
continuation = record {
  capability = read_balance;
  checkpoint = blocked;
  runtime_inputs = [];
  context = bank_run;
}

abbrev coordinator : Coordinator
coordinator = record { records = true; replay_engine = bank_engine }

abbrev approved : InterventionRecord
approved = record {
  intervention_id = "i1";
  run_id = "run-1";
  control_session_id = "s1";
  surface_session = record { surface_session_id = "b1" };
  reason_code = "APPROVAL_REQUIRED";
  summary = "Approval is required.";
  requested_generation = 1;
}

abbrev waiting_session : SessionRecord
waiting_session = record (fresh_record "s1" "run-1") {
  state = record {
    session_id = "s1";
    control_state = Sessions.resume_requested;
    owner = operator_owner "op-1" none;
    control_generation = 2;
  };
}

abbrev waiting_registry : ReplayContinuationRegistry
waiting_registry = (register "i1" continuation new_registry).1

abbrev waiting_hub : Hub bank_ports
waiting_hub = record {
  manager = record {
    world = record bank_world { controller = ("s1", waiting_session) ∷ [] };
    records = ("i1", approved) ∷ [];
  };
  registry = waiting_registry;
}

abbrev alone : Peers bank_ports
alone moment hub = hub

alone-IsLawful : IsLawful bank_ports alone
alone-IsLawful = record { calls = λ moment hub. Reached-refl hub.registry }

abbrev outcome_here : Option ReplayContinuationResult
outcome_here = (resume bank_ports coordinator alone "i2" "i1" waiting_hub).0

abbrev read_again : ReplayResult
read_again = record {
  outcome = succeeded;
  run_id = "run-1";
  outputs = ("amount", text_value "12") ∷ [];
  business_outcome_code = none;
  reason_code = none;
  step_id = none;
  summary = "Declared success conditions were met.";
  steps_attempted = 0;
  checkpoint = none;
}

abbrev answered_here : ReplayContinuationResult
answered_here = record {
  outcome = success;
  reason_code = "SUCCESS";
  summary = "Declared success conditions were met.";
  intervention = none;
  replay_result = some read_again;
  generation_before = some 0;
  generation_after = some 3;
}

outcome-answered_here : outcome_here ≡ some answered_here
unfolding capability_runner.Replay.Engine.resume capability_runner.Replay.Engine.log_resumed
    capability_runner.Replay.Engine.resume_unrecorded
    capability_runner.Replay.Engine.checkpoint_error
    capability_runner.Replay.Checks.validate_checkpoint_identity
    capability_runner.Replay.Engine.resume_observed capability_runner.Replay.Engine.resume_at
    capability_runner.Replay.Results.resume_position capability_runner.Replay.Collection.log
    capability_runner.Ports.record_event capability_runner.Replay.Engine.replay_unrecorded
    capability_runner.Replay.Engine.entry_failure capability_runner.Replay.Checks.validate_inputs
    capability_runner.Replay.Checks.inputs_error capability_runner.Replay.Checks.validate_profile
    capability_runner.Replay.Checks.targets_for capability_runner.Replay.Checks.mentioned_targets
    capability_runner.Replay.Checks.insert_targets capability_runner.Replay.Checks.sorted_items
    capability_runner.Replay.Checks.place capability_runner.Replay.Checks.text_le
    capability_runner.Replay.Engine.run_from capability_runner.Replay.Engine.from_index
    capability_runner.Replay.Steps.execute_steps capability_runner.Replay.Steps.run_step
    capability_runner.Replay.Steps.observe capability_runner.Replay.Collection.collect
    capability_runner.Replay.Collection.collect_targets
    capability_runner.Replay.Collection.bindings_by_target
    capability_runner.Replay.Collection.inspect capability_runner.Replay.Collection.state_of
    capability_runner.Replay.Collection.gather capability_runner.Replay.Steps.collected
    capability_runner.Replay.Steps.enter_step capability_runner.Replay.Steps.precondition_failure
    capability_runner.Replay.Steps.precondition_of capability_runner.Replay.Results.wants_input
    capability_runner.Replay.Steps.act_step capability_runner.Replay.Checks.materialize
    capability_runner.Replay.Steps.after_gateway capability_runner.Replay.Steps.after_outcome
    capability_runner.Replay.Steps.observe_step capability_runner.Replay.Steps.observations
    capability_runner.Replay.Steps.judge capability_runner.Replay.Results.terminal_result
    capability_runner.Evaluator.evaluate_terminal_state capability_runner.Evaluator.terminal_verdict
    capability_runner.Evaluator.outcome_codes capability_runner.Evaluator.all_conditions
    capability_runner.Evaluator.conjunction capability_runner.Evaluator.evaluate_condition
    capability_runner.Evaluator.find_observation capability_runner.Evaluator.evaluate_observed
    capability_runner.Evaluator.evaluate_text capability_runner.Evaluator.resolve_value
    capability_runner.Replay.Results.success_result capability_runner.Evaluator.extract_outputs
    capability_runner.Evaluator.extract_loop capability_runner.Evaluator.extract_output
    capability_runner.Evaluator.output_text capability_runner.Evaluator.parse_output
    capability_runner.Evaluator.matches_output_type capability_runner.Replay.Results.outputs_by_name
    capability_runner.Replay.Steps.conclude_step capability_runner.Replay.Steps.block_step
    capability_runner.Replay.Engine.record_completed capability_runner.Replay.Engine.log_completed
    capability_runner.Gateway.execute capability_runner.Gateway.Results.find_binding
    capability_runner.Gateway.check_scope capability_runner.Gateway.authorize
    capability_runner.Gateway.decide capability_runner.Policy.evaluate
    capability_runner.Policy.evaluate_action capability_runner.Policy.is_allowed_context
    capability_runner.Policy.decision_from_rule
    capability_runner.Gateway.Results.record_policy_decision capability_runner.Gateway.follow
    capability_runner.Gateway.dispatch capability_runner.Session.get_record
    capability_runner.Ports.wait capability_runner.Session.begin_automation_dispatch
    capability_runner.Session.with_record capability_runner.Session.Transitions.enter_automation
    capability_runner.Session.Transitions.automation_guard
    capability_runner.Session.Transitions.ensure_not_stopped capability_runner.Gateway.entered
    capability_runner.Gateway.act capability_runner.Gateway.conclude
    capability_runner.Gateway.Results.surface_result
    capability_runner.Gateway.Results.record_after_dispatch
    capability_runner.Gateway.Results.record_before_dispatch capability_runner.Session.end_dispatch
    capability_runner.Prelude.lookup capability_runner.Prelude.insert
    capability_runner.Prelude.strip capability_runner.Prelude.lstrip
    capability_runner.Prelude.rstrip capability_runner.Prelude.keep_if
    capability_runner.Prelude.is_space capability_runner.Prelude.string_eq
    capability_runner.Evaluator.condition_result_eq
    capability_runner.Contracts.Surfaces.semantic_target_ref_eq
    capability_runner.Contracts.Sessions.control_state_eq capability_runner.Prelude.nat_eq
    capability_runner.Prelude.contains_text capability_runner.Coordination.resume
    capability_runner.Coordination.resume_locked capability_runner.Coordination.validate
    capability_runner.Coordination.transitioned capability_runner.Coordination.continue
    capability_runner.Coordination.not_resumed capability_runner.Coordination.replay_on
    capability_runner.Coordination.after_replay capability_runner.Coordination.Registry.get
    capability_runner.Coordination.Registry.register capability_runner.Coordination.Registry.consume
    capability_runner.Coordination.Registry.was_consumed
    capability_runner.Coordination.Results.matches_record
    capability_runner.Intervention.complete_resume_validation
    capability_runner.Intervention.validated capability_runner.Intervention.resumed_by
    capability_runner.Intervention.emit capability_runner.Intervention.Events.intervention_event
    capability_runner.Session.get_session
    capability_runner.Session.resume_automation_after_validation
    capability_runner.Session.Transitions.resume_automation_in
    capability_runner.Replay.Engine.validate_resume
    capability_runner.Replay.Engine.validate_observed capability_runner.Replay.Engine.validation_of
    capability_runner.Prelude.erase
outcome-answered_here = refl

-- Other tasks that put the registry back while a replay runs
abbrev put_back : Hub bank_ports → Hub bank_ports
put_back hub = waiting_hub

resume-Begun_example :
    (resume bank_ports coordinator
        (strayed bank_ports coordinator alone "i2" "i1" put_back)
        "i2"
        "i1"
        waiting_hub
      ≡ resume bank_ports coordinator alone "i2" "i1" waiting_hub)
    × ((resume bank_ports coordinator
            (replaced bank_ports coordinator alone "i2" "i1" put_back)
            "i2"
            "i1"
            waiting_hub
          ≡ resume bank_ports coordinator alone "i2" "i1" waiting_hub)
        ⊎ Begun bank_ports coordinator alone "i2" "i1" alone-IsLawful waiting_hub)
resume-Begun_example =
    resume-Begun bank_ports coordinator alone "i2" "i1" alone-IsLawful put_back waiting_hub

abbrev hub_after : Hub bank_ports
hub_after = (resume bank_ports coordinator alone "i2" "i1" waiting_hub).1

replayed_once_example :
    (resume bank_ports coordinator
        (replaced bank_ports coordinator alone "i2" "i1" put_back)
        "i2"
        "i1"
        waiting_hub
      ≡ resume bank_ports coordinator alone "i2" "i1" waiting_hub)
    ⊎ (resume bank_ports coordinator alone "i2" "i1" hub_after ≡ (
      some (
          result continuation_already_consumed "CONTINUATION_ALREADY_CONSUMED"
            "Replay continuation was already consumed."),
      hub_after,
    ))
replayed_once_example =
    replayed_once bank_ports coordinator alone "i2" "i1" alone-IsLawful put_back waiting_hub
      hub_after (register-Reached "i1" continuation new_registry) (Reached-refl hub_after.registry)

abbrev some_calls : List Call
some_calls =
    call_register "i1" continuation
    ∷ call_register "i1" continuation
    ∷ call_consume "i1" (pending_for continuation new_registry)
    ∷ call_register "i1" continuation
    ∷ []

registry_refines_example :
    ((registry_run some_calls new_registry).0 ≡ (ledger_run some_calls new_ledger).0)
    × Reads (registry_run some_calls new_registry).1 (ledger_run some_calls new_ledger).1
registry_refines_example = registry_refines some_calls

-- Only the first registration and its consumption succeed.
some_calls-answers : (registry_run some_calls new_registry).0 ≡ true ∷ false ∷ true ∷ false ∷ []
unfolding registry_run lookup insert capability_runner.Prelude.string_eq
    capability_runner.Prelude.nat_eq erase
some_calls-answers = refl

abbrev strict_engine : Engine
strict_engine = record bank_engine { gateway = bank_gateway require_approval }

abbrev blocked_here : ReplayResult
blocked_here = record {
  outcome = failure;
  run_id = "run-1";
  outputs = [];
  business_outcome_code = none;
  reason_code = some "APPROVAL_REQUIRED";
  step_id = some "step-1";
  summary = "Click target requires approval.";
  steps_attempted = 1;
  checkpoint = some blocked;
}

replayed-blocked_here :
    (replay bank_ports strict_engine read_balance [] bank_run bank_world).0 ≡ some blocked_here
unfolding capability_runner.Replay.Engine.replay capability_runner.Replay.Engine.log_started
    capability_runner.Replay.Collection.log capability_runner.Ports.record_event
    capability_runner.Replay.Engine.replay_unrecorded capability_runner.Replay.Engine.entry_failure
    capability_runner.Replay.Checks.validate_inputs capability_runner.Replay.Checks.inputs_error
    capability_runner.Replay.Checks.validate_profile capability_runner.Replay.Checks.targets_for
    capability_runner.Replay.Checks.mentioned_targets capability_runner.Replay.Checks.insert_targets
    capability_runner.Replay.Checks.sorted_items capability_runner.Replay.Checks.place
    capability_runner.Replay.Checks.text_le capability_runner.Replay.Engine.run_from
    capability_runner.Replay.Engine.from_index capability_runner.Replay.Steps.execute_steps
    capability_runner.Replay.Steps.run_step capability_runner.Replay.Steps.observe
    capability_runner.Replay.Collection.collect capability_runner.Replay.Collection.collect_targets
    capability_runner.Replay.Collection.bindings_by_target
    capability_runner.Replay.Collection.inspect capability_runner.Replay.Collection.state_of
    capability_runner.Replay.Collection.gather capability_runner.Replay.Steps.collected
    capability_runner.Replay.Steps.enter_step capability_runner.Replay.Steps.precondition_failure
    capability_runner.Replay.Steps.precondition_of capability_runner.Replay.Results.wants_input
    capability_runner.Replay.Steps.act_step capability_runner.Replay.Checks.materialize
    capability_runner.Replay.Steps.after_gateway capability_runner.Replay.Steps.after_outcome
    capability_runner.Replay.Steps.observe_step capability_runner.Replay.Steps.observations
    capability_runner.Replay.Steps.judge capability_runner.Replay.Results.terminal_result
    capability_runner.Evaluator.evaluate_terminal_state capability_runner.Evaluator.terminal_verdict
    capability_runner.Evaluator.outcome_codes capability_runner.Evaluator.all_conditions
    capability_runner.Evaluator.conjunction capability_runner.Evaluator.evaluate_condition
    capability_runner.Evaluator.find_observation capability_runner.Evaluator.evaluate_observed
    capability_runner.Evaluator.evaluate_text capability_runner.Evaluator.resolve_value
    capability_runner.Replay.Results.success_result capability_runner.Evaluator.extract_outputs
    capability_runner.Evaluator.extract_loop capability_runner.Evaluator.extract_output
    capability_runner.Evaluator.output_text capability_runner.Evaluator.parse_output
    capability_runner.Evaluator.matches_output_type capability_runner.Replay.Results.outputs_by_name
    capability_runner.Replay.Steps.conclude_step capability_runner.Replay.Steps.block_step
    capability_runner.Replay.Engine.record_completed capability_runner.Replay.Engine.log_completed
    capability_runner.Gateway.execute capability_runner.Gateway.Results.find_binding
    capability_runner.Gateway.check_scope capability_runner.Gateway.authorize
    capability_runner.Gateway.decide capability_runner.Policy.evaluate
    capability_runner.Policy.evaluate_action capability_runner.Policy.is_allowed_context
    capability_runner.Policy.decision_from_rule
    capability_runner.Gateway.Results.record_policy_decision capability_runner.Gateway.follow
    capability_runner.Gateway.dispatch capability_runner.Session.get_record
    capability_runner.Ports.wait capability_runner.Session.begin_automation_dispatch
    capability_runner.Session.with_record capability_runner.Session.Transitions.enter_automation
    capability_runner.Session.Transitions.automation_guard
    capability_runner.Session.Transitions.ensure_not_stopped capability_runner.Gateway.entered
    capability_runner.Gateway.act capability_runner.Gateway.conclude
    capability_runner.Gateway.Results.surface_result
    capability_runner.Gateway.Results.record_after_dispatch
    capability_runner.Gateway.Results.record_before_dispatch capability_runner.Session.end_dispatch
    capability_runner.Prelude.lookup capability_runner.Prelude.insert
    capability_runner.Prelude.strip capability_runner.Prelude.lstrip
    capability_runner.Prelude.rstrip capability_runner.Prelude.keep_if
    capability_runner.Prelude.is_space capability_runner.Prelude.string_eq
    capability_runner.Evaluator.condition_result_eq
    capability_runner.Contracts.Surfaces.semantic_target_ref_eq
    capability_runner.Contracts.Sessions.control_state_eq capability_runner.Prelude.nat_eq
    capability_runner.Prelude.contains_text capability_runner.Contracts.Policy.reason_text
    capability_runner.Replay.Steps.checkpoint_for
replayed-blocked_here = refl

replay-safe_checkpoint_example : safe_checkpoint blocked_here read_balance bank_run ≡ some blocked
replay-safe_checkpoint_example =
    replay-safe_checkpoint bank_ports strict_engine read_balance [] bank_run bank_world blocked_here
      blocked replayed-blocked_here refl

abbrev fresh_hub : Hub bank_ports
fresh_hub = record {
  manager = record { world = bank_world; records = [] };
  registry = new_registry;
}

suspend-Settled_example :
    Settled bank_ports coordinator "i1" blocked_here read_balance [] bank_run fresh_hub (
      suspend_for_intervention bank_ports coordinator "i1" blocked_here read_balance [] bank_run
        fresh_hub)
suspend-Settled_example =
    suspend-Settled bank_ports coordinator "i1" blocked_here read_balance [] bank_run fresh_hub

-- ===== src/Examples/Replays.antt =====
-- replay/replay_engine.py on a concrete capability.
use capability_runner.Prelude.{ℕ, ◌≤◌, String, ◌≡◌, refl, none, some, List, [], ◌∷◌, arith, Option}
use capability_runner.Prelude.{lookup, insert, strip, lstrip, rstrip, keep_if, is_space}
use capability_runner.Ports.{record_event, wait}
use capability_runner.Replay.Engine.{
  log_started, replay_unrecorded, entry_failure, log_resumed, resume_unrecorded, checkpoint_error,
  resume_observed, resume_at, run_from, from_index, record_completed, log_completed,
}
use capability_runner.Replay.Checks.{
  validate_inputs, inputs_error, validate_profile, targets_for, mentioned_targets, insert_targets,
  sorted_items, place, text_le, materialize, validate_checkpoint_identity,
}
use capability_runner.Replay.Collection.{
  log, collect, collect_targets, bindings_by_target, inspect, state_of, gather,
}
use capability_runner.Replay.Results.{
  wants_input, terminal_result, success_result, outputs_by_name, resume_position,
}
use capability_runner.Replay.Steps.{
  execute_steps, run_step, observe, collected, enter_step, precondition_failure, precondition_of,
  act_step, after_gateway, after_outcome, observe_step, observations, judge, conclude_step,
  block_step,
}
use capability_runner.Evaluator.{
  text_value, evaluate_terminal_state, terminal_verdict, outcome_codes, all_conditions, conjunction,
  evaluate_condition, find_observation, evaluate_observed, evaluate_text, resolve_value,
  extract_outputs, extract_loop, extract_output, output_text, parse_output, matches_output_type,
}
use capability_runner.Gateway.{
  execute, check_scope, authorize, decide, follow, dispatch, entered, act, conclude,
}
use capability_runner.Gateway.Results.{
  find_binding, record_policy_decision, surface_result, record_after_dispatch,
  record_before_dispatch,
}
use capability_runner.Policy.{evaluate, evaluate_action, is_allowed_context, decision_from_rule}
use capability_runner.Session.{get_record, begin_automation_dispatch, with_record, end_dispatch}
use capability_runner.Session.Transitions.{enter_automation, automation_guard, ensure_not_stopped}
use capability_runner.Contracts.Replay.{ReplayCheckpoint, ReplayResult, succeeded}
use capability_runner.Contracts.Gateway.{GatewayExecutionContext}
use capability_runner.Replay.Engine.{replay, resume}
use capability_runner.Replay.Outcomes.{IsSound}
use capability_runner.Replay.Guarantees.{
  replay_justified, resume_justified, OnlyFailure, stale_checkpoint_refused,
}
use capability_runner.Examples.Fixtures.{
  bank_ports, bank_engine, read_balance, bank_run, bank_world,
}

abbrev replayed : Option ReplayResult
replayed = (replay bank_ports bank_engine read_balance [] bank_run bank_world).0

abbrev twelve_read : ReplayResult
twelve_read = record {
  outcome = succeeded;
  run_id = "run-1";
  outputs = ("amount", text_value "12") ∷ [];
  business_outcome_code = none;
  reason_code = none;
  step_id = none;
  summary = "Declared success conditions were met.";
  steps_attempted = 1;
  checkpoint = none;
}

replayed-twelve_read : replayed ≡ some twelve_read
unfolding replay log_started log record_event replay_unrecorded entry_failure validate_inputs
    inputs_error validate_profile targets_for mentioned_targets insert_targets sorted_items place
    text_le run_from from_index execute_steps run_step observe collect collect_targets
    bindings_by_target inspect state_of gather collected enter_step precondition_failure
    precondition_of wants_input act_step materialize after_gateway after_outcome observe_step
    observations judge terminal_result evaluate_terminal_state terminal_verdict outcome_codes
    all_conditions conjunction evaluate_condition find_observation evaluate_observed evaluate_text
    resolve_value success_result extract_outputs extract_loop extract_output output_text
    parse_output matches_output_type outputs_by_name conclude_step block_step record_completed
    log_completed execute find_binding check_scope authorize decide evaluate evaluate_action
    is_allowed_context decision_from_rule record_policy_decision follow dispatch get_record wait
    capability_runner.Ports.wait_free begin_automation_dispatch with_record enter_automation
    automation_guard ensure_not_stopped entered act conclude surface_result record_after_dispatch
    record_before_dispatch end_dispatch lookup insert strip lstrip rstrip keep_if is_space
    capability_runner.Prelude.string_eq capability_runner.Evaluator.condition_result_eq
    capability_runner.Contracts.Surfaces.semantic_target_ref_eq
    capability_runner.Contracts.Sessions.control_state_eq capability_runner.Prelude.nat_eq
    capability_runner.Prelude.contains_text
replayed-twelve_read = refl

replay_justified_example : IsSound read_balance [] bank_run twelve_read
replay_justified_example =
    replay_justified bank_ports bank_engine read_balance [] bank_run bank_world twelve_read
      replayed-twelve_read

abbrev suspended : ReplayCheckpoint
suspended = record {
  capability_id = "read-balance";
  capability_version = "1";
  blocked_step_id = "step-1";
  blocked_step_index = 0;
  suspended_generation = 0;
}

stale_checkpoint_refused_example :
    ((resume bank_ports bank_engine read_balance [] bank_run suspended bank_world).1.controller
      ≡ bank_world.controller)
    × ((resume bank_ports bank_engine read_balance [] bank_run suspended bank_world).1.surface
        ≡ bank_world.surface)
    × OnlyFailure bank_ports bank_engine read_balance [] bank_run
        (resume bank_ports bank_engine read_balance [] bank_run suspended bank_world).0
stale_checkpoint_refused_example =
    stale_checkpoint_refused bank_ports bank_engine read_balance [] bank_run suspended bank_world
      (omega arith)

abbrev later_run : GatewayExecutionContext
later_run = record bank_run { expected_generation = 3 }

abbrev found_read : ReplayResult
found_read = record twelve_read { steps_attempted = 0 }

resumed-found_read :
    (resume bank_ports bank_engine read_balance [] later_run suspended bank_world).0
    ≡ some found_read
unfolding resume log_resumed resume_unrecorded checkpoint_error validate_checkpoint_identity
    resume_observed resume_at resume_position log record_event replay_unrecorded entry_failure
    validate_inputs inputs_error validate_profile targets_for mentioned_targets insert_targets
    sorted_items place text_le run_from from_index execute_steps run_step observe collect
    collect_targets bindings_by_target inspect state_of gather collected enter_step
    precondition_failure precondition_of wants_input act_step materialize after_gateway
    after_outcome observe_step observations judge terminal_result evaluate_terminal_state
    terminal_verdict outcome_codes all_conditions conjunction evaluate_condition find_observation
    evaluate_observed evaluate_text resolve_value success_result extract_outputs extract_loop
    extract_output output_text parse_output matches_output_type outputs_by_name conclude_step
    block_step record_completed log_completed execute find_binding check_scope authorize decide
    evaluate evaluate_action is_allowed_context decision_from_rule record_policy_decision follow
    dispatch get_record wait begin_automation_dispatch with_record enter_automation automation_guard
    ensure_not_stopped entered act conclude surface_result record_after_dispatch
    record_before_dispatch end_dispatch lookup insert strip lstrip rstrip keep_if is_space
    capability_runner.Prelude.string_eq capability_runner.Evaluator.condition_result_eq
    capability_runner.Contracts.Surfaces.semantic_target_ref_eq
    capability_runner.Contracts.Sessions.control_state_eq capability_runner.Prelude.nat_eq
    capability_runner.Prelude.contains_text
resumed-found_read = refl

resume_justified_example : IsSound read_balance [] later_run found_read
resume_justified_example =
    resume_justified bank_ports bank_engine read_balance [] later_run suspended bank_world
      found_read resumed-found_read

-- ===== src/Discovery/Turns.antt =====
-- discovery/discovery_engine.py: what one turn does with the model's decision.
use capability_runner.Prelude.{
  ℕ, suc, String, Bool, true, false, Option, none, some, List, [], ◌∷◌, ◌++◌, map, leb, ◌==◌,
  string_eq, if◌then◌else◌, ◌&&◌,
}
use capability_runner.Contracts.Capabilities.{EvaluationSnapshot}
use capability_runner.Contracts.Discovery.{
  DiscoveryAction, kind_of, target_of, DiscoveryDecision, act_decision, complete_decision,
  intervention_decision, fail_decision, VerifiedCompletionEvidence, act_kind, complete_kind,
  intervention_kind, fail_kind, invalid_kind, DiscoveryTraceEntry, DiscoveryOutcome, success,
  intervention_required, failed, DiscoveryRequest,
}
use capability_runner.Contracts.Evidence.{EvidenceEvent, lifecycle, Fields}
use capability_runner.Contracts.Gateway.{
  GatewayExecutionContext, GatewayResult, GatewayOutcome, executed, denied, approval_required,
}
use capability_runner.Contracts.Surfaces.{SemanticTargetRef}
use capability_runner.Ports.{Ports, World, record_event}
use capability_runner.Gateway.{execute}
use capability_runner.Replay.Checks.{sorted_items}
use capability_runner.Discovery.Decisions.{
  validate_action, verified_completion_evidence, gateway_request, goal_span_source, snapshot_key,
  same_proposal, was_seen, snapshot_fingerprint, is_subset,
}
use capability_runner.Discovery.Variables.{
  acting, DiscoveryEngine, Ended, returned, timed_out, raised, Progress, max_actions,
  max_invalid_responses, result, plain_entry, remember,
}

module _ (P : Ports) (engine : DiscoveryEngine P) (request : DiscoveryRequest)
    (context : GatewayExecutionContext) where
  abbrev pub Turn : Type 0
  Turn = World P → Ended × World P

  abbrev pub finish : DiscoveryOutcome → String → ℕ → Progress → List DiscoveryTraceEntry → Turn
  finish outcome reason turn p trace w =
      (returned (result outcome reason turn p.actions trace []), w)

  abbrev pub discovery_event : String → String → Fields → Option String → EvidenceEvent
  discovery_event reason outcome metadata step_id = record {
    event_type = lifecycle;
    component = "discovery-engine";
    run_id = context.run_id;
    session_id = some context.control_session_id;
    step_id = step_id;
    action_id = none;
    outcome = some outcome;
    reason_code = some reason;
    summary = none;
    metadata = metadata;
  }

  abbrev pub logged : Bool × World P → Turn → Ended × World P
  logged (true, w) next = next w
  logged (false, w) next = (raised, w)

  -- `_record_event`, and what follows if it returns
  unfoldable pub log : String → String → Fields → Option String → Turn → Turn
  unfolding record_event
  log reason outcome metadata step_id next w =
      if engine.records
      then logged (record_event P (discovery_event reason outcome metadata step_id) none w) next
      else next w

  unfoldable pub target_refs : List SemanticTargetRef
  unfolding sorted_items
  target_refs =
      map (λ entry. entry.1)
        (sorted_items (
          map (λ binding. (binding.semantic_target.value, binding.semantic_target))
            context.profile.target_bindings))

  unfoldable pub trusted_targets : List String
  unfolding target_refs
  trusted_targets = map (λ target. target.value) target_refs

  unfoldable pub required_targets : List String
  required_targets = map (λ target. target.value) request.required_completion_targets

  abbrev pub fingerprint_of : EvaluationSnapshot → String
  fingerprint_of snapshot = snapshot_fingerprint engine.dumps_compact engine.sha256 snapshot

  -- An answer that is not acceptable: the second one ends the discovery, the first is asked again.
  unfoldable pub reject :
      ℕ → EvaluationSnapshot → Progress → String → String → (Progress → Turn) → Turn
  reject turn snapshot p code final_code next w =
      let p' : Progress = record p {
        trace = p.trace ++ plain_entry turn invalid_kind (fingerprint_of snapshot) code ∷ [];
        invalid_responses = suc p.invalid_responses;
        repair_code = some code;
      } in
      if leb max_invalid_responses p'.invalid_responses
      then finish failed final_code turn p' p'.trace w
      else next p' w

  unfoldable pub complete_with :
      ℕ
      → EvaluationSnapshot
      → Progress
      → Option (List VerifiedCompletionEvidence)
      → (Progress → Turn)
      → Turn
  unfolding reject required_targets
  complete_with turn snapshot p none next =
      reject turn snapshot p "COMPLETION_NOT_GROUNDED" "COMPLETION_NOT_GROUNDED" next
  complete_with turn snapshot p (some evidence) next =
      if is_subset required_targets (map (λ e. e.target) evidence)
      then (λ w. (
        returned (
            result success "COMPLETED" turn p.actions
              (p.trace ++ plain_entry turn complete_kind (fingerprint_of snapshot) "VERIFIED" ∷ [])
              evidence),
        w,
      ))
      else reject turn snapshot p "COMPLETION_EVIDENCE_MISSING" "COMPLETION_EVIDENCE_MISSING" next

  -- The loop's variables behind an action that the gateway was asked for.
  unfoldable pub acted :
      ℕ → EvaluationSnapshot → Progress → DiscoveryAction → GatewayResult → Progress
  acted turn snapshot p action g =
      let span = goal_span_source action request.goal in
      record p {
        trace =
            p.trace
            ++ record {
              turn = turn;
              decision_kind = act_kind;
              action_kind = some (kind_of action);
              semantic_target = some (target_of action);
              value_source = span;
              gateway_outcome = some g.outcome;
              observation_fingerprint = some (fingerprint_of snapshot);
              outcome = g.reason_code;
            }
              ∷ [];
        actions = suc p.actions;
        repair_code = none;
        previous_proposal = some action;
        previous_snapshot = some (snapshot_key snapshot);
        executed_goal_values = remember action g.outcome span p.executed_goal_values;
      }

  unfoldable pub after_action : ℕ → Progress → GatewayResult → (Progress → Turn) → Turn
  after_action turn p g next = elim g.outcome [
    | executed ↦ next p
    | denied ↦ finish failed "POLICY_DENIED" turn p p.trace
    | approval_required ↦ finish intervention_required "APPROVAL_REQUIRED" turn p p.trace
    | GatewayOutcome.failed ↦
        if g.reason_code == "ACTION_EFFECT_OCCURRED_EVIDENCE_FAILED"
        then finish intervention_required "ACTION_EFFECT_UNCERTAIN" turn p p.trace
        else finish failed "ACTION_FAILED" turn p p.trace
  ]

  unfoldable pub perform :
      ℕ → EvaluationSnapshot → Progress → DiscoveryAction → (Progress → Turn) → Turn
  unfolding acted after_action
  perform turn snapshot p action next w = elim (engine.strikes acting w) [
    | some w' ↦ (timed_out, w')
    | none ↦
        let (g, w') =
          execute P engine.gateway (gateway_request action request turn (suc p.actions)) context
            w in
        after_action turn (acted turn snapshot p action g) g next w'
  ]

  unfoldable pub act :
      ℕ → EvaluationSnapshot → Progress → DiscoveryAction → (Progress → Turn) → Turn
  unfolding reject perform
  act turn snapshot p action next = elim (validate_action action request.goal trusted_targets) [
    | some code ↦ reject turn snapshot p code code next
    | none ↦
        if leb max_actions p.actions
        then finish failed "ACTION_LIMIT_REACHED" turn p p.trace
        else if same_proposal action p.previous_proposal
            && was_seen (snapshot_key snapshot) p.previous_snapshot
        then finish failed "NO_PROGRESS" turn p p.trace
        else perform turn snapshot p action next
  ]

  unfoldable pub decide :
      ℕ → EvaluationSnapshot → Progress → DiscoveryDecision → (Progress → Turn) → Turn
  unfolding complete_with act trusted_targets
  decide turn snapshot p (act_decision action) next = act turn snapshot p action next
  decide turn snapshot p (complete_decision evidence) next =
      complete_with turn snapshot p
        (verified_completion_evidence engine.sha256 evidence snapshot request.goal trusted_targets
          p.executed_goal_values)
        next
  decide turn snapshot p (intervention_decision reason) next =
      finish intervention_required reason turn p (
        p.trace
        ++ plain_entry turn intervention_kind (fingerprint_of snapshot) "INTERVENTION_REQUESTED"
          ∷ [])
  decide turn snapshot p (fail_decision reason) next = finish failed reason turn p (
      p.trace ++ plain_entry turn fail_kind (fingerprint_of snapshot) "MODEL_DECLARED_FAILURE" ∷ [])

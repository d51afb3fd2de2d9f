-- ===== src/Discovery.antt =====
-- discovery/discovery_engine.py: `DiscoveryEngine.discover`, which lets a model propose one action per
-- turn toward a goal, and lets nothing happen that its own checks and the gateway do not let through.
--
-- The model client, the collector of snapshots and the event loop's timeout are parameters, as are the
-- JSON codec and the hash. The timeout can strike at every await, and leaves any world behind.
-- `raised` is an exception that the engine does not catch.
pub mod Texts
pub mod Decisions
pub mod Presenter
pub mod Variables
pub mod Turns
pub mod Invariants
pub mod Upkeep
pub mod Rounds
pub mod Guarantees
pub mod Grounding
pub mod Collector
use capability_runner.Prelude.{
  ℕ, zero, suc, ◌-◌, min, String, ◌<>◌, Bool, true, false, Option, none, some, List, [], ◌∷◌, ◌++◌,
  map, Result, ok, err, leb, length, ◌==◌, string_eq, if◌then◌else◌, ◌&&◌, Dict, insert,
}
use capability_runner.Contracts.Capabilities.{visible, TargetObservation, EvaluationSnapshot}
use capability_runner.Contracts.Discovery.{
  DiscoveryAction, discovery_fill, discovery_click, kind_of, target_of, action_kind_text, kind_text,
  CompletionEvidence, DiscoveryDecision, act_decision, complete_decision, intervention_decision,
  fail_decision, GoalSpanValueSource, VerifiedCompletionEvidence, DecisionKind, act_kind,
  complete_kind, intervention_kind, fail_kind, invalid_kind, DiscoveryTraceEntry, DiscoveryOutcome,
  success, intervention_required, failed, discovery_outcome_folded, DiscoveryResult,
  DiscoveryRequest, ModelErrorCode, model_error_text, ModelRequest,
}
use capability_runner.Contracts.Evidence.{
  EvidenceEvent, lifecycle, Value, Fields, field, text, number, null, end,
}
use capability_runner.Contracts.Gateway.{
  GatewayExecutionContext, GatewayResult, GatewayOutcome, executed, denied, approval_required,
}
use capability_runner.Contracts.Surfaces.{SemanticTargetRef, ApplicationProfile, SurfaceSessionRef}
use capability_runner.Ports.{Ports, World, record_event}
use capability_runner.Gateway.{Gateway, execute}
use capability_runner.Replay.Checks.{sorted_items}
use Texts.{number_text}
use Decisions.{
  DecisionParser, parse_decision, validate_action, GoalValues, verified_completion_evidence,
  gateway_request, goal_span_source, SnapshotKey, snapshot_key, same_proposal, was_seen,
  snapshot_fingerprint, is_subset,
}
use Presenter.{present}
use Variables.{
  Await, collecting, consulting, DiscoveryEngine, Ended, returned, timed_out, raised, Progress,
  first_progress, max_turns, result, plain_entry, count_visible,
}
use Turns.{
  Turn, finish, log, target_refs, trusted_targets, required_targets, fingerprint_of, reject, decide,
}

abbrev pub action_text : DiscoveryDecision → Value
action_text (act_decision action) = text (action_kind_text (kind_of action))
action_text other = null

abbrev pub target_text : DiscoveryDecision → Value
target_text (act_decision action) = text (target_of action)
target_text other = null

abbrev pub decision_text : DiscoveryDecision → String
decision_text (act_decision action) = kind_text act_kind
decision_text (complete_decision evidence) = kind_text complete_kind
decision_text (intervention_decision reason) = kind_text intervention_kind
decision_text (fail_decision reason) = kind_text fail_kind

abbrev pub step_of : DiscoveryDecision → ℕ → Option String
step_of (act_decision action) n = some ("discovery-step-" <> number_text n)
step_of other n = none

module _ (P : Ports) (engine : DiscoveryEngine P) (request : DiscoveryRequest)
    (context : GatewayExecutionContext) where
  -- What the answer of the model leads to.
  unfoldable pub answered :
      ℕ
      → EvaluationSnapshot
      → Progress
      → Option DiscoveryDecision
      → (Progress → Turn P engine request context)
      → Turn P engine request context
  unfolding reject log decide number_text
  answered turn snapshot p none next =
      reject P engine request context turn snapshot p "INVALID_MODEL_RESPONSE"
        "MODEL_INVALID_RESPONSE" next
  answered turn snapshot p (some decision) next =
      log P engine request context "DISCOVERY_DECISION_RECEIVED" "received"
        (field "action_kind" (action_text decision) (
          field "decision_kind" (text (decision_text decision)) (
            field "observation_fingerprint"
              (text (fingerprint_of P engine request context snapshot))
              (field "semantic_target" (target_text decision) (field "turn" (number turn) end)))))
        (step_of decision (suc p.actions))
        (decide P engine request context turn snapshot p decision next)

  unfoldable pub consulted :
      ℕ
      → EvaluationSnapshot
      → Progress
      → Option (Result ModelErrorCode String)
      → (Progress → Turn P engine request context)
      → Turn P engine request context
  unfolding answered parse_decision model_error_text
  consulted turn snapshot p none next = λ w. (raised, w)
  consulted turn snapshot p (some (err code)) next =
      finish P engine request context failed ("MODEL_" <> model_error_text code) turn p p.trace
  consulted turn snapshot p (some (ok content)) next =
      answered turn snapshot p (parse_decision engine.parse content) next

  unfoldable pub consult :
      ℕ
      → EvaluationSnapshot
      → Progress
      → (Progress → Turn P engine request context)
      → Turn P engine request context
  unfolding consulted present
  consult turn snapshot p next w = elim (engine.strikes consulting w) [
    | some w' ↦ (timed_out, w')
    | none ↦
        let (response, w') =
          engine.complete
            (present engine.dumps request.goal context.profile snapshot turn p.trace p.repair_code
              request.required_completion_targets)
            w in
        consulted turn snapshot p response next w'
  ]

  unfoldable pub observed :
      ℕ
      → Progress
      → Option EvaluationSnapshot
      → (Progress → Turn P engine request context)
      → Turn P engine request context
  unfolding consult log
  observed turn p none next =
      finish P engine request context failed "OBSERVATION_FAILED" (turn - 1) p p.trace
  observed turn p (some snapshot) next =
      log P engine request context "DISCOVERY_OBSERVATION_COLLECTED" "collected"
        (field "observation_fingerprint" (text (fingerprint_of P engine request context snapshot)) (
          field "observed_target_count" (number (length snapshot.observed_targets)) (
            field "turn" (number turn) (
              field "visible_target_count" (number (count_visible snapshot.observed_targets))
                end))))
        none (consult turn snapshot p next)

  -- The body of the loop.
  unfoldable pub take_turn :
      ℕ → Progress → (Progress → Turn P engine request context) → Turn P engine request context
  unfolding observed
  take_turn turn p next w = elim (engine.strikes collecting w) [
    | some w' ↦ (timed_out, w')
    | none ↦
        let (snapshot, w') =
          engine.collect context.surface_session context.profile
            (target_refs P engine request context) w in
        observed turn p snapshot next w'
  ]

  -- `for turn in range(turn, turn + remaining)`, and what follows the loop
  unfoldable pub take_turns : ℕ → ℕ → Progress → Turn P engine request context
  unfolding take_turn
  take_turns zero turn p =
      finish P engine request context failed "TURN_LIMIT_REACHED" (min request.max_steps max_turns)
        p p.trace
  take_turns (suc remaining) turn p = take_turn turn p (take_turns remaining (suc turn))

  -- `_discover_bounded`
  unfoldable pub discover_bounded : Turn P engine request context
  unfolding take_turns required_targets trusted_targets
  discover_bounded =
      if is_subset (required_targets P engine request context)
        (trusted_targets P engine request context)
      then take_turns (min request.max_steps max_turns) 1 first_progress
      else finish P engine request context failed "REQUIRED_COMPLETION_TARGET_UNKNOWN" 0
          first_progress []

  unfoldable pub completed : DiscoveryResult → Turn P engine request context
  unfolding log
  completed r =
      log P engine request context "DISCOVERY_COMPLETED" (discovery_outcome_folded r.outcome)
        (field "action_count" (number r.actions) (
          field "result_reason_code" (text r.reason_code) (
            field "turn_count" (number r.turns)
              (field "verified_target_count" (number (length r.verified_targets)) end))))
        none (λ w. (returned r, w))

  abbrev pub timeout_result : DiscoveryResult
  timeout_result = result failed "DISCOVERY_TIMEOUT" 0 0 [] []

  unfoldable pub after_discovery : Ended × World P → Ended × World P
  unfolding completed
  after_discovery (returned r, w) = completed r w
  after_discovery (timed_out, w) = completed timeout_result w
  after_discovery (raised, w) = (raised, w)

  -- `discover`
  unfoldable pub discover : Turn P engine request context
  unfolding discover_bounded after_discovery log
  discover =
      log P engine request context "DISCOVERY_STARTED" "started"
        (field "max_steps" (number request.max_steps) (
          field "required_completion_target_count"
            (number (length request.required_completion_targets))
            (field "timeout_seconds" (number request.timeout_seconds) end)))
        none (λ w. after_discovery (discover_bounded w))

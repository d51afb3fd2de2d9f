-- ===== src/Gateway/Results.antt =====
-- interaction/action_gateway.py: the results of `ActionGateway` and the evidence of them.
use capability_runner.Prelude.{
  String, Bool, true, false, Option, none, some, [], ◌∷◌, ◌==◌, find, if◌then◌else◌,
}
use capability_runner.Contracts.Actions.{ActionSpec, fill_action, action_kind}
use capability_runner.Contracts.Surfaces.{
  semantic_target_ref_eq, BrowserTargetBinding, SurfaceActionOutcome, applied, SurfaceActionResult,
  outcome_text,
}
use capability_runner.Contracts.Policy.{
  PolicyEffect, allow, deny, require_approval, PolicyDecision, reason_text,
}
use capability_runner.Contracts.Evidence.{
  Fields, end, field, text, null, EvidenceEvent, action, policy, RedactionContext,
  default_redaction,
}
use capability_runner.Contracts.Gateway.{
  GatewayActionRequest, GatewayExecutionContext, GatewayOutcome, executed, failed, outcome_folded,
  GatewayResult,
}
use capability_runner.Ports.{Ports, World, record_event}

-- `_result`
abbrev pub result :
    GatewayActionRequest
    → GatewayOutcome
    → String
    → String
    → Option SurfaceActionOutcome
    → GatewayResult
result request outcome reason_code summary surface_outcome = record {
  outcome = outcome;
  reason_code = reason_code;
  summary = summary;
  action_id = request.action_id;
  semantic_target = request.semantic_target;
  surface_outcome = surface_outcome;
}

-- `_find_binding`, the same in both gateways
unfoldable pub find_binding :
    GatewayExecutionContext → GatewayActionRequest → Option BrowserTargetBinding
find_binding context request =
    find (λ binding. binding.semantic_target == request.semantic_target)
      context.profile.target_bindings

-- `_redaction_context`, the same in both gateways
unfoldable pub redaction_context_of : ActionSpec → RedactionContext
redaction_context_of (fill_action target value) = record default_redaction {
  explicit_values = value.secret_value ∷ [];
}
redaction_context_of _ = default_redaction

-- `_surface_result`, the same in both gateways
unfoldable pub surface_result : GatewayActionRequest → SurfaceActionResult → GatewayResult
surface_result request r = elim r.outcome [
  | applied ↦ result request executed "APPLIED" r.summary (some r.outcome)
  | other ↦ result request failed (outcome_text r.outcome) r.summary (some r.outcome)
]

-- `decision.casefold()`
abbrev pub decision_folded : PolicyEffect → String
decision_folded allow = "allow"
decision_folded deny = "deny"
decision_folded require_approval = "require_approval"

abbrev pub text_or_null : Option String → Fields → String → Fields
text_or_null none rest key = field key null rest
text_or_null (some s) rest key = field key (text s) rest

unfoldable pub policy_event :
    GatewayActionRequest → GatewayExecutionContext → PolicyDecision → EvidenceEvent
policy_event request context decision = record {
  event_type = policy;
  component = "action-gateway";
  run_id = context.run_id;
  session_id = some context.control_session_id;
  step_id = request.step_id;
  action_id = some request.action_id;
  outcome = some (decision_folded decision.decision);
  reason_code = some (reason_text decision.reason_code);
  summary = none;
  metadata = field "semantic_target" (text request.semantic_target.value) (
      field "action_kind" (text (action_kind request.action))
        (text_or_null decision.rule_id end "rule_id"));
}

abbrev pub surface_outcome_text : Option SurfaceActionOutcome → Option String
surface_outcome_text none = none
surface_outcome_text (some outcome) = some (outcome_text outcome)

unfoldable pub action_event :
    GatewayResult → GatewayActionRequest → GatewayExecutionContext → EvidenceEvent
action_event r request context = record {
  event_type = action;
  component = "action-gateway";
  run_id = context.run_id;
  session_id = some context.control_session_id;
  step_id = request.step_id;
  action_id = some request.action_id;
  outcome = some (outcome_folded r.outcome);
  reason_code = some r.reason_code;
  summary = none;
  metadata = field "semantic_target" (text request.semantic_target.value) (
      field "action_kind" (text (action_kind request.action))
        (text_or_null (surface_outcome_text r.surface_outcome) end "surface_outcome"));
}

abbrev pub is_executed : GatewayOutcome → Bool
is_executed executed = true
is_executed _ = false

module _ (P : Ports) (request : GatewayActionRequest) (context : GatewayExecutionContext) where
  -- `_record_policy_decision`: a result only where the evidence could not be written
  unfoldable pub record_policy_decision : PolicyDecision → World P → Option GatewayResult × World P
  unfolding record_event
  record_policy_decision decision w =
      let (done, w') =
        record_event P (policy_event request context decision)
          (some (redaction_context_of request.action)) w in
      (
        if done
            then none
            else some (
                result request failed "EVIDENCE_PRE_ACTION_FAILED"
                  "Required policy evidence could not be recorded." none),
        w',
      )

  -- `_record_action_event`, and whether it returned
  abbrev pub record_action_event : GatewayResult → World P → Bool × World P
  record_action_event r w =
      record_event P (action_event r request context) (some (redaction_context_of request.action)) w

  unfoldable pub record_before_dispatch : GatewayResult → World P → GatewayResult × World P
  unfolding record_event
  record_before_dispatch r w =
      let (done, w') = record_action_event r w in
      (
        if done
            then r
            else result request failed "EVIDENCE_PRE_ACTION_FAILED"
                "Required pre-action evidence could not be recorded." none,
        w',
      )

  unfoldable pub record_after_dispatch : GatewayResult → World P → GatewayResult × World P
  unfolding record_event
  record_after_dispatch r w =
      let (done, w') = record_action_event r w in
      (
        if done
            then r
            else result request failed
                (if is_executed r.outcome
                  then "ACTION_EFFECT_OCCURRED_EVIDENCE_FAILED"
                  else "POST_ACTION_EVIDENCE_FAILED")
                "Surface dispatch completed but action evidence could not be recorded."
                r.surface_outcome,
        w',
      )

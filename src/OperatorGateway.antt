-- ===== src/OperatorGateway.antt =====
-- intervention/operator_action_gateway.py: `OperatorActionGateway`, by which an operator in control of
-- a session acts on its surface. `_find_binding`, `_redaction_context`, `_surface_result` and `_result`
-- are, word for word, those of the automated gateway.
pub mod Authority
use capability_runner.Prelude.{
  String, Bool, true, false, Option, none, some, ◌==◌, if◌then◌else◌, Result, ok, err,
}
use capability_runner.Contracts.Sessions.{SessionState, SessionControllerError}
use capability_runner.Contracts.Actions.{action_kind}
use capability_runner.Contracts.Surfaces.{BrowserTargetBinding, SurfaceActionResult, outcome_text}
use capability_runner.Contracts.Policy.{
  allow, deny, require_approval, PolicyDefinition, PolicyDecision, reason_text,
}
use capability_runner.Contracts.Evidence.{
  EvidenceEvent, Fields, end, field, text, policy, intervention,
}
use capability_runner.Contracts.Gateway.{
  GatewayActionRequest, GatewayExecutionContext, denied, approval_required, failed, outcome_folded,
  GatewayResult,
}
use capability_runner.Session.{get_record, begin_operator_dispatch, end_dispatch}
use capability_runner.Policy.{UrlLibrary, evaluate}
use capability_runner.Ports.{
  Ports, World, SurfaceError, controller_error, other_error, wait, wait_free, record_event,
}
use capability_runner.Gateway.{code_text, context_of}
use capability_runner.Gateway.Results.{
  result, find_binding, redaction_context_of, surface_result, decision_folded, text_or_null,
  surface_outcome_text, is_executed,
}

pub record OperatorGateway : Type 0 where
  pub urls : UrlLibrary
  pub definition : PolicyDefinition

unfoldable pub operator_policy_event :
    GatewayActionRequest → GatewayExecutionContext → PolicyDecision → EvidenceEvent
operator_policy_event request context decision = record {
  event_type = policy;
  component = "operator-action-gateway";
  run_id = context.run_id;
  session_id = some context.control_session_id;
  step_id = request.step_id;
  action_id = some request.action_id;
  outcome = some (decision_folded decision.decision);
  reason_code = some (reason_text decision.reason_code);
  summary = none;
  metadata =
      field "semantic_target" (text request.semantic_target.value)
        (field "action_kind" (text (action_kind request.action)) end);
}

unfoldable pub operator_action_event :
    GatewayResult → GatewayActionRequest → GatewayExecutionContext → EvidenceEvent
operator_action_event r request context = record {
  event_type = intervention;
  component = "operator-action-gateway";
  run_id = context.run_id;
  session_id = some context.control_session_id;
  step_id = request.step_id;
  action_id = some request.action_id;
  outcome = some (outcome_folded r.outcome);
  reason_code = some "OPERATOR_ACTION";
  summary = some r.summary;
  metadata = field "semantic_target" (text request.semantic_target.value) (
      field "action_kind" (text (action_kind request.action)) (
        field "result_reason_code" (text r.reason_code)
          (text_or_null (surface_outcome_text r.surface_outcome) end "surface_outcome")));
}

module _ (P : Ports) (g : OperatorGateway) (request : GatewayActionRequest)
    (context : GatewayExecutionContext) where
  -- `_record_result`
  unfoldable pub record_result : GatewayResult → World P → GatewayResult × World P
  unfolding record_event
  record_result r w =
      let (done, w') =
        record_event P (operator_action_event r request context)
          (some (redaction_context_of request.action)) w in
      (
        if done
            then r
            else result request failed
                (if is_executed r.outcome
                  then "ACTION_EFFECT_OCCURRED_EVIDENCE_FAILED"
                  else "POST_ACTION_EVIDENCE_FAILED")
                "Operator dispatch completed but action evidence could not be recorded."
                r.surface_outcome,
        w',
      )

  unfoldable pub operator_decision : PolicyDecision
  operator_decision =
      evaluate g.urls g.definition request.action (context_of context.profile)
        (some request.semantic_target)

  unfoldable pub operator_conclude :
      Result SurfaceError SurfaceActionResult → World P → GatewayResult × World P
  operator_conclude (ok r) w = record_result (surface_result request r) w
  operator_conclude (err (controller_error e)) w =
      record_result (result request failed (code_text e.code) e.summary none) w
  operator_conclude (err (other_error what)) w =
      record_result
        (result request failed "SURFACE_ADAPTER_ERROR"
          "Surface adapter raised an infrastructure error." none)
        w

  abbrev pub operator_refuse : SessionControllerError → World P → GatewayResult × World P
  operator_refuse e w = record_result (result request failed (code_text e.code) e.summary none) w

  -- The body of the `async with` block. Other tasks run while the surface works.
  unfoldable pub operator_act : BrowserTargetBinding → World P → GatewayResult × World P
  operator_act binding w =
      let (r, surface) =
        P.perform_action context.surface_session request.action binding w.surface in
      let after = wait P (record w { surface = surface }) in
      operator_conclude r
        (record after { controller = end_dispatch context.control_session_id after.controller })

  unfoldable pub operator_entered :
      BrowserTargetBinding
      → Result SessionControllerError SessionState
      → World P
      → GatewayResult × World P
  operator_entered binding (err e) w = operator_refuse e w
  operator_entered binding (ok state) w = operator_act binding w

  -- `async with operator_dispatch(...)`. Other tasks run until the dispatch lock is free.
  unfoldable pub operator_dispatch :
      String → BrowserTargetBinding → World P → GatewayResult × World P
  operator_dispatch operator_id binding w =
      elim (get_record context.control_session_id w.controller) [
        | err e ↦ operator_refuse e w
        | ok r ↦
            let free = wait_free P context.control_session_id w in
            let (state, controller) =
              begin_operator_dispatch context.control_session_id context.expected_generation
                operator_id free.controller in
            operator_entered binding state (record free { controller = controller })
      ]

  unfoldable pub operator_follow :
      String → BrowserTargetBinding → PolicyDecision → World P → GatewayResult × World P
  operator_follow operator_id binding decision w = elim decision.decision [
    | deny ↦
        record_result
          (result request denied (reason_text decision.reason_code) decision.summary none) w
    | require_approval ↦
        record_result
          (result request approval_required (reason_text decision.reason_code) decision.summary
            none)
          w
    | allow ↦ operator_dispatch operator_id binding w
  ]

  -- The evidence of the decision, and what follows if it could be written.
  unfoldable pub operator_authorize :
      String → BrowserTargetBinding → World P → GatewayResult × World P
  unfolding record_event
  operator_authorize operator_id binding w =
      let (done, w') =
        record_event P (operator_policy_event request context operator_decision)
          (some (redaction_context_of request.action)) w in
      elim done [
        | true ↦ operator_follow operator_id binding operator_decision w'
        | false ↦ (
          result request failed "EVIDENCE_PRE_ACTION_FAILED"
              "Required operator policy evidence could not be recorded." none,
          w',
        )
      ]

  unfoldable pub operator_execute : String → World P → GatewayResult × World P
  operator_execute operator_id w = elim (find_binding context request) [
    | none ↦
        record_result
          (result request failed "TARGET_BINDING_NOT_FOUND"
            "Trusted target binding is not configured." none)
          w
    | some binding ↦ operator_authorize operator_id binding w
  ]

-- ===== src/Gateway/Effects.antt =====
-- What every answer of `ActionGateway.execute` says of its request and of the surface.
use capability_runner.Prelude.{
  ◌≡◌, ◌≢◌, refl, ◌⊎◌, true, Option, none, some, Result, ok, err, arith,
}
use capability_runner.Contracts.Sessions.{SessionState, SessionControllerError}
use capability_runner.Contracts.Surfaces.{BrowserTargetBinding, SurfaceActionResult, applied}
use capability_runner.Contracts.Policy.{
  PolicyReasonCode, allow, require_approval, PolicyDecision, reason_text,
}
use capability_runner.Contracts.Gateway.{
  GatewayActionRequest, GatewayExecutionContext, executed, approval_required, failed, GatewayResult,
}
use capability_runner.Ports.{Ports, World, SurfaceError, controller_error, other_error}
use capability_runner.Session.{get_record}
use capability_runner.Session.Transitions.{SessionRecord}
use capability_runner.Policy.{evaluate, evaluate_action, decision_from_rule, decision_by_effect}
use capability_runner.Gateway.{
  Gateway, active_scope, check_scope, decide, conclude, refuse, act, entered, dispatch, follow,
  authorize, execute,
}
use capability_runner.Gateway.Authority.{
  Acted, Authorized, surface_call, decided, decision_recorded,
}
use capability_runner.Gateway.Results.{
  find_binding, surface_result, record_policy_decision, record_before_dispatch,
  record_after_dispatch,
}

module _ (P : Ports) (request : GatewayActionRequest) (context : GatewayExecutionContext) where
  -- A result that answers this request, and that does not hide what the surface did: if the surface
  -- applied the action, the result is EXECUTED, or it says that the effect occurred and its evidence
  -- is missing. A result that asks for approval says so by its code.
  pub record Answers (r : GatewayResult) : Type 0 where
    pub same_action : r.action_id ≡ request.action_id
    pub same_target : r.semantic_target ≡ request.semantic_target
    pub honest :
        (r.surface_outcome ≢ some applied)
        ⊎ (r.outcome ≡ executed)
        ⊎ ((r.outcome ≡ failed) × (r.reason_code ≡ "ACTION_EFFECT_OCCURRED_EVIDENCE_FAILED"))
    pub effective : (r.outcome ≢ executed) ⊎ (r.surface_outcome ≡ some applied)
    pub approval : (r.outcome ≢ approval_required) ⊎ (r.reason_code ≡ "APPROVAL_REQUIRED")

  -- A result that says that the surface applied the action.
  pub record Reported (r : GatewayResult) : Type 0 where
    pub surface : r.surface_outcome ≡ some applied
    pub said :
        (r.outcome ≡ executed)
        ⊎ ((r.outcome ≡ failed) × (r.reason_code ≡ "ACTION_EFFECT_OCCURRED_EVIDENCE_FAILED"))

  before-Answers :
      (r : GatewayResult) (w : World P)
      → Answers r
      → Answers (record_before_dispatch P request context r w).0
  unfolding record_before_dispatch
  before-Answers r w h = ground arith

  after-Answers :
      (r : GatewayResult) (w : World P)
      → Answers r
      → (r.surface_outcome ≡ some applied → r.outcome ≡ executed)
      → Answers (record_after_dispatch P request context r w).0
  unfolding record_after_dispatch
  after-Answers r w h plain = ground arith

  surface_plain :
      (s : SurfaceActionResult)
      → (surface_result request s).surface_outcome ≡ some applied
      → (surface_result request s).outcome ≡ executed
  unfolding surface_result
  surface_plain s h = ground arith

  surface-Answers : (s : SurfaceActionResult) → Answers (surface_result request s)
  unfolding surface_result
  surface-Answers s = ground arith

  module _ (g : Gateway) where
    conclude-Answers :
        (r : Result SurfaceError SurfaceActionResult) (w : World P)
        → Answers (conclude P g request context r w).0
    unfolding conclude
    conclude-Answers (ok s) w = after-Answers _ w (surface-Answers s) (surface_plain s)
    conclude-Answers (err (controller_error e)) w = before-Answers _ w (ground arith)
    conclude-Answers (err (other_error e)) w = after-Answers _ w (ground arith) (λ e. ground arith)

    refuse-Answers :
        (e : SessionControllerError) (w : World P) → Answers (refuse P g request context e w).0
    refuse-Answers e w = before-Answers _ w (ground arith)

    entered-Answers :
        (b : BrowserTargetBinding) (entry : Result SessionControllerError SessionState)
        (w : World P)
        → Answers (entered P g request context b entry w).0
    unfolding entered act
    entered-Answers b (ok state) w = conclude-Answers _ _
    entered-Answers b (err e) w = refuse-Answers e w

    dispatch-Answers :
        (b : BrowserTargetBinding) (w : World P) → Answers (dispatch P g request context b w).0
    unfolding dispatch
    dispatch-Answers b w = go (get_record context.control_session_id w.controller) refl
      where
        go :
            (r : Result SessionControllerError SessionRecord)
            → get_record context.control_session_id w.controller ≡ r
            → Answers (dispatch P g request context b w).0
        go (ok r) same = rw (same, dispatch) (entered-Answers b _ _)
        go (err e) same = rw (same, dispatch) (refuse-Answers e w)

    follow-Answers :
        (b : BrowserTargetBinding) (decision : PolicyDecision) (w : World P)
        → (decision.decision ≢ require_approval)
          ⊎ (decision.reason_code ≡ PolicyReasonCode.approval_required)
        → Answers (follow P g request context b decision w).0
    unfolding follow reason_text
    follow-Answers b decision w fits = ground (arith, dispatch-Answers b w)

    -- Only a rule asks for approval, and its decision has that code.
    decide_reason :
        ((decide P g request context).decision ≢ require_approval)
        ⊎ ((decide P g request context).reason_code ≡ PolicyReasonCode.approval_required)
    unfolding decide evaluate evaluate_action decision_from_rule decision_by_effect
    decide_reason = ground arith

    authorize-Answers :
        (b : BrowserTargetBinding) (w : World P) → Answers (authorize P g request context b w).0
    unfolding authorize record_policy_decision
    authorize-Answers b w = ground (
      arith,
      follow-Answers b (decide P g request context)
          (record_policy_decision P request context (decide P g request context) w).1 decide_reason,
    )

    checked-Answers :
        (b : BrowserTargetBinding) (w : World P)
        → find_binding context request ≡ some b
        → (checked : Option BrowserTargetBinding)
        → (check_scope P g request context b w).0 ≡ checked
        → Answers (execute P g request context w).0
    unfolding execute
    checked-Answers b w bound none same =
        rw (bound, execute) (rw same (before-Answers _ _ (ground arith)))
    checked-Answers b w bound (some used) same =
        rw (bound, execute) (rw same (authorize-Answers used _))

    -- Every result answers this request.
    pub execute-Answers : (w : World P) → Answers (execute P g request context w).0
    unfolding execute
    execute-Answers w = go (find_binding context request) refl
      where
        go :
            (b : Option BrowserTargetBinding)
            → find_binding context request ≡ b
            → Answers (execute P g request context w).0
        go none same = rw (same, execute) (before-Answers _ w (ground arith))
        go (some b) same = checked-Answers b w same (check_scope P g request context b w).0 refl

    applied_conclude :
        (s : SurfaceActionResult) (w : World P)
        → s.outcome ≡ applied
        → Reported (conclude P g request context (ok s) w).0
    unfolding conclude record_after_dispatch surface_result
    applied_conclude s w h = ground arith

    applied_act :
        (b : BrowserTargetBinding) (s : SurfaceActionResult) (w : World P)
        → surface_call P request context b w ≡ ok s
        → s.outcome ≡ applied
        → Reported (act P g request context b w).0
    unfolding act
    applied_act b s w called effective = rw (called, act) (applied_conclude s _ effective)

    applied_dispatch :
        (b : BrowserTargetBinding) (w : World P)
        → Acted P request context b w
        → Reported (dispatch P g request context b w).0
    unfolding dispatch entered
    applied_dispatch b w a =
        rw (a.opened, dispatch)
          (rw (a.began, entered) (applied_act b a.answer _ a.called a.effective))

    recorded_decision :
        (w : World P)
        → decision_recorded P request context g w ≡ true
        → (record_policy_decision P request context (decide P g request context) w).0 ≡ none
    unfolding record_policy_decision
    recorded_decision w h = ground arith

    applied_authorize :
        (b : BrowserTargetBinding) (w : World P)
        → (decide P g request context).decision ≡ allow
        → decision_recorded P request context g w ≡ true
        → Acted P request context b (decided P request context g w)
        → Reported (authorize P g request context b w).0
    unfolding authorize follow
    applied_authorize b w allowed recorded acted =
        rw (recorded_decision w recorded, authorize)
          (rw (allowed, follow) (applied_dispatch b (decided P request context g w) acted))

    -- The gateway never hides an effect. Where the action was authorized and the surface, called at
    -- the moment when the task had the lock, answered that it applied the action, the result answers
    -- the request, has the surface's outcome, and is EXECUTED, or FAILED with the code that says that
    -- the effect occurred and its evidence could not be written.
    pub applied-Reported :
        (w : World P)
        → Authorized P request context g w
        → Answers (execute P g request context w).0 × Reported (execute P g request context w).0
    unfolding execute
    applied-Reported w a = (
      execute-Answers w,
      rw (a.bound, execute)
          (rw a.checked (
            applied_authorize a.used (check_scope P g request context a.trusted w).1 a.allowed
              a.recorded a.acted)),
    )

    -- A gateway with no scope to check, whose policy does not decide ALLOW, does not act: whatever
    -- becomes of the evidence, the surface and the sessions are as they were, and nothing is executed.
    pub denied_untouched :
        (w : World P)
        → active_scope g ≡ none
        → (decide P g request context).decision ≢ allow
        → ((execute P g request context w).1.surface ≡ w.surface)
          × ((execute P g request context w).1.controller ≡ w.controller)
          × ((execute P g request context w).0.outcome ≢ executed)
    unfolding execute check_scope authorize follow record_policy_decision record_before_dispatch
    denied_untouched w unscoped refused = ground arith

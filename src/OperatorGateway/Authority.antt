-- ===== src/OperatorGateway/Authority.antt =====
-- What an operator's executed action has passed, and what its evidence says.
use capability_runner.Prelude.{
  ℕ, String, ◌≡◌, ◌≢◌, refl, Bool, true, false, Option, none, some, Result, ok, err, lookup, arith,
}
use capability_runner.Contracts.Sessions.{SessionState, operator_controlled, SessionControllerError}
use capability_runner.Contracts.Surfaces.{BrowserTargetBinding, SurfaceActionResult, applied}
use capability_runner.Contracts.Policy.{PolicyEffect, allow, deny, require_approval, PolicyDecision}
use capability_runner.Contracts.Gateway.{GatewayActionRequest, GatewayExecutionContext, executed}
use capability_runner.Session.{is_free, get_record, begin_operator_dispatch, Controller}
use capability_runner.Session.Transitions.{SessionRecord, owned_by_operator}
use capability_runner.Ports.{
  Ports, World, SurfaceError, controller_error, other_error, wait_free, wait_free-is_free,
}
use capability_runner.Gateway.Results.{find_binding, redaction_context_of, surface_result}
use capability_runner.OperatorGateway.{
  OperatorGateway, operator_policy_event, record_result, operator_decision, operator_conclude,
  operator_refuse, operator_act, operator_entered, operator_dispatch, operator_follow,
  operator_authorize, operator_execute,
}

-- A session of the controller that an operator controls at a generation.
pub record InHands (session_id operator_id : String) (generation : ℕ) (c : Controller)
    : Type 0 where
  pub session : SessionRecord
  pub found : lookup session_id c ≡ some session
  pub controlled : session.state.control_state ≡ operator_controlled
  pub current : session.state.control_generation ≡ generation
  pub owned : owned_by_operator operator_id session.state.owner ≡ true

begin-InHands :
    (session_id operator_id : String) (g : ℕ) (c : Controller) (s : SessionState)
    → (begin_operator_dispatch session_id g operator_id c).0 ≡ ok s
    → InHands session_id operator_id g c
unfolding begin_operator_dispatch
begin-InHands session_id operator_id g c s h = go (lookup session_id c) refl
  where
    go :
        (found : Option SessionRecord)
        → lookup session_id c ≡ found
        → InHands session_id operator_id g c
    go none e = absurd (ground arith)
    go (some r) e = record {
      session = r;
      found = e;
      controlled = ground arith;
      current = ground arith;
      owned = ground arith;
    }

module _ (P : Ports) (g : OperatorGateway) (request : GatewayActionRequest)
    (context : GatewayExecutionContext) (operator_id : String) where
  -- The moment at which the task has the dispatch lock that it waited for.
  abbrev pub at_lock : World P → World P
  at_lock w = wait_free P context.control_session_id w

  -- An operator's action that the surface applied, at a moment when the dispatch lock was free and the
  -- operator was in control.
  pub record ActedBy (b : BrowserTargetBinding) (w : World P) : Type 0 where
    pub free : is_free context.control_session_id (at_lock w).controller ≡ true
    pub in_hands :
        InHands context.control_session_id operator_id context.expected_generation
          (at_lock w).controller
    pub answer : SurfaceActionResult
    pub called :
        (P.perform_action context.surface_session request.action b (at_lock w).surface).0
        ≡ ok answer
    pub effective : answer.outcome ≡ applied

  refused_executed :
      (e : SessionControllerError) (w : World P)
      → (operator_refuse P g request context e w).0.outcome ≢ executed
  unfolding record_result
  refused_executed e w h = ground arith

  concluded_executed :
      (r : Result SurfaceError SurfaceActionResult) (w : World P)
      → (operator_conclude P g request context r w).0.outcome ≡ executed
      → (s : SurfaceActionResult) × (r ≡ ok s) × (s.outcome ≡ applied)
  unfolding operator_conclude record_result surface_result
  concluded_executed (ok s) w h = (s, refl, ground arith)
  concluded_executed (err (controller_error e)) w h = absurd (ground arith)
  concluded_executed (err (other_error e)) w h = absurd (ground arith)

  entered_executed :
      (b : BrowserTargetBinding) (entry : Result SessionControllerError SessionState) (w : World P)
      → (operator_entered P g request context b entry w).0.outcome ≡ executed
      → ((state : SessionState) × (entry ≡ ok state))
        × ((s : SurfaceActionResult) × ((P.perform_action context.surface_session request.action b
                w.surface).0
              ≡ ok s)
            × (s.outcome ≡ applied))
  unfolding operator_entered operator_act
  entered_executed b (ok state) w h = ((state, refl), concluded_executed _ _ h)
  entered_executed b (err e) w h = absurd (refused_executed e w h)

  dispatched_executed :
      (b : BrowserTargetBinding) (w : World P)
      → (operator_dispatch P g request context operator_id b w).0.outcome ≡ executed
      → ActedBy b w
  unfolding operator_dispatch
  dispatched_executed b w h = go (get_record context.control_session_id w.controller) refl
    where
      go :
          (r : Result SessionControllerError SessionRecord)
          → get_record context.control_session_id w.controller ≡ r
          → ActedBy b w
      go (err e) same = absurd (refused_executed e w (rw (same, operator_dispatch) at h))
      go (ok r) same =
          let ((state, began), (s, called, effective)) =
            entered_executed b _ _ (rw (same, operator_dispatch) at h) in
          record {
            free = wait_free-is_free P context.control_session_id w;
            in_hands =
                begin-InHands context.control_session_id operator_id context.expected_generation
                  (at_lock w).controller state began;
            answer = s;
            called = called;
            effective = effective;
          }

  followed_executed :
      (b : BrowserTargetBinding) (decision : PolicyDecision) (w : World P)
      → (operator_follow P g request context operator_id b decision w).0.outcome ≡ executed
      → (decision.decision ≡ allow) × ActedBy b w
  unfolding operator_follow record_result
  followed_executed b decision w h = go decision.decision refl
    where
      go : (e : PolicyEffect) → decision.decision ≡ e → (decision.decision ≡ allow) × ActedBy b w
      go allow same = (same, dispatched_executed b w (rw (same, operator_follow) at h))
      go deny same = absurd (ground arith)
      go require_approval same = absurd (ground arith)

  -- The evidence of the policy's decision: whether it was written, and the world after it.
  abbrev pub policy_write : World P → Bool × P.Evidence
  policy_write w =
      P.write (operator_policy_event request context (operator_decision P g request context))
        (some (redaction_context_of request.action)) w.evidence

  -- An operator's action is reported as executed only if the profile binds its target, the policy
  -- decided ALLOW and the evidence of that was written first, and then, at a moment when the dispatch
  -- lock was free, that very operator controlled the session at exactly the expected generation, and
  -- the surface applied the action to the bound target.
  pub operator_execute_authorized :
      (w : World P)
      → (operator_execute P g request context operator_id w).0.outcome ≡ executed
      → (b : BrowserTargetBinding) × (find_binding context request ≡ some b)
        × ((operator_decision P g request context).decision ≡ allow)
        × ((policy_write w).0 ≡ true)
        × ActedBy b (record w { evidence = (policy_write w).1 })
  unfolding operator_execute operator_authorize record_result
  operator_execute_authorized w h = go (find_binding context request) (policy_write w).0 refl refl
    where
      go :
          (found : Option BrowserTargetBinding) (done : Bool)
          → find_binding context request ≡ found
          → (policy_write w).0 ≡ done
          → (b : BrowserTargetBinding) × (find_binding context request ≡ some b)
            × ((operator_decision P g request context).decision ≡ allow)
            × ((policy_write w).0 ≡ true)
            × ActedBy b (record w { evidence = (policy_write w).1 })
      go none done same written = absurd (ground arith)
      go (some b) false same written = absurd (ground arith)
      go (some b) true same written =
          let (allowed, acted) =
            followed_executed b (operator_decision P g request context)
              (record w { evidence = (policy_write w).1 })
              (rw (same, operator_execute, written, operator_authorize) at h) in
          (b, same, allowed, written, acted)

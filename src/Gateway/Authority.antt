-- ===== src/Gateway/Authority.antt =====
-- What an executed action has passed.
use capability_runner.Prelude.{
  ℕ, String, ◌≡◌, ◌≢◌, ◌⊎◌, inl, inr, refl, Bool, true, Option, none, some, Result, ok, err, lookup,
  nat_eq, arith,
}
use capability_runner.Contracts.Sessions.{
  SessionState, automation_controlled, control_state_eq, SessionControllerError,
}
use capability_runner.Contracts.Surfaces.{BrowserTargetBinding, SurfaceActionResult, applied}
use capability_runner.Contracts.Policy.{PolicyEffect, allow, deny, require_approval, PolicyDecision}
use capability_runner.Contracts.Gateway.{
  GatewayActionRequest, GatewayExecutionContext, executed, GatewayResult,
}
use capability_runner.Contracts.Browser.{BrowserScope, InteractiveElement}
use capability_runner.Scope.{observed_action_allowed}
use capability_runner.Session.{is_free, get_record, begin_automation_dispatch, Controller}
use capability_runner.Session.Transitions.{SessionRecord, enter_automation, is_automation}
use capability_runner.Ports.{
  Ports, World, SurfaceError, controller_error, other_error, wait_free, wait_free-is_free,
}
use capability_runner.Gateway.{
  Gateway, active_scope, inspected, check_scope, decide, conclude, refuse, act, entered, dispatch,
  follow, authorize, execute,
}
use capability_runner.Gateway.Results.{
  find_binding, redaction_context_of, surface_result, policy_event, action_event,
  record_policy_decision, record_before_dispatch, record_after_dispatch,
}

-- A session of the controller that is under the control of automation at a generation.
pub record InControl (session_id : String) (generation : ℕ) (c : Controller) : Type 0 where
  pub session : SessionRecord
  pub found : lookup session_id c ≡ some session
  pub controlled : session.state.control_state ≡ automation_controlled
  pub current : session.state.control_generation ≡ generation
  pub owned : is_automation session.state.owner ≡ true

enter_facts :
    (session_id : String) (g : ℕ) (r s : SessionRecord)
    → enter_automation session_id g r ≡ ok s
    → (r.state.control_state ≡ automation_controlled)
      × (r.state.control_generation ≡ g)
      × (is_automation r.state.owner ≡ true)
unfolding enter_automation
enter_facts session_id g r s h = ground arith

begin-InControl :
    (session_id : String) (g : ℕ) (c : Controller) (s : SessionState)
    → (begin_automation_dispatch session_id g c).0 ≡ ok s
    → InControl session_id g c
unfolding begin_automation_dispatch
begin-InControl session_id g c s h = go (lookup session_id c) refl
  where
    go : (found : Option SessionRecord) → lookup session_id c ≡ found → InControl session_id g c
    go none e = absurd (ground arith)
    go (some r) e = record {
      session = r;
      found = e;
      controlled = ground arith;
      current = ground arith;
      owned = ground arith;
    }

module _ (P : Ports) (request : GatewayActionRequest) (context : GatewayExecutionContext) where
  conclude_executed :
      (g : Gateway) (r : Result SurfaceError SurfaceActionResult) (w : World P)
      → (conclude P g request context r w).0.outcome ≡ executed
      → (s : SurfaceActionResult) × (r ≡ ok s)
        × (s.outcome ≡ applied)
        × ((P.write
              (action_event (surface_result request s) request context)
              (some (redaction_context_of request.action))
              w.evidence).0
            ≡ true)
  unfolding conclude record_after_dispatch record_before_dispatch surface_result
  conclude_executed g (ok s) w h = (s, refl, ground arith, ground arith)
  conclude_executed g (err (controller_error e)) w h = absurd (ground arith)
  conclude_executed g (err (other_error e)) w h = absurd (ground arith)

  -- The surface call of a binding at a world, and its answer.
  abbrev pub surface_call : BrowserTargetBinding → World P → Result SurfaceError SurfaceActionResult
  surface_call b w = (P.perform_action context.surface_session request.action b w.surface).0

  -- The moment at which the task has the dispatch lock that it waited for.
  abbrev pub at_lock : World P → World P
  at_lock w = wait_free P context.control_session_id w

  -- The session was known when the task began to wait for the lock. At the moment when it has it, the
  -- lock was free, automation was in control, and the dispatch began; and the surface applied the
  -- action.
  pub record Acted (b : BrowserTargetBinding) (w : World P) : Type 0 where
    pub known : SessionRecord
    pub opened : get_record context.control_session_id w.controller ≡ ok known
    pub free : is_free context.control_session_id (at_lock w).controller ≡ true
    pub in_control :
        InControl context.control_session_id context.expected_generation (at_lock w).controller
    pub state : SessionState
    pub began :
        (begin_automation_dispatch context.control_session_id context.expected_generation
          (at_lock w).controller).0
        ≡ ok state
    pub answer : SurfaceActionResult
    pub called : surface_call b (at_lock w) ≡ ok answer
    pub effective : answer.outcome ≡ applied

  module _ (g : Gateway) where
    refused_executed :
        (e : SessionControllerError) (w : World P)
        → (refuse P g request context e w).0.outcome ≢ executed
    unfolding record_before_dispatch
    refused_executed e w h = ground arith

    -- The world in which an entered dispatch goes on, from its surface's answer.
    act_executed :
        (b : BrowserTargetBinding) (w : World P)
        → (act P g request context b w).0.outcome ≡ executed
        → (s : SurfaceActionResult) × (surface_call b w ≡ ok s) × (s.outcome ≡ applied)
    unfolding act
    act_executed b w h =
        let (s, called, effective, written) = conclude_executed g (surface_call b w) _ h in
        (s, called, effective)

    entered_executed :
        (b : BrowserTargetBinding) (entry : Result SessionControllerError SessionState)
        (w : World P)
        → (entered P g request context b entry w).0.outcome ≡ executed
        → ((state : SessionState) × (entry ≡ ok state))
          × ((s : SurfaceActionResult) × (surface_call b w ≡ ok s) × (s.outcome ≡ applied))
    unfolding entered
    entered_executed b (ok state) w h = ((state, refl), act_executed b w h)
    entered_executed b (err e) w h = absurd (refused_executed e w h)

    dispatch_executed :
        (b : BrowserTargetBinding) (w : World P)
        → (dispatch P g request context b w).0.outcome ≡ executed
        → Acted b w
    unfolding dispatch
    dispatch_executed b w h = go (get_record context.control_session_id w.controller) refl
      where
        go :
            (r : Result SessionControllerError SessionRecord)
            → get_record context.control_session_id w.controller ≡ r
            → Acted b w
        go (err e) same = absurd (refused_executed e w (rw (same, dispatch) at h))
        go (ok r) same =
            let ((state, began), (s, called, effective)) =
              entered_executed b _ _ (rw (same, dispatch) at h) in
            record {
              known = r;
              opened = same;
              free = wait_free-is_free P context.control_session_id w;
              in_control =
                  begin-InControl context.control_session_id context.expected_generation
                    (at_lock w).controller state began;
              state = state;
              began = began;
              answer = s;
              called = called;
              effective = effective;
            }

    follow_executed :
        (b : BrowserTargetBinding) (decision : PolicyDecision) (w : World P)
        → (follow P g request context b decision w).0.outcome ≡ executed
        → (decision.decision ≡ allow) × Acted b w
    unfolding follow
    follow_executed b decision w h = go decision.decision refl
      where
        go : (e : PolicyEffect) → decision.decision ≡ e → (decision.decision ≡ allow) × Acted b w
        go allow same = (same, dispatch_executed b w (rw (same, follow) at h))
        go deny same = absurd (ground arith)
        go require_approval same = absurd (ground arith)

    -- The world after the policy's decision has been recorded.
    abbrev pub decided : World P → World P
    decided w = (record_policy_decision P request context (decide P g request context) w).1

    -- Whether the evidence of the decision was written.
    abbrev pub decision_recorded : World P → Bool
    decision_recorded w =
        (P.write (policy_event request context (decide P g request context))
          (some (redaction_context_of request.action)) w.evidence).0

    recorded_none :
        (w : World P)
        → (record_policy_decision P request context (decide P g request context) w).0 ≡ none
        → decision_recorded w ≡ true
    unfolding record_policy_decision
    recorded_none w same = ground arith

    recorded_some :
        (w : World P) (r : GatewayResult)
        → (record_policy_decision P request context (decide P g request context) w).0 ≡ some r
        → r.outcome ≢ executed
    unfolding record_policy_decision
    recorded_some w r same h = ground arith

    authorize_executed :
        (b : BrowserTargetBinding) (w : World P)
        → (authorize P g request context b w).0.outcome ≡ executed
        → ((decide P g request context).decision ≡ allow)
          × (decision_recorded w ≡ true)
          × Acted b (decided w)
    unfolding authorize
    authorize_executed b w h =
        go (record_policy_decision P request context (decide P g request context) w).0 refl
      where
        go :
            (stopped : Option GatewayResult)
            → (record_policy_decision P request context (decide P g request context) w).0 ≡ stopped
            → ((decide P g request context).decision ≡ allow)
              × (decision_recorded w ≡ true)
              × Acted b (decided w)
        go none same =
            let (allowed, acted) =
              follow_executed b (decide P g request context) (decided w)
                (rw (same, authorize) at h) in
            (allowed, recorded_none w same, acted)
        go (some r) same = absurd (recorded_some w r same (rw (same, authorize) at h))

    -- The binding that a trusted one leads to: itself where there is no scope; and where there is one,
    -- the current element's own binding or else the trusted one, if the surface found the element and
    -- it is allowed in the scope.
    abbrev pub InScope :
        BrowserTargetBinding → World P → Option BrowserScope → BrowserTargetBinding → Type 0
    InScope trusted w none used = used ≡ trusted
    InScope trusted w (some scope) used =
        (element : InteractiveElement) × ((P.inspect_bound_element context.surface_session trusted
            w.surface).0
          ≡ some element)
        × (observed_action_allowed g.pages element scope ≡ true)
        × (((element.binding ≡ none) × (used ≡ trusted))
            ⊎ ((b : BrowserTargetBinding) × (element.binding ≡ some b)
                × (used ≡ record b { semantic_target = request.semantic_target })))

    inspected-InScope :
        (trusted used : BrowserTargetBinding) (w : World P) (scope : BrowserScope)
        (found : Option InteractiveElement)
        → (P.inspect_bound_element context.surface_session trusted w.surface).0 ≡ found
        → inspected P g request context trusted scope found ≡ some used
        → InScope trusted w (some scope) used
    unfolding inspected
    inspected-InScope trusted used w scope none e h = absurd (ground arith)
    inspected-InScope trusted used w scope (some element) e h =
        (element, e, ground arith, go element.binding refl)
      where
        go :
            (b : Option BrowserTargetBinding)
            → element.binding ≡ b
            → ((element.binding ≡ none) × (used ≡ trusted))
              ⊎ ((b : BrowserTargetBinding) × (element.binding ≡ some b)
                  × (used ≡ record b { semantic_target = request.semantic_target }))
        go none f = inl (f, ground arith)
        go (some b) f = inr (b, f, ground arith)

    check_scope-InScope :
        (trusted used : BrowserTargetBinding) (w : World P)
        → (check_scope P g request context trusted w).0 ≡ some used
        → InScope trusted w (active_scope g) used
    unfolding check_scope
    check_scope-InScope trusted used w h = go (active_scope g) refl
      where
        go : (s : Option BrowserScope) → active_scope g ≡ s → InScope trusted w s used
        go none e = ground arith
        go (some scope) e = inspected-InScope trusted used w scope _ refl (rw (e, check_scope) at h)

    -- What an executed action has passed: the profile binds its target, the current element passed the
    -- operator's scope where there is one, the policy decided ALLOW, and the evidence of that decision
    -- was written before anything else was done.
    pub record Authorized (w : World P) : Type 0 where
      pub trusted : BrowserTargetBinding
      pub bound : find_binding context request ≡ some trusted
      pub used : BrowserTargetBinding
      pub checked : (check_scope P g request context trusted w).0 ≡ some used
      pub in_scope : InScope trusted w (active_scope g) used
      pub allowed : (decide P g request context).decision ≡ allow
      pub recorded : decision_recorded (check_scope P g request context trusted w).1 ≡ true
      pub acted : Acted used (decided (check_scope P g request context trusted w).1)

    checked_executed :
        (trusted : BrowserTargetBinding) (w : World P)
        → find_binding context request ≡ some trusted
        → (checked : Option BrowserTargetBinding)
        → (check_scope P g request context trusted w).0 ≡ checked
        → (execute P g request context w).0.outcome ≡ executed
        → Authorized w
    unfolding execute record_before_dispatch
    checked_executed trusted w bound none same h = absurd (ground arith)
    checked_executed trusted w bound (some used) same h =
        let (allowed, recorded, acted) =
          authorize_executed used (check_scope P g request context trusted w).1
            (rw (same) at (rw (bound, execute) at h)) in
        record {
          trusted = trusted;
          bound = bound;
          used = used;
          checked = same;
          in_scope = check_scope-InScope trusted used w same;
          allowed = allowed;
          recorded = recorded;
          acted = acted;
        }

    -- Nothing reaches the surface unseen. An action is reported as executed only if the profile binds
    -- its target, the current element was found and is allowed in the operator's scope where there is
    -- one, the policy decided ALLOW, the evidence of that decision was written first, and then, at a moment when the
    -- dispatch lock was free, the session was under automation control at exactly the expected
    -- generation, and the surface applied the action to the binding.
    pub execute-Authorized :
        (w : World P) → (execute P g request context w).0.outcome ≡ executed → Authorized w
    unfolding execute record_before_dispatch
    execute-Authorized w h = go (find_binding context request) refl
      where
        go : (b : Option BrowserTargetBinding) → find_binding context request ≡ b → Authorized w
        go none same = absurd (ground arith)
        go (some b) same = checked_executed b w same (check_scope P g request context b w).0 refl h

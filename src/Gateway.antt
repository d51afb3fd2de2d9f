-- ===== src/Gateway.antt =====
-- interaction/action_gateway.py: `ActionGateway`, the only way by which automation acts on a surface.
-- `execute` finds the trusted binding, checks the current element where the operator gave a scope,
-- asks the policy, records the decision, and acts while it holds the session's dispatch lock.
pub mod Results
pub mod Authority
pub mod Effects
use capability_runner.Prelude.{
  String, Bool, true, false, Option, none, some, List, [], ◌∷◌, ◌==◌, string_eq, ◌&&◌, ◌||◌,
  if◌then◌else◌, Result, ok, err,
}
use capability_runner.Contracts.Sessions.{
  SessionState, SessionControllerError, SessionControlErrorCode, session_not_found,
  invalid_state_transition, not_automation_owner, not_operator_owner, stale_generation,
  dispatch_not_allowed, action_in_flight, session_stopped,
}
use capability_runner.Contracts.Actions.{ActionSpec, fill_action, action_kind}
use capability_runner.Contracts.Surfaces.{
  BrowserTargetBinding, ApplicationProfile, SurfaceActionResult,
}
use capability_runner.Contracts.Policy.{
  PolicyEffect, allow, deny, require_approval, PolicyContext, PolicyRule, click_rule, fill_rule,
  PolicyDefinition, PolicyDecision, reason_text,
}
use capability_runner.Contracts.Browser.{
  BrowserScope, InteractiveElement, ElementAction, element_action_text,
}
use capability_runner.Contracts.Gateway.{
  GatewayActionRequest, GatewayExecutionContext, GatewayResult, denied, approval_required, failed,
}
use capability_runner.Session.{get_record, begin_automation_dispatch, end_dispatch}
use capability_runner.Policy.{UrlLibrary, evaluate}
use capability_runner.Scope.{PageLibrary, observed_action_allowed}
use capability_runner.Ports.{
  Ports, World, SurfaceError, controller_error, other_error, wait, wait_free,
}
use Results.{
  result, find_binding, surface_result, record_policy_decision, record_before_dispatch,
  record_after_dispatch,
}

-- The collaborators that a gateway is built with, besides the ports. `observes` says whether it has
-- an observation adapter.
pub record Gateway : Type 0 where
  pub urls : UrlLibrary
  pub pages : PageLibrary
  pub definition : PolicyDefinition
  pub observes : Bool
  pub scope : Option BrowserScope

-- The codes of a `SessionControllerError`, as texts.
unfoldable pub code_text : SessionControlErrorCode → String
code_text session_not_found = "SESSION_NOT_FOUND"
code_text invalid_state_transition = "INVALID_STATE_TRANSITION"
code_text not_automation_owner = "NOT_AUTOMATION_OWNER"
code_text not_operator_owner = "NOT_OPERATOR_OWNER"
code_text stale_generation = "STALE_GENERATION"
code_text dispatch_not_allowed = "DISPATCH_NOT_ALLOWED"
code_text action_in_flight = "ACTION_IN_FLIGHT"
code_text session_stopped = "SESSION_STOPPED"

abbrev pub context_of : ApplicationProfile → PolicyContext
context_of profile = record { application = profile.application_family; profile = profile.variant }

-- The scope that a gateway checks elements against: it wants both the scope and the adapter.
abbrev pub active_scope : Gateway → Option BrowserScope
active_scope g = if g.observes then g.scope else none

module _ (P : Ports) (g : Gateway) (request : GatewayActionRequest)
    (context : GatewayExecutionContext) where
  abbrev pub rebind : BrowserTargetBinding → BrowserTargetBinding
  rebind binding = record binding { semantic_target = request.semantic_target }

  -- The binding to act by, once the current element is inspected, or nothing if that is not allowed.
  unfoldable pub inspected :
      BrowserTargetBinding → BrowserScope → Option InteractiveElement → Option BrowserTargetBinding
  inspected binding scope none = none
  inspected binding scope (some element) =
      if observed_action_allowed g.pages element scope
      then elim element.binding [ none ↦ some binding | some b ↦ some (rebind b) ]
      else none

  unfoldable pub check_scope :
      BrowserTargetBinding → World P → Option BrowserTargetBinding × World P
  check_scope binding w = elim (active_scope g) [
    | none ↦ (some binding, w)
    | some scope ↦
        let (element, surface) =
          P.inspect_bound_element context.surface_session binding w.surface in
        (inspected binding scope element, wait P (record w { surface = surface }))
  ]

  unfoldable pub decide : PolicyDecision
  decide =
      evaluate g.urls g.definition request.action (context_of context.profile)
        (some request.semantic_target)

  -- What becomes of a surface call that returned or raised, once the dispatch lock is released.
  unfoldable pub conclude :
      Result SurfaceError SurfaceActionResult → World P → GatewayResult × World P
  conclude (ok r) w = record_after_dispatch P request context (surface_result request r) w
  conclude (err (controller_error e)) w =
      record_before_dispatch P request context
        (result request failed (code_text e.code) e.summary none) w
  conclude (err (other_error what)) w =
      record_after_dispatch P request context
        (result request failed "SURFACE_ADAPTER_ERROR"
          "Surface adapter raised an infrastructure error." none)
        w

  abbrev pub refuse : SessionControllerError → World P → GatewayResult × World P
  refuse e w =
      record_before_dispatch P request context
        (result request failed (code_text e.code) e.summary none) w

  -- The body of the `async with` block. Other tasks run while the surface works.
  unfoldable pub act : BrowserTargetBinding → World P → GatewayResult × World P
  act binding w =
      let (r, surface) =
        P.perform_action context.surface_session request.action binding w.surface in
      let after = wait P (record w { surface = surface }) in
      conclude r
        (record after { controller = end_dispatch context.control_session_id after.controller })

  unfoldable pub entered :
      BrowserTargetBinding
      → Result SessionControllerError SessionState
      → World P
      → GatewayResult × World P
  entered binding (err e) w = refuse e w
  entered binding (ok state) w = act binding w

  -- `async with automation_dispatch(...)`. Other tasks run until the dispatch lock is free.
  unfoldable pub dispatch : BrowserTargetBinding → World P → GatewayResult × World P
  dispatch binding w = elim (get_record context.control_session_id w.controller) [
    | err e ↦ refuse e w
    | ok r ↦
        let free = wait_free P context.control_session_id w in
        let (state, controller) =
          begin_automation_dispatch context.control_session_id context.expected_generation
            free.controller in
        entered binding state (record free { controller = controller })
  ]

  -- What follows from a recorded decision.
  unfoldable pub follow : BrowserTargetBinding → PolicyDecision → World P → GatewayResult × World P
  follow binding decision w = elim decision.decision [
    | deny ↦ (result request denied (reason_text decision.reason_code) decision.summary none, w)
    | require_approval ↦ (
      result request approval_required (reason_text decision.reason_code) decision.summary none,
      w,
    )
    | allow ↦ dispatch binding w
  ]

  unfoldable pub authorize : BrowserTargetBinding → World P → GatewayResult × World P
  authorize binding w =
      let (stopped, w') = record_policy_decision P request context decide w in
      elim stopped [ some r ↦ (r, w') | none ↦ follow binding decide w' ]

  unfoldable pub execute : World P → GatewayResult × World P
  execute w = elim (find_binding context request) [
    | none ↦
        record_before_dispatch P request context
          (result request failed "TARGET_BINDING_NOT_FOUND"
            "Trusted target binding is not configured." none)
          w
    | some binding ↦
        let (checked, w') = check_scope binding w in
        elim checked [
          | none ↦
              record_before_dispatch P request context
                (result request denied "POLICY_DENIED"
                  "Current browser action is outside the read-only scope." none)
                w'
          | some b ↦ authorize b w'
        ]
  ]

-- `execute_observed`: an element that discovery saw, acted on through a policy of one rule.
unfoldable pub resolution_code_of : String → String
resolution_code_of what =
    if what == "STALE_ELEMENT_REF" || what == "UNKNOWN_ELEMENT_REF" || what == "TARGET_AMBIGUOUS"
    then what
    else "STALE_ELEMENT_REF"

-- `str(error)` where it is one of the codes that the adapter reports
unfoldable pub resolution_code : SurfaceError → String
unfolding resolution_code_of
resolution_code (controller_error e) = resolution_code_of e.summary
resolution_code (other_error what) = resolution_code_of what

module _ (P : Ports) (g : Gateway) (request : GatewayActionRequest)
    (context : GatewayExecutionContext) where
  unfoldable pub one_rule : ActionSpec → PolicyEffect → PolicyRule
  one_rule (fill_action target value) effect =
      fill_rule "operator-route-scope" effect request.semantic_target
  one_rule _ effect = click_rule "operator-route-scope" effect request.semantic_target

  unfoldable pub observed_gateway : ApplicationProfile → Bool → Gateway
  unfolding one_rule
  observed_gateway profile allowed = record {
    urls = g.urls;
    pages = g.pages;
    definition = record {
      policy_id = "observed-read-only";
      version = "1";
      allowed_contexts = context_of profile ∷ [];
      rules = one_rule request.action (if allowed then allow else deny) ∷ [];
    };
    observes = false;
    scope = none;
  }

  unfoldable pub kind_matches : Option ElementAction → Bool
  kind_matches none = false
  kind_matches (some kind) = action_kind request.action == element_action_text kind

  unfoldable pub act_on_element :
      BrowserScope → InteractiveElement → World P → GatewayResult × World P
  act_on_element scope element w = elim element.binding [
    | none ↦ (result request failed "TARGET_BINDING_NOT_FOUND" "No binding." none, w)
    | some b ↦
        let profile = record (context.profile) {
          target_bindings = record b { semantic_target = request.semantic_target } ∷ [];
        } in
        execute P
          (observed_gateway profile
            (observed_action_allowed g.pages element scope && kind_matches element.action_kind))
          request (record context { profile = profile }) w
  ]

  unfoldable pub execute_observed : String → String → World P → GatewayResult × World P
  execute_observed observation_id element_ref w = elim (active_scope g) [
    | none ↦ (result request denied "POLICY_DENIED" "No browser scope authorized." none, w)
    | some scope ↦
        let (element, surface) =
          P.resolve_observed context.surface_session observation_id element_ref w.surface in
        let w' = wait P (record w { surface = surface }) in
        elim element [
          | err e ↦
              record_before_dispatch P request context
                (result request failed (resolution_code e)
                  "Current element reference could not be validated." none)
                w'
          | ok el ↦ act_on_element scope el w'
        ]
  ]

-- ===== src/Examples/Gateways.antt =====
-- interaction/action_gateway.py and intervention/operator_action_gateway.py on concrete actions.
use capability_runner.Prelude.{
  ℕ, suc, String, ◌≡◌, ◌≢◌, refl, true, none, some, List, [], ◌∷◌, lookup, arith,
}
use capability_runner.Contracts.Sessions.{operator_controlled, operator_owner, control_state_eq}
use capability_runner.Contracts.Surfaces.{BrowserTargetBinding, semantic_target_ref_eq}
use capability_runner.Contracts.Policy.{allow, require_approval}
use capability_runner.Contracts.Gateway.{GatewayExecutionContext, executed}
use capability_runner.Policy.{evaluate, evaluate_action, is_allowed_context, decision_from_rule}
use capability_runner.Session.{
  fresh_record, get_record, with_record, begin_automation_dispatch, begin_operator_dispatch,
  end_dispatch,
}
use capability_runner.Session.Transitions.{
  SessionRecord, enter_automation, enter_operator, automation_guard, operator_guard,
  ensure_not_stopped, owned_by_operator,
}
use capability_runner.Ports.{World, wait, record_event}
use capability_runner.Gateway.{
  check_scope, decide, conclude, act, entered, dispatch, follow, authorize, execute,
}
use capability_runner.Gateway.Results.{
  find_binding, surface_result, record_policy_decision, record_before_dispatch,
  record_after_dispatch,
}
use capability_runner.Gateway.Authority.{Authorized, execute-Authorized}
use capability_runner.Gateway.Effects.{Answers, applied-Reported, Reported, denied_untouched}
use capability_runner.OperatorGateway.{
  OperatorGateway, record_result, operator_decision, operator_conclude, operator_act,
  operator_entered, operator_dispatch, operator_follow, operator_authorize, operator_execute,
}
use capability_runner.OperatorGateway.Authority.{ActedBy, policy_write, operator_execute_authorized}
use capability_runner.Examples.Fixtures.{
  bank_ports, bank_request, bank_run, bank_gateway, bank_world, bank_urls, bank_policy,
}

click_executed :
    (execute bank_ports (bank_gateway allow) bank_request bank_run bank_world).0.outcome ≡ executed
unfolding execute find_binding check_scope authorize decide evaluate evaluate_action
    is_allowed_context decision_from_rule record_policy_decision record_event follow dispatch
    get_record wait capability_runner.Ports.wait_free capability_runner.Prelude.insert
    begin_automation_dispatch with_record enter_automation automation_guard ensure_not_stopped
    entered act conclude surface_result record_after_dispatch record_before_dispatch end_dispatch
    control_state_eq capability_runner.Prelude.string_eq capability_runner.Prelude.nat_eq
    semantic_target_ref_eq lookup
click_executed = refl

execute-Authorized_example :
    Authorized bank_ports bank_request bank_run (bank_gateway allow) bank_world
execute-Authorized_example =
    execute-Authorized bank_ports bank_request bank_run (bank_gateway allow) bank_world
      click_executed

applied-Reported_example :
    Answers bank_ports bank_request bank_run
      (execute bank_ports (bank_gateway allow) bank_request bank_run bank_world).0
    × Reported bank_ports bank_request bank_run
        (execute bank_ports (bank_gateway allow) bank_request bank_run bank_world).0
applied-Reported_example =
    applied-Reported bank_ports bank_request bank_run (bank_gateway allow) bank_world (
      execute-Authorized bank_ports bank_request bank_run (bank_gateway allow) bank_world
        click_executed)

approval_not_allow :
    (decide bank_ports (bank_gateway require_approval) bank_request bank_run).decision
    ≡ require_approval
unfolding decide evaluate evaluate_action is_allowed_context decision_from_rule
    capability_runner.Prelude.string_eq semantic_target_ref_eq
approval_not_allow = refl

denied_untouched_example :
    ((execute bank_ports (bank_gateway require_approval) bank_request bank_run bank_world).1.surface
      ≡ bank_world.surface)
    × ((execute bank_ports
          (bank_gateway require_approval)
          bank_request
          bank_run
          bank_world).1.controller
        ≡ bank_world.controller)
    × ((execute bank_ports
          (bank_gateway require_approval)
          bank_request
          bank_run
          bank_world).0.outcome
        ≢ executed)
denied_untouched_example =
    denied_untouched bank_ports bank_request bank_run (bank_gateway require_approval) bank_world
      refl (λ allowed. ground (arith, approval_not_allow))

abbrev operated : SessionRecord
operated = record (fresh_record "s1" "run-1") {
  state = record {
    session_id = "s1";
    control_state = operator_controlled;
    owner = operator_owner "op-1" none;
    control_generation = 2;
  };
}

abbrev operated_world : World bank_ports
operated_world = record bank_world { controller = ("s1", operated) ∷ [] }

abbrev operator_run : GatewayExecutionContext
operator_run = record bank_run { expected_generation = 2 }

abbrev operator_bank : OperatorGateway
operator_bank = record { urls = bank_urls; definition = bank_policy allow }

operator_executed :
    (operator_execute bank_ports operator_bank bank_request operator_run "op-1"
      operated_world).0.outcome
    ≡ executed
unfolding operator_execute find_binding operator_authorize operator_decision evaluate
    evaluate_action is_allowed_context decision_from_rule record_event operator_follow
    operator_dispatch get_record wait capability_runner.Ports.wait_free
    capability_runner.Prelude.insert begin_operator_dispatch with_record enter_operator
    operator_guard ensure_not_stopped owned_by_operator operator_entered operator_act
    operator_conclude surface_result record_result end_dispatch control_state_eq
    capability_runner.Prelude.string_eq capability_runner.Prelude.nat_eq semantic_target_ref_eq
    lookup
operator_executed = refl

operator_execute_authorized_example :
    (b : BrowserTargetBinding) × (find_binding operator_run bank_request ≡ some b)
    × ((operator_decision bank_ports operator_bank bank_request operator_run).decision ≡ allow)
    × ((policy_write bank_ports operator_bank bank_request operator_run "op-1" operated_world).0
        ≡ true)
    × ActedBy bank_ports operator_bank bank_request operator_run "op-1" b (record operated_world {
      evidence =
          (policy_write bank_ports operator_bank bank_request operator_run "op-1" operated_world).1;
    })
operator_execute_authorized_example =
    operator_execute_authorized bank_ports operator_bank bank_request operator_run "op-1"
      operated_world operator_executed

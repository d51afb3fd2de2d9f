-- ===== src/Examples/Interventions.antt =====
-- intervention/intervention_manager.py on a concrete intervention.
use capability_runner.Prelude.{
  ℕ, String, ◌≡◌, ◌≢◌, refl, Bool, true, false, none, some, List, [], ◌∷◌, ok, lookup, arith,
}
use capability_runner.Contracts.Sessions.{
  SessionOwner, operator_owner, automation_controlled, control_state_eq, SessionState,
}
use capability_runner.Contracts.Sessions as Sessions
use capability_runner.Contracts.Intervention.{
  InterventionRecord, resumed, valid, operator_controlled, waiting_for_quiescence,
}
use capability_runner.Session.{
  fresh_record, get_record, get_session, grant_human_control, resume_automation_after_validation,
}
use capability_runner.Session.Transitions.{SessionRecord, automation}
use capability_runner.Intervention.{
  Manager, Validator, complete_resume_validation, grant_operator_control,
}
use capability_runner.Intervention.Control.{
  outcome_of, Revalidated, resumed-Revalidated, IsQuiet, granted-IsQuiet,
}
use capability_runner.Examples.Fixtures.{bank_ports, bank_world}

abbrev asked : InterventionRecord
asked = record {
  intervention_id = "i1";
  run_id = "run-1";
  control_session_id = "s1";
  surface_session = record { surface_session_id = "b1" };
  reason_code = "APPROVAL_REQUIRED";
  summary = "Approval is required.";
  requested_generation = 0;
}

abbrev session_with : Sessions.ControlState → SessionRecord
session_with state = record (fresh_record "s1" "run-1") {
  state = record {
    session_id = "s1";
    control_state = state;
    owner = operator_owner "op-1" none;
    control_generation = 2;
  };
}

abbrev manager_of : SessionRecord → Manager bank_ports
manager_of r = record {
  world = record bank_world { controller = ("s1", r) ∷ [] };
  records = ("i1", asked) ∷ [];
}

abbrev approves : Validator bank_ports
approves r w =
    (some (record { outcome = valid; reason_code = "CONFIRMED"; summary = "Confirmed." }), w)

resumed_here :
    outcome_of bank_ports (
      complete_resume_validation bank_ports approves "i1"
        (manager_of (session_with Sessions.resume_requested)))
    ≡ some resumed
unfolding complete_resume_validation lookup capability_runner.Prelude.string_eq get_session
    control_state_eq resume_automation_after_validation
resumed_here = refl

resumed-Revalidated_example :
    Revalidated bank_ports approves "i1" (manager_of (session_with Sessions.resume_requested))
resumed-Revalidated_example =
    resumed-Revalidated bank_ports approves "i1"
      (manager_of (session_with Sessions.resume_requested)) resumed_here

granted_here :
    outcome_of bank_ports (
      grant_operator_control bank_ports "i1" "op-1" none
        (manager_of (session_with Sessions.pause_requested)))
    ≡ some operator_controlled
unfolding grant_operator_control lookup capability_runner.Prelude.string_eq control_state_eq
    grant_human_control
granted_here = refl

granted-IsQuiet_example :
    IsQuiet bank_ports "i1" "op-1" (manager_of (session_with Sessions.pause_requested))
granted-IsQuiet_example =
    granted-IsQuiet bank_ports "i1" "op-1" none (manager_of (session_with Sessions.pause_requested))
      granted_here

-- While a dispatch holds the lock the grant waits.
abbrev busy : SessionRecord
busy = record (fresh_record "s1" "run-1") { dispatch_lock = some (automation 0) }

busy_waits :
    outcome_of bank_ports (grant_operator_control bank_ports "i1" "op-1" none (manager_of busy))
    ≡ some waiting_for_quiescence
unfolding grant_operator_control lookup capability_runner.Prelude.string_eq control_state_eq
    grant_human_control
busy_waits = refl

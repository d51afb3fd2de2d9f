-- ===== src/Intervention/Events.antt =====
-- intervention/intervention_manager.py: `_record_event`.
use capability_runner.Prelude.{ℕ, String, Option, none, some}
use capability_runner.Contracts.Evidence.{EvidenceEvent, intervention, field, text, number, end}
use capability_runner.Contracts.Intervention.{InterventionRecord}
use capability_runner.Gateway.Results.{text_or_null}

pub data EventName : Type 0 where
  intervention_requested automation_quiesced operator_control_granted : EventName
  operator_control_returned resume_validation_failed resume_validation_succeeded : EventName
  intervention_stopped : EventName

unfoldable pub event_text : EventName → String
event_text intervention_requested = "INTERVENTION_REQUESTED"
event_text automation_quiesced = "AUTOMATION_QUIESCED"
event_text operator_control_granted = "OPERATOR_CONTROL_GRANTED"
event_text operator_control_returned = "OPERATOR_CONTROL_RETURNED"
event_text resume_validation_failed = "RESUME_VALIDATION_FAILED"
event_text resume_validation_succeeded = "RESUME_VALIDATION_SUCCEEDED"
event_text intervention_stopped = "INTERVENTION_STOPPED"

-- `event_name.casefold()`
unfoldable pub event_folded : EventName → String
event_folded intervention_requested = "intervention_requested"
event_folded automation_quiesced = "automation_quiesced"
event_folded operator_control_granted = "operator_control_granted"
event_folded operator_control_returned = "operator_control_returned"
event_folded resume_validation_failed = "resume_validation_failed"
event_folded resume_validation_succeeded = "resume_validation_succeeded"
event_folded intervention_stopped = "intervention_stopped"

-- `event_name.replace("_", " ").title()`
unfoldable pub event_title : EventName → String
event_title intervention_requested = "Intervention Requested"
event_title automation_quiesced = "Automation Quiesced"
event_title operator_control_granted = "Operator Control Granted"
event_title operator_control_returned = "Operator Control Returned"
event_title resume_validation_failed = "Resume Validation Failed"
event_title resume_validation_succeeded = "Resume Validation Succeeded"
event_title intervention_stopped = "Intervention Stopped"

unfoldable pub intervention_event :
    EventName → InterventionRecord → ℕ → Option String → EvidenceEvent
unfolding event_text event_folded event_title
intervention_event name r generation detail = record {
  event_type = intervention;
  component = "intervention-manager";
  run_id = r.run_id;
  session_id = some r.control_session_id;
  step_id = none;
  action_id = none;
  outcome = some (event_folded name);
  reason_code = some (event_text name);
  summary = some (event_title name);
  metadata = field "intervention_id" (text r.intervention_id) (
      field "surface_session_id" (text r.surface_session.surface_session_id)
        (field "control_generation" (number generation) (text_or_null detail end "detail_code")));
}

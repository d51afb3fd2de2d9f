-- ===== src/Contracts/Intervention.antt =====
-- contracts/intervention.py: requests, records and results of same-session human intervention.
use capability_runner.Prelude.{ℕ, String, Option}
use capability_runner.Contracts.Sessions.{SessionState}
use capability_runner.Contracts.Surfaces.{SurfaceSessionRef}

pub record InterventionRequest : Type 0 where
  pub intervention_id : String
  pub run_id : String
  pub control_session_id : String
  pub surface_session : SurfaceSessionRef
  pub reason_code : String
  pub summary : String

pub record InterventionRecord : Type 0 where
  pub intervention_id : String
  pub run_id : String
  pub control_session_id : String
  pub surface_session : SurfaceSessionRef
  pub reason_code : String
  pub summary : String
  pub requested_generation : ℕ

pub data Validity : Type 0 where
  valid invalid : Validity

pub record ResumeValidationResult : Type 0 where
  pub outcome : Validity
  pub reason_code : String
  pub summary : String

pub data InterventionOutcome : Type 0 where
  intervention_requested waiting_for_quiescence operator_controlled : InterventionOutcome
  resume_validation_required resumed validation_failed : InterventionOutcome
  session_stopped stale_generation invalid_state : InterventionOutcome

pub record InterventionResult : Type 0 where
  pub outcome : InterventionOutcome
  pub record_of : Option InterventionRecord
  pub session_state : Option SessionState
  pub reason_code : String
  pub summary : String

-- ===== src/Contracts/Sessions.antt =====
-- contracts/sessions.py: who controls a live session, and at what generation.
use capability_runner.Prelude.{ℕ, String, Option, Eq}

pub data SessionOwner : Type 0 where
  automation_owner : String → SessionOwner
  operator_owner : String → Option String → SessionOwner

pub data ControlState : Type 0 where
  automation_controlled pause_requested operator_controlled resume_requested terminal : ControlState

pub ControlState-discrete : Discrete ControlState
ControlState-discrete = hlevel

instance unfoldable pub control_state_eq : Eq ControlState
unfolding ControlState-discrete
control_state_eq = record { dec = ControlState-discrete }

pub record SessionState : Type 0 where
  pub session_id : String
  pub control_state : ControlState
  pub owner : SessionOwner
  pub control_generation : ℕ

pub data SessionControlErrorCode : Type 0 where
  session_not_found invalid_state_transition not_automation_owner not_operator_owner :
      SessionControlErrorCode
  stale_generation dispatch_not_allowed action_in_flight session_stopped : SessionControlErrorCode

pub record SessionControllerError : Type 0 where
  pub code : SessionControlErrorCode
  pub session_id : Option String
  pub summary : String

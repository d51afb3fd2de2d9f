-- ===== src/Intervention.antt =====
-- intervention/intervention_manager.py: `InterventionManager`, which takes a session through pause,
-- grant, return and resume by calls of the session controller, and records each step.
--
-- An exception that a method does not catch is a `ManagerError`, beside the state that it leaves: an
-- unknown session, evidence that could not be written, or a resume validator that raised.
pub mod Events
pub mod Control
use capability_runner.Prelude.{
  ℕ, String, Bool, true, false, Option, none, some, Dict, lookup, insert, is_some, Result, ok, err,
  ◌==◌, string_eq, if◌then◌else◌,
}
use capability_runner.Contracts.Sessions.{
  SessionOwner, automation_owner, operator_owner, ControlState, terminal, resume_requested,
  control_state_eq, SessionState, SessionControlErrorCode, SessionControllerError,
}
use capability_runner.Contracts.Sessions
use capability_runner.Contracts.Evidence.{default_redaction}
use capability_runner.Contracts.Intervention.{
  InterventionRequest, InterventionRecord, ResumeValidationResult, valid, invalid,
  InterventionOutcome, intervention_requested, waiting_for_quiescence, operator_controlled,
  resume_validation_required, resumed, validation_failed, session_stopped, stale_generation,
  invalid_state, InterventionResult,
}
use capability_runner.Session
use capability_runner.Session.{
  get_session, request_pause, grant_human_control, return_control_for_resume_check,
  resume_automation_after_validation, stop_session,
}
use capability_runner.Session.Transitions.{owned_by_operator}
use capability_runner.Ports.{Ports, World, record_event}
use capability_runner.Gateway.{code_text}
use Events
use Events.{EventName, intervention_event}

pub data ManagerError : Type 0 where
  session_error : SessionControllerError → ManagerError
  evidence_failed : ManagerError
  validator_failed : ManagerError

pub record Manager (P : Ports) : Type 0 where
  pub world : World P
  pub records : Dict InterventionRecord

-- `_result`
abbrev pub answer :
    InterventionOutcome
    → String
    → String
    → Option InterventionRecord
    → Option SessionState
    → InterventionResult
answer outcome reason_code summary r state = record {
  outcome = outcome;
  record_of = r;
  session_state = state;
  reason_code = reason_code;
  summary = summary;
}

abbrev pub unknown_intervention : InterventionResult
unknown_intervention =
    answer invalid_state "INVALID_STATE_TRANSITION" "Intervention does not exist." none none

-- The outcome that `_session_error` gives a session error.
abbrev pub error_outcome : SessionControlErrorCode → InterventionOutcome
error_outcome Sessions.session_stopped = session_stopped
error_outcome Sessions.stale_generation = stale_generation
error_outcome _ = invalid_state

-- `isinstance(owner, AutomationOwner) and owner.run_id == run_id`
unfoldable pub owned_by_run : String → SessionOwner → Bool
owned_by_run run_id (automation_owner run) = run == run_id
owned_by_run run_id (operator_owner id name) = false

abbrev pub record_for : InterventionRequest → ℕ → InterventionRecord
record_for request generation = record {
  intervention_id = request.intervention_id;
  run_id = request.run_id;
  control_session_id = request.control_session_id;
  surface_session = request.surface_session;
  reason_code = request.reason_code;
  summary = request.summary;
  requested_generation = generation;
}

module _ (P : Ports) where
  abbrev pub Answer : Type 0
  Answer = Result ManagerError InterventionResult × Manager P

  -- `resume_validator.validate(record)`; other tasks may run meanwhile.
  abbrev pub Validator : Type 0
  Validator = InterventionRecord → World P → Option ResumeValidationResult × World P

  abbrev pub returns : InterventionResult → Manager P → Answer
  returns r m = (ok r, m)

  abbrev pub with_controller : Session.Controller → Manager P → Manager P
  with_controller c m = record m { world = record (m.world) { controller = c } }

  -- `_record_event`, and what follows if it returns
  unfoldable pub emit :
      EventName → InterventionRecord → ℕ → Option String → (Manager P → Answer) → Manager P → Answer
  unfolding record_event
  emit name r generation detail rest m =
      let (done, w) =
        record_event P (intervention_event name r generation detail) (some default_redaction)
          m.world in
      let m' = record m { world = w } in if done then rest m' else (err evidence_failed, m')

  -- `_session_error`
  unfoldable pub answer_error :
      SessionControllerError → Option InterventionRecord → Manager P → Answer
  unfolding emit code_text
  answer_error e none m =
      returns (answer (error_outcome e.code) (code_text e.code) e.summary none none) m
  answer_error e (some r) m =
      let result = answer (error_outcome e.code) (code_text e.code) e.summary (some r) none in
      elim e.code [
        | Sessions.session_stopped ↦
            emit Events.intervention_stopped r 0 (some (code_text e.code)) (returns result) m
        | other ↦ returns result m
      ]

  unfoldable pub waiting_or_error :
      SessionControllerError → InterventionRecord → Option SessionState → Manager P → Answer
  unfolding answer_error
  waiting_or_error e r state m = elim e.code [
    | Sessions.action_in_flight ↦
        returns (answer waiting_for_quiescence (code_text e.code) e.summary (some r) state) m
    | other ↦ answer_error e (some r) m
  ]

  unfoldable pub paused : InterventionRequest → Session.Outcome → Manager P → Answer
  unfolding emit answer_error
  paused request (err e, c) m = answer_error e none m
  paused request (ok state, c) m =
      let r = record_for request state.control_generation in
      emit Events.intervention_requested r state.control_generation none
        (returns (
          answer intervention_requested "INTERVENTION_REQUESTED" "Automation pause requested."
            (some r) (some state)))
        (record m {
          world = record (m.world) { controller = c };
          records = insert r.intervention_id r m.records;
        })

  unfoldable pub request_intervention : InterventionRequest → Manager P → Answer
  unfolding paused owned_by_run
  request_intervention request m =
      elim (get_session request.control_session_id m.world.controller) [
        | err e ↦ (err (session_error e), m)
        | ok current ↦
            if owned_by_run request.run_id current.owner
            then if is_some (lookup request.intervention_id m.records)
              then returns
                  (answer invalid_state "INVALID_STATE_TRANSITION"
                    "Intervention identifier already exists." none none)
                  m
              else paused request (request_pause request.control_session_id m.world.controller) m
            else returns
                (answer invalid_state "INVALID_STATE_TRANSITION"
                  "Intervention requester does not own automation control." none none)
                m
      ]

  unfoldable pub granted : InterventionRecord → Session.Outcome → Manager P → Answer
  unfolding emit waiting_or_error
  granted r (err e, c) m = waiting_or_error e r none m
  granted r (ok state, c) m =
      emit Events.automation_quiesced r state.control_generation none
        (emit Events.operator_control_granted r state.control_generation none (
          returns (
            answer operator_controlled "OPERATOR_CONTROL_GRANTED" "Operator owns the live session."
              (some r) (some state))))
        (with_controller c m)

  unfoldable pub grant_operator_control : String → String → Option String → Manager P → Answer
  unfolding granted
  grant_operator_control intervention_id operator_id display_name m =
      elim (lookup intervention_id m.records) [
        | none ↦ returns unknown_intervention m
        | some r ↦
            granted r
              (grant_human_control r.control_session_id operator_id display_name m.world.controller)
              m
      ]

  unfoldable pub returned : InterventionRecord → SessionState → Session.Outcome → Manager P → Answer
  unfolding emit waiting_or_error
  returned r current (err e, c) m = waiting_or_error e r (some current) m
  returned r current (ok state, c) m =
      emit Events.operator_control_returned r state.control_generation none
        (returns (
          answer resume_validation_required "RESUME_VALIDATION_REQUIRED"
            "Fresh state validation is required before automation resumes." (some r) (some state)))
        (with_controller c m)

  -- What `return_operator_control` and `complete_resume_validation` do with a stopped session.
  unfoldable pub found_stopped : InterventionRecord → SessionState → Manager P → Answer
  unfolding emit
  found_stopped r current m =
      emit Events.intervention_stopped r current.control_generation none
        (returns (
          answer session_stopped "SESSION_STOPPED" "Intervention session is terminal." (some r)
            (some current)))
        m

  unfoldable pub return_operator_control : String → String → Manager P → Answer
  unfolding returned found_stopped
  return_operator_control intervention_id operator_id m = elim (lookup intervention_id m.records) [
    | none ↦ returns unknown_intervention m
    | some r ↦ elim (get_session r.control_session_id m.world.controller) [
      | err e ↦ (err (session_error e), m)
      | ok current ↦
          if current.control_state == terminal
          then found_stopped r current m
          else if owned_by_operator operator_id current.owner
          then returned r current
              (return_control_for_resume_check r.control_session_id m.world.controller) m
          else returns
              (answer invalid_state "NOT_OPERATOR_OWNER"
                "Only the current operator may return control." (some r) (some current))
              m
    ]
  ]

  unfoldable pub resumed_by : InterventionRecord → Session.Outcome → Manager P → Answer
  unfolding emit answer_error
  resumed_by r (err e, c) m = answer_error e (some r) m
  resumed_by r (ok state, c) m =
      emit Events.resume_validation_succeeded r state.control_generation none
        (returns (
          answer resumed "RESUME_VALIDATION_SUCCEEDED"
            "Automation ownership restored after fresh validation." (some r) (some state)))
        (with_controller c m)

  -- What the validator's answer leads to.
  unfoldable pub validated :
      InterventionRecord → SessionState → Option ResumeValidationResult → Manager P → Answer
  unfolding resumed_by emit
  validated r current none m = (err validator_failed, m)
  validated r current (some v) m = elim v.outcome [
    | invalid ↦
        emit Events.resume_validation_failed r current.control_generation (some v.reason_code)
          (returns (answer validation_failed v.reason_code v.summary (some r) (some current))) m
    | valid ↦
        resumed_by r (resume_automation_after_validation r.control_session_id m.world.controller) m
  ]

  unfoldable pub complete_resume_validation : Validator → String → Manager P → Answer
  unfolding validated found_stopped
  complete_resume_validation validate intervention_id m = elim (lookup intervention_id m.records) [
    | none ↦ returns unknown_intervention m
    | some r ↦ elim (get_session r.control_session_id m.world.controller) [
      | err e ↦ (err (session_error e), m)
      | ok current ↦
          if current.control_state == terminal
          then found_stopped r current m
          else if current.control_state == resume_requested
          then (let (v, w) = validate r m.world in validated r current v (record m { world = w }))
          else returns
              (answer invalid_state "INVALID_STATE_TRANSITION"
                "Resume validation is not currently allowed." (some r) (some current))
              m
    ]
  ]

  unfoldable pub stopped : InterventionRecord → Session.Outcome → Manager P → Answer
  unfolding found_stopped
  stopped r (err e, c) m = (err (session_error e), m)
  stopped r (ok state, c) m = found_stopped r state (with_controller c m)

  unfoldable pub stop_intervention : String → Manager P → Answer
  unfolding stopped
  stop_intervention intervention_id m = elim (lookup intervention_id m.records) [
    | none ↦ returns unknown_intervention m
    | some r ↦ stopped r (stop_session r.control_session_id m.world.controller) m
  ]

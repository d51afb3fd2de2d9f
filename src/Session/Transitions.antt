-- ===== src/Session/Transitions.antt =====
-- interaction/session_controller.py: what each method does to the record of its session.
use capability_runner.Prelude.{
  ℕ, ◌+◌, String, Bool, true, false, Option, none, some, Result, ok, err, ◌>>◌, raise_if, not, ◌==◌,
  string_eq, nat_eq, is_some, if◌then◌else◌,
}
use capability_runner.Contracts.Sessions.{
  SessionOwner, automation_owner, operator_owner, automation_controlled, pause_requested,
  operator_controlled, resume_requested, terminal, control_state_eq, SessionState,
  SessionControlErrorCode, invalid_state_transition, not_automation_owner, not_operator_owner,
  stale_generation, dispatch_not_allowed, action_in_flight, session_stopped, SessionControllerError,
}

-- Who holds the dispatch lock, and the generation that it was let in at.
pub data Dispatch : Type 0 where
  automation : ℕ → Dispatch
  operator : ℕ → String → Dispatch

pub record SessionRecord : Type 0 where
  pub state : SessionState
  pub automation_run_id : String
  pub dispatch_lock : Option Dispatch

-- What a method does to its session's record, if it does not raise.
abbrev pub Transition : Type 0
Transition = SessionRecord → Result SessionControllerError SessionRecord

abbrev pub error : SessionControlErrorCode → String → String → SessionControllerError
error code session_id summary = record {
  code = code;
  session_id = some session_id;
  summary = summary;
}

abbrev pub invalid_transition : String → String → SessionControllerError
invalid_transition session_id summary = error invalid_state_transition session_id summary

unfoldable pub ensure_not_stopped : SessionState → Result SessionControllerError Unit
ensure_not_stopped s =
    raise_if (s.control_state == terminal)
      (error session_stopped s.session_id "Session is stopped.")

-- `record.dispatch_lock.locked()`
abbrev pub locked : SessionRecord → Bool
locked r = is_some r.dispatch_lock

-- `isinstance(owner, OperatorOwner) and owner.operator_id == operator_id`
unfoldable pub owned_by_operator : String → SessionOwner → Bool
owned_by_operator operator_id (automation_owner run_id) = false
owned_by_operator operator_id (operator_owner id name) = id == operator_id

abbrev pub is_automation : SessionOwner → Bool
is_automation (automation_owner run_id) = true
is_automation (operator_owner id name) = false

unfoldable pub request_pause_in : String → Transition
unfolding ensure_not_stopped
request_pause_in session_id r = do
  ensure_not_stopped r.state
  if r.state.control_state == pause_requested then ok r else do
    raise_if (not (r.state.control_state == automation_controlled))
        (invalid_transition session_id "Pause can only be requested from automation.")
    ok (record r {
      state = record (r.state) {
        control_state = pause_requested;
        control_generation = r.state.control_generation + 1;
      };
    })

unfoldable pub grant_human_control_in : String → String → Option String → Transition
unfolding ensure_not_stopped owned_by_operator
grant_human_control_in session_id operator_id display_name r = do
  ensure_not_stopped r.state
  raise_if (locked r) (error action_in_flight session_id "Automated dispatch is still in flight.")
  if r.state.control_state == operator_controlled
      then (if owned_by_operator operator_id r.state.owner
          then ok r
          else err
              (invalid_transition session_id "Human control is already owned by another operator."))
      else do
        raise_if (not (r.state.control_state == pause_requested))
            (invalid_transition session_id "Human control can only be granted from pause.")
        ok (record r {
          state = record (r.state) {
            control_state = operator_controlled;
            owner = operator_owner operator_id display_name;
            control_generation = r.state.control_generation + 1;
          };
        })

unfoldable pub return_control_in : String → Transition
unfolding ensure_not_stopped
return_control_in session_id r = do
  ensure_not_stopped r.state
  raise_if (locked r) (error action_in_flight session_id "Operator dispatch is still in flight.")
  if r.state.control_state == resume_requested then ok r else do
    raise_if (not (r.state.control_state == operator_controlled))
        (invalid_transition session_id "Resume check can only follow human control.")
    ok (record r { state = record (r.state) { control_state = resume_requested } })

unfoldable pub resume_automation_in : String → Transition
unfolding ensure_not_stopped
resume_automation_in session_id r = do
  ensure_not_stopped r.state
  if r.state.control_state == automation_controlled
      then (if is_automation r.state.owner
          then ok r
          else err (invalid_transition session_id "Automation owner is inconsistent."))
      else do
        raise_if (not (r.state.control_state == resume_requested))
            (invalid_transition session_id "Automation can only resume after validation.")
        raise_if (is_automation r.state.owner)
            (invalid_transition session_id "Resume check lost operator ownership.")
        ok (record r {
          state = record (r.state) {
            control_state = automation_controlled;
            owner = automation_owner r.automation_run_id;
            control_generation = r.state.control_generation + 1;
          };
        })

-- `stop_session` raises nothing but for an unknown session.
unfoldable pub stop_in : Transition
stop_in r =
    if r.state.control_state == terminal
    then ok r
    else ok (record r {
      state = record (r.state) {
        control_state = terminal;
        control_generation = r.state.control_generation + 1;
      };
    })

-- What `automation_dispatch` checks under its locks before it lets the caller go on.
unfoldable pub automation_guard : String → ℕ → SessionState → Result SessionControllerError Unit
unfolding ensure_not_stopped
automation_guard session_id expected_generation s = do
  ensure_not_stopped s
  raise_if (not (s.control_generation == expected_generation))
      (error stale_generation session_id "Control generation is stale.")
  raise_if (not (s.control_state == automation_controlled)) (
      error dispatch_not_allowed session_id
        "Automated dispatch is not allowed in the current control state.")
  raise_if (not (is_automation s.owner))
      (error not_automation_owner session_id "Session is not automation-owned.")
  ok tt

-- The same for `operator_dispatch`.
unfoldable pub operator_guard :
    String → ℕ → String → SessionState → Result SessionControllerError Unit
unfolding ensure_not_stopped owned_by_operator
operator_guard session_id expected_generation operator_id s = do
  ensure_not_stopped s
  raise_if (not (s.control_generation == expected_generation))
      (error stale_generation session_id "Control generation is stale.")
  raise_if (not (s.control_state == operator_controlled)) (
      error dispatch_not_allowed session_id
        "Operator dispatch is not allowed in the current control state.")
  raise_if (not (owned_by_operator operator_id s.owner))
      (error not_operator_owner session_id "Session is not owned by this operator.")
  ok tt

-- A dispatch enters when the lock is free, holds it if its guard passes, and releases it at once
-- if the guard raises.
unfoldable pub enter_automation : String → ℕ → Transition
unfolding automation_guard
enter_automation session_id expected_generation r = do
  automation_guard session_id expected_generation r.state
  ok (record r { dispatch_lock = some (automation expected_generation) })

unfoldable pub enter_operator : String → ℕ → String → Transition
unfolding operator_guard
enter_operator session_id expected_generation operator_id r = do
  operator_guard session_id expected_generation operator_id r.state
  ok (record r { dispatch_lock = some (operator expected_generation operator_id) })

-- Leaving the `async with` block, by its end or by an exception.
unfoldable pub release : SessionRecord → SessionRecord
release r = record r { dispatch_lock = none }

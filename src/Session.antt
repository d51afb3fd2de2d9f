-- ===== src/Session.antt =====
-- interaction/session_controller.py: the control state of live sessions. A method that raises leaves
-- the controller as it was; a method that returns hands back the session's state.
--
-- asyncio switches tasks only at an `await` that has to wait. A method's body holds `state_lock`
-- without awaiting anything, so each is one atomic step, and `state_lock` is not part of the model.
-- `dispatch_lock` is held across the surface call of a dispatch, and other tasks run meanwhile: a
-- dispatch is two steps, entering the `async with` block and leaving it. The lock also names the
-- dispatch that holds it, which the code does not read.
pub mod Transitions
pub mod Steps
pub mod Exclusion
pub mod Staleness
pub mod Handoff
pub mod Traces
use capability_runner.Prelude.{
  ℕ, String, Bool, true, false, Option, none, some, Dict, lookup, insert, is_some, not, Result, ok,
  err, if◌then◌else◌,
}
use capability_runner.Contracts.Sessions.{
  SessionState, SessionControllerError, automation_owner, automation_controlled,
  invalid_state_transition, session_not_found,
}
use Transitions.{
  locked, SessionRecord, Transition, error, request_pause_in, grant_human_control_in,
  return_control_in, resume_automation_in, stop_in, enter_automation, enter_operator, release,
}

abbrev pub Controller : Type 0
Controller = Dict SessionRecord

-- A method's result, and the controller after it.
abbrev pub Outcome : Type 0
Outcome = Result SessionControllerError SessionState × Controller

abbrev pub fresh_record : String → String → SessionRecord
fresh_record session_id run_id = record {
  state = record {
    session_id = session_id;
    control_state = automation_controlled;
    owner = automation_owner run_id;
    control_generation = 0;
  };
  automation_run_id = run_id;
  dispatch_lock = none;
}

unfoldable pub open_session : String → String → Controller → Outcome
open_session session_id run_id c =
    if is_some (lookup session_id c)
    then (err (error invalid_state_transition session_id "Session already exists."), c)
    else (
      ok (fresh_record session_id run_id).state,
      insert session_id (fresh_record session_id run_id) c,
    )

-- `_get_record`
unfoldable pub get_record : String → Controller → Result SessionControllerError SessionRecord
get_record session_id c = elim (lookup session_id c) [
  | none ↦ err (error session_not_found session_id "Session does not exist.")
  | some r ↦ ok r
]

unfoldable pub get_session : String → Controller → Result SessionControllerError SessionState
unfolding get_record
get_session session_id c = elim (get_record session_id c) [ err e ↦ err e | ok r ↦ ok r.state ]

-- A method's body over its session's record.
unfoldable pub with_record : String → Transition → Controller → Outcome
unfolding get_record
with_record session_id change c = elim (get_record session_id c) [
  | err e ↦ (err e, c)
  | ok r ↦ elim (change r) [ err e ↦ (err e, c) | ok r' ↦ (ok r'.state, insert session_id r' c) ]
]

unfoldable pub request_pause : String → Controller → Outcome
unfolding with_record request_pause_in
request_pause session_id = with_record session_id (request_pause_in session_id)

unfoldable pub grant_human_control : String → String → Option String → Controller → Outcome
unfolding with_record grant_human_control_in
grant_human_control session_id operator_id display_name =
    with_record session_id (grant_human_control_in session_id operator_id display_name)

unfoldable pub return_control_for_resume_check : String → Controller → Outcome
unfolding with_record return_control_in
return_control_for_resume_check session_id = with_record session_id (return_control_in session_id)

unfoldable pub resume_automation_after_validation : String → Controller → Outcome
unfolding with_record resume_automation_in
resume_automation_after_validation session_id =
    with_record session_id (resume_automation_in session_id)

unfoldable pub stop_session : String → Controller → Outcome
unfolding with_record stop_in
stop_session session_id = with_record session_id stop_in

-- `automation_dispatch` up to its `yield`, from the moment at which the dispatch lock is free.
unfoldable pub begin_automation_dispatch : String → ℕ → Controller → Outcome
unfolding with_record enter_automation
begin_automation_dispatch session_id expected_generation =
    with_record session_id (enter_automation session_id expected_generation)

unfoldable pub begin_operator_dispatch : String → ℕ → String → Controller → Outcome
unfolding with_record enter_operator
begin_operator_dispatch session_id expected_generation operator_id =
    with_record session_id (enter_operator session_id expected_generation operator_id)

-- The end of either `async with` block.
-- Whether the dispatch lock of a session can be taken: nobody holds it.
unfoldable pub is_free : String → Controller → Bool
is_free session_id c = elim (lookup session_id c) [ none ↦ true | some r ↦ not (locked r) ]

unfoldable pub end_dispatch : String → Controller → Controller
unfolding release
end_dispatch session_id c = elim (lookup session_id c) [
  | none ↦ c
  | some r ↦ insert session_id (release r) c
]

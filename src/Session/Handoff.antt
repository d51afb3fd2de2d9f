-- ===== src/Session/Handoff.antt =====
-- The whole handoff: pause, grant, return, resume.
use capability_runner.Prelude.{◌+◌, String, ◌≡◌, none, Option, Result, ok, ◌>>=◌, arith}
use capability_runner.Contracts.Sessions.{
  automation_owner, automation_controlled, SessionControllerError,
}
use capability_runner.Session.Transitions.{
  SessionRecord, request_pause_in, grant_human_control_in, return_control_in, resume_automation_in,
}

-- What an intervention does to its session when nothing goes wrong.
abbrev pub handoff :
    String → String → Option String → SessionRecord → Result SessionControllerError SessionRecord
handoff session_id operator_id display_name r = do
  paused ← request_pause_in session_id r
  granted ← grant_human_control_in session_id operator_id display_name paused
  returned ← return_control_in session_id granted
  resume_automation_in session_id returned

-- From automation control with no dispatch in flight, a pause, a grant to any operator, a return and
-- a validated resume all succeed, and the session is then as it was, owned by its own run, but for
-- its generation, which has grown by three.
pub handoff_restores :
    (session_id operator_id : String) (display_name : Option String) (r : SessionRecord)
    → r.state.control_state ≡ automation_controlled
    → r.state.owner ≡ automation_owner r.automation_run_id
    → r.dispatch_lock ≡ none
    → handoff session_id operator_id display_name r
      ≡ ok (record r {
        state = record (r.state) { control_generation = r.state.control_generation + 3 };
      })
unfolding request_pause_in grant_human_control_in return_control_in resume_automation_in
handoff_restores session_id operator_id display_name r controlled owned free = ground arith

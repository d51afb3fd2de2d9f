-- ===== src/Session/Staleness.antt =====
-- Generations only grow, and a change of hands makes all older ones useless for ever.
use capability_runner.Prelude.{
  ℕ, ◌≤◌, ◌<◌, String, ◌≡◌, ◌⊎◌, Option, none, some, Result, ok, err, arith,
}
use capability_runner.Contracts.Sessions.{
  automation_controlled, terminal, SessionControlErrorCode, stale_generation, session_stopped,
  SessionControllerError,
}
use capability_runner.Session.Transitions.{
  SessionRecord, request_pause_in, grant_human_control_in, return_control_in, resume_automation_in,
  stop_in, enter_automation, enter_operator, release,
}
use capability_runner.Session.Steps.{
  Step, pause, grant, return, resume, stop, enter_auto, enter_op, leave, Reach, here, next,
}

-- The way that one call may move a session: it stays with its owner and generation, or the
-- generation grows by one, or the operator hands over for the resume check.
pub record Moves (r s : SessionRecord) : Type 0 where
  pub grows : r.state.control_generation ≤ s.state.control_generation
  pub owner_fixed :
      r.state.control_generation ≡ s.state.control_generation → r.state.owner ≡ s.state.owner
  pub stays_stopped :
      r.state.control_state ≡ terminal
      → (s.state.control_state ≡ terminal)
        × (s.state.control_generation ≡ r.state.control_generation)

Step-Moves : {session_id : String} {r s : SessionRecord} → Step session_id r s → Moves r s
unfolding request_pause_in grant_human_control_in return_control_in resume_automation_in stop_in
    enter_automation enter_operator release
Step-Moves (pause e) = ground arith
Step-Moves (grant id name e) = ground arith
Step-Moves (return e) = ground arith
Step-Moves (resume e) = ground arith
Step-Moves (stop e) = ground arith
Step-Moves (enter_auto g free e) = ground arith
Step-Moves (enter_op g id free e) = ground arith
Step-Moves (leave d held e) = ground arith

Moves-trans : {r s t : SessionRecord} → Moves r s → Moves s t → Moves r t
Moves-trans a b = ground arith

-- However tasks use a session, its generation never falls, whoever owned it at a generation owns it
-- as long as the generation is the same, and a stopped session stays stopped at its generation.
pub Reach-Moves : {session_id : String} {r s : SessionRecord} → Reach session_id r s → Moves r s
Reach-Moves here = ground arith
Reach-Moves (next reached step) = Moves-trans (Reach-Moves reached) (Step-Moves step)

abbrev pub error_code :
    {A : Type 0} → Result SessionControllerError A → Option SessionControlErrorCode
error_code (ok a) = none
error_code (err e) = some e.code

-- A dispatch is refused as stale, or because the session is stopped.
abbrev pub Refused : Result SessionControllerError SessionRecord → Type 0
Refused result =
    (error_code result ≡ some stale_generation) ⊎ (error_code result ≡ some session_stopped)

stale-Refused :
    (session_id : String) (g : ℕ) (id : String) (s : SessionRecord)
    → g < s.state.control_generation
    → Refused (enter_automation session_id g s) × Refused (enter_operator session_id g id s)
unfolding enter_automation enter_operator
stale-Refused session_id g id s h = ground arith

-- Once a pause of an automation-controlled session is granted at generation `g`, then at every later
-- moment a dispatch that presents `g`, automated or an operator's, is refused: as stale, or because
-- the session was stopped.
pub pause_revokes :
    {session_id : String} (r : SessionRecord) {p s : SessionRecord} (id : String)
    → r.state.control_state ≡ automation_controlled
    → request_pause_in session_id r ≡ ok p
    → Reach session_id p s
    → Refused (enter_automation session_id r.state.control_generation s)
      × Refused (enter_operator session_id r.state.control_generation id s)
unfolding request_pause_in
pause_revokes {session_id} r {p} {s} id controlled paused reached =
    stale-Refused session_id r.state.control_generation id s
      (ground (arith, (Reach-Moves reached).grows))

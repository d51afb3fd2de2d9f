-- ===== src/Session/Steps.antt =====
-- The life of one session as a relation: every call that a task can make on it, in any order. A
-- dispatch enters only when the dispatch lock is free, and leaves only while it holds the lock.
use capability_runner.Prelude.{ℕ, String, Option, none, some, ◌≡◌, ok}
use capability_runner.Session.Transitions.{
  SessionRecord, Dispatch, request_pause_in, grant_human_control_in, return_control_in,
  resume_automation_in, stop_in, enter_automation, enter_operator, release,
}

pub data Step (session_id : String) (r s : SessionRecord) : Type 0 where
  pause : request_pause_in session_id r ≡ ok s → Step session_id r s
  grant :
      (operator_id : String) (display_name : Option String)
      → grant_human_control_in session_id operator_id display_name r ≡ ok s
      → Step session_id r s
  return : return_control_in session_id r ≡ ok s → Step session_id r s
  resume : resume_automation_in session_id r ≡ ok s → Step session_id r s
  stop : stop_in r ≡ ok s → Step session_id r s
  enter_auto :
      (generation : ℕ)
      → r.dispatch_lock ≡ none
      → enter_automation session_id generation r ≡ ok s
      → Step session_id r s
  enter_op :
      (generation : ℕ) (operator_id : String)
      → r.dispatch_lock ≡ none
      → enter_operator session_id generation operator_id r ≡ ok s
      → Step session_id r s
  leave : (d : Dispatch) → r.dispatch_lock ≡ some d → s ≡ release r → Step session_id r s

pub data Reach (session_id : String) (r : SessionRecord) : SessionRecord → Type 0 where
  here : Reach session_id r r
  next : {s t : SessionRecord} → Reach session_id r s → Step session_id s t → Reach session_id r t

-- ===== src/Session/Traces.antt =====
-- Whole controllers under any sequence of calls on any sessions.
use capability_runner.Prelude.{
  ℕ, String, ◌≡◌, refl, true, Option, none, some, List, [], ◌∷◌, Result, ok, err, lookup, insert,
  insert-All, lookup-nil, subst, sym, ◌∙◌, ◌≢◌, string_eq, if◌then◌else◌, is_some, arith,
}
use mathlib.Core.Option.{none-ne-some}
use capability_runner.Contracts.Sessions.{
  automation_controlled, pause_requested, operator_controlled, resume_requested, SessionState,
  SessionControllerError,
}
use capability_runner.Session.{
  Controller, Outcome, fresh_record, open_session, with_record, request_pause, grant_human_control,
  return_control_for_resume_check, resume_automation_after_validation, stop_session,
  begin_automation_dispatch, begin_operator_dispatch, end_dispatch,
}
use capability_runner.Session.Transitions.{
  SessionRecord, Transition, Dispatch, request_pause_in, grant_human_control_in, return_control_in,
  resume_automation_in, stop_in, enter_automation, enter_operator, release, locked, automation,
  operator, owned_by_operator,
}
use capability_runner.Session.Steps.{
  Step, pause, grant, return, resume, stop, enter_auto, enter_op, leave, Reach, here, next,
}
use capability_runner.Session.Exclusion.{automation_in_flight, operator_in_flight}

-- A call on the controller, by any task.
pub data Call : Type 0 where
  open_call : String → String → Call
  pause_call : String → Call
  grant_call : String → String → Option String → Call
  return_call : String → Call
  resume_call : String → Call
  stop_call : String → Call
  enter_automation_call : String → ℕ → Call
  enter_operator_call : String → ℕ → String → Call
  leave_call : String → Call

-- A task that asks for a dispatch while the lock is held waits: its call does nothing yet.
abbrev when_free : String → (Controller → Outcome) → Controller → Controller
when_free session_id enter c = elim (lookup session_id c) [
  | none ↦ (enter c).1
  | some r ↦ if locked r then c else (enter c).1
]

unfoldable pub perform : Call → Controller → Controller
perform (open_call session_id run_id) c = (open_session session_id run_id c).1
perform (pause_call session_id) c = (request_pause session_id c).1
perform (grant_call session_id operator_id name) c =
    (grant_human_control session_id operator_id name c).1
perform (return_call session_id) c = (return_control_for_resume_check session_id c).1
perform (resume_call session_id) c = (resume_automation_after_validation session_id c).1
perform (stop_call session_id) c = (stop_session session_id c).1
perform (enter_automation_call session_id g) c =
    when_free session_id (begin_automation_dispatch session_id g) c
perform (enter_operator_call session_id g operator_id) c =
    when_free session_id (begin_operator_dispatch session_id g operator_id) c
perform (leave_call session_id) c = end_dispatch session_id c

unfoldable pub perform_all : List Call → Controller → Controller
perform_all [] c = c
perform_all (call ∷ calls) c = perform_all calls (perform call c)

-- A session of this key that calls on it have reached from the moment when it was opened.
pub record IsReached (key : String) (r : SessionRecord) : Type 0 where
  pub run_id : String
  pub reached : Reach key (fresh_record key run_id) r

abbrev pub AllReached : Controller → Type 0
AllReached c = (key : String) (r : SessionRecord) → lookup key c ≡ some r → IsReached key r

IsReached-Step :
    (key : String) {r s : SessionRecord} → IsReached key r → Step key r s → IsReached key s
IsReached-Step key h step = record { run_id = h.run_id; reached = next h.reached step }

-- The steps that a change may make.
abbrev Steps : String → Transition → Type 0
Steps key change = (r s : SessionRecord) → change r ≡ ok s → Step key r s

module _ (key : String) (change : Transition) (c : Controller) (all : AllReached c) where
  changed-AllReached :
      (r : SessionRecord)
      → lookup key c ≡ some r
      → ((s : SessionRecord) → change r ≡ ok s → Step key r s)
      → (result : Result SessionControllerError SessionRecord) → change r ≡ result
      → with_record key change c
        ≡ elim result [ err e ↦ (err e, c) | ok r' ↦ (ok r'.state, insert key r' c) ]
      → AllReached (with_record key change c).1
  changed-AllReached r found steps (err e) same out = rw out all
  changed-AllReached r found steps (ok s) same out =
      rw out
        (insert-All IsReached key s c all (IsReached-Step key (all key r found) (steps s same)))

  with_record-AllReached :
      ((r s : SessionRecord) → lookup key c ≡ some r → change r ≡ ok s → Step key r s)
      → AllReached (with_record key change c).1
  unfolding with_record
  with_record-AllReached steps = go (lookup key c) refl
    where
      go :
          (found : Option SessionRecord)
          → lookup key c ≡ found
          → AllReached (with_record key change c).1
      go none e = rw (e, with_record) all
      go (some r) e = changed-AllReached r e (λ s. steps r s e) (change r) refl (ground arith)

module _ (key : String) (c : Controller) (all : AllReached c) where
  open_session-AllReached : (run_id : String) → AllReached (open_session key run_id c).1
  unfolding open_session
  open_session-AllReached run_id = go (lookup key c) refl
    where
      go :
          (found : Option SessionRecord)
          → lookup key c ≡ found
          → AllReached (open_session key run_id c).1
      go none e =
          rw (e, open_session)
            (insert-All IsReached key (fresh_record key run_id) c all
              (record { run_id = run_id; reached = here }))
      go (some r) e = rw (e, open_session) all

  end_dispatch-AllReached : AllReached (end_dispatch key c)
  unfolding end_dispatch
  end_dispatch-AllReached = go (lookup key c) refl
    where
      left :
          (r : SessionRecord) (lock : Option Dispatch)
          → lookup key c ≡ some r
          → r.dispatch_lock ≡ lock
          → IsReached key (release r)
      left r none e free =
          let same : r ≡ release r = ground arith in subst (IsReached key) same (all key r e)
      left r (some d) e held = IsReached-Step key (all key r e) (leave d held refl)

      go : (found : Option SessionRecord) → lookup key c ≡ found → AllReached (end_dispatch key c)
      go none e = rw (e, end_dispatch) all
      go (some r) e =
          rw (e, end_dispatch)
            (insert-All IsReached key (release r) c all (left r r.dispatch_lock e refl))

  when_free-AllReached :
      (change : Transition)
      → ((r s : SessionRecord) → r.dispatch_lock ≡ none → change r ≡ ok s → Step key r s)
      → AllReached (when_free key (with_record key change) c)
  when_free-AllReached change steps = go (lookup key c) refl
    where
      enter :
          (r : SessionRecord) (lock : Option Dispatch)
          → lookup key c ≡ some r
          → r.dispatch_lock ≡ lock
          → AllReached (if is_some lock then c else (with_record key change c).1)
      enter r none e free =
          with_record-AllReached key change c all (λ r' s found. steps r' s (ground (arith)))
      enter r (some d) e held = all

      go :
          (found : Option SessionRecord)
          → lookup key c ≡ found
          → AllReached (when_free key (with_record key change) c)
      go none e =
          rw (e, when_free) (with_record-AllReached key change c all (λ r s found. absurd (cc)))
      go (some r) e = rw (e, when_free) (enter r r.dispatch_lock e refl)

-- A call keeps every session of the controller reached.
perform-AllReached : (call : Call) (c : Controller) → AllReached c → AllReached (perform call c)
unfolding perform request_pause grant_human_control return_control_for_resume_check
    resume_automation_after_validation stop_session begin_automation_dispatch
    begin_operator_dispatch
perform-AllReached (open_call key run_id) c all = open_session-AllReached key c all run_id
perform-AllReached (pause_call key) c all =
    with_record-AllReached key (request_pause_in key) c all (λ r s _ e. pause e)
perform-AllReached (grant_call key id name) c all =
    with_record-AllReached key (grant_human_control_in key id name) c all
      (λ r s _ e. grant id name e)
perform-AllReached (return_call key) c all =
    with_record-AllReached key (return_control_in key) c all (λ r s _ e. return e)
perform-AllReached (resume_call key) c all =
    with_record-AllReached key (resume_automation_in key) c all (λ r s _ e. resume e)
perform-AllReached (stop_call key) c all =
    with_record-AllReached key stop_in c all (λ r s _ e. stop e)
perform-AllReached (enter_automation_call key g) c all =
    when_free-AllReached key c all (enter_automation key g) (λ r s free e. enter_auto g free e)
perform-AllReached (enter_operator_call key g id) c all =
    when_free-AllReached key c all (enter_operator key g id) (λ r s free e. enter_op g id free e)
perform-AllReached (leave_call key) c all = end_dispatch-AllReached key c all

perform_all-AllReached :
    (calls : List Call) (c : Controller) → AllReached c → AllReached (perform_all calls c)
unfolding perform_all
perform_all-AllReached [] c all = all
perform_all-AllReached (call ∷ calls) c all =
    perform_all-AllReached calls (perform call c) (perform-AllReached call c all)

-- The holder of the dispatch lock and the side that controls the session do not cross.
abbrev pub Apart : Option Dispatch → SessionState → Type 0
Apart none s = Unit
Apart (some (automation g)) s =
    (s.control_state ≢ operator_controlled) × (s.control_state ≢ resume_requested)
Apart (some (operator g id)) s =
    (s.control_state ≢ automation_controlled)
    × (s.control_state ≢ pause_requested)
    × (owned_by_operator id s.owner ≡ true)

Reach-Apart :
    {key run_id : String} (r : SessionRecord) (lock : Option Dispatch)
    → Reach key (fresh_record key run_id) r
    → r.dispatch_lock ≡ lock
    → Apart lock r.state
Reach-Apart r none reached e = tt
Reach-Apart r (some (automation g)) reached e =
    ((automation_in_flight reached e).1, (automation_in_flight reached e).2)
Reach-Apart r (some (operator g id)) reached e = ground (arith, operator_in_flight reached e)

-- After any calls on a new controller, in any order and on any sessions, no session has an automated
-- dispatch in flight while an operator controls it or waits for a resume check, and none has an
-- operator's dispatch in flight while automation controls it, a pause is pending, or another operator
-- owns it.
pub no_overlap :
    (calls : List Call) (key : String) (r : SessionRecord)
    → lookup key (perform_all calls []) ≡ some r
    → Apart r.dispatch_lock r.state
no_overlap calls key r found = Reach-Apart r r.dispatch_lock reached refl
  where
    known : IsReached key r
    known =
        perform_all-AllReached calls [] (λ k s e. absurd (none-ne-some s (sym (lookup-nil k) ∙ e)))
          key r found

    reached : Reach key (fresh_record key known.run_id) r
    reached = known.reached

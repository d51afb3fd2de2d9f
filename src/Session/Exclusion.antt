-- ===== src/Session/Exclusion.antt =====
-- Who may act on a session in each control state, and that automated and operator dispatches never
-- overlap.
use capability_runner.Prelude.{ℕ, ◌<◌, String, ◌≡◌, refl, ◌⊎◌, ◌≢◌, true, Option, none, some, arith}
use capability_runner.Contracts.Sessions.{
  SessionOwner, automation_owner, operator_owner, ControlState, automation_controlled,
  pause_requested, operator_controlled, resume_requested, terminal, control_state_eq, SessionState,
}
use capability_runner.Session.{fresh_record}
use capability_runner.Session.Transitions.{
  SessionRecord, Dispatch, automation, operator, request_pause_in, grant_human_control_in,
  return_control_in, resume_automation_in, stop_in, enter_automation, enter_operator, release,
  owned_by_operator,
}
use capability_runner.Session.Steps.{
  Step, pause, grant, return, resume, stop, enter_auto, enter_op, leave, Reach, here, next,
}

-- The owner that a control state asks for. A stopped session keeps the owner it had.
abbrev pub Owns : String → ControlState → SessionOwner → Type 0
Owns run_id automation_controlled owner = owner ≡ automation_owner run_id
Owns run_id pause_requested owner = owner ≡ automation_owner run_id
Owns run_id operator_controlled (automation_owner run) = ⊥
Owns run_id operator_controlled (operator_owner id name) = Unit
Owns run_id resume_requested (automation_owner run) = ⊥
Owns run_id resume_requested (operator_owner id name) = Unit
Owns run_id terminal owner = Unit

-- What the holder of the dispatch lock may rely on until it leaves. Only a pause or a stop can come
-- between for automation, and only a stop for an operator.
abbrev pub Held : String → Option Dispatch → SessionState → Type 0
Held run_id none s = Unit
Held run_id (some (automation g)) s =
    (s.owner ≡ automation_owner run_id)
    × (((s.control_state ≡ automation_controlled) × (s.control_generation ≡ g))
        ⊎ ((s.control_state ≡ pause_requested) × (g < s.control_generation))
        ⊎ ((s.control_state ≡ terminal) × (g < s.control_generation)))
Held run_id (some (operator g id)) s =
    (owned_by_operator id s.owner ≡ true)
    × (((s.control_state ≡ operator_controlled) × (s.control_generation ≡ g))
        ⊎ ((s.control_state ≡ terminal) × (g < s.control_generation)))

pub record IsSafe (run_id : String) (r : SessionRecord) : Type 0 where
  pub run : r.automation_run_id ≡ run_id
  pub owns : Owns run_id r.state.control_state r.state.owner
  pub held : Held run_id r.dispatch_lock r.state

-- Every call keeps the session safe.
pub Step-IsSafe :
    {session_id run_id : String} {r s : SessionRecord}
    → Step session_id r s
    → IsSafe run_id r
    → IsSafe run_id s
unfolding request_pause_in grant_human_control_in return_control_in resume_automation_in stop_in
    enter_automation enter_operator release
Step-IsSafe (pause e) h = ground arith
Step-IsSafe (grant id name e) h = ground arith
Step-IsSafe (return e) h = ground arith
Step-IsSafe (resume e) h = ground arith
Step-IsSafe (stop e) h = ground arith
Step-IsSafe (enter_auto g free e) h = ground arith
Step-IsSafe (enter_op g id free e) h = ground arith
Step-IsSafe (leave d held e) h = ground arith

pub Reach-IsSafe :
    {session_id run_id : String} {r s : SessionRecord}
    → Reach session_id r s
    → IsSafe run_id r
    → IsSafe run_id s
Reach-IsSafe here h = h
Reach-IsSafe (next r st) h = Step-IsSafe st (Reach-IsSafe r h)

pub fresh-IsSafe : (session_id run_id : String) → IsSafe run_id (fresh_record session_id run_id)
fresh-IsSafe session_id run_id = record { run = refl; owns = refl; held = tt }

module _ {session_id run_id : String} {s : SessionRecord} {g : ℕ} where
  -- In whatever order tasks use a session after it is opened for a run, while an automated dispatch
  -- that entered at generation `g` is in flight the session is owned by that run's automation, is
  -- neither under an operator's control nor waiting for a resume check, and it is under automation
  -- control at exactly generation `g` or its generation has grown since.
  pub automation_in_flight :
      Reach session_id (fresh_record session_id run_id) s
      → s.dispatch_lock ≡ some (automation g)
      → (s.state.owner ≡ automation_owner run_id)
        × (s.state.control_state ≢ operator_controlled)
        × (s.state.control_state ≢ resume_requested)
        × (((s.state.control_state ≡ automation_controlled) × (s.state.control_generation ≡ g))
            ⊎ (g < s.state.control_generation))
  automation_in_flight reached inside =
      ground (arith, Reach-IsSafe reached (fresh-IsSafe session_id run_id))

  -- While an operator's dispatch that entered at generation `g` is in flight, the session belongs to
  -- that operator, and it is under operator control at generation `g` unless it was stopped.
  pub operator_in_flight :
      {id : String}
      → Reach session_id (fresh_record session_id run_id) s
      → s.dispatch_lock ≡ some (operator g id)
      → (owned_by_operator id s.state.owner ≡ true)
        × (((s.state.control_state ≡ operator_controlled) × (s.state.control_generation ≡ g))
            ⊎ (s.state.control_state ≡ terminal))
  operator_in_flight reached inside =
      ground (arith, Reach-IsSafe reached (fresh-IsSafe session_id run_id))

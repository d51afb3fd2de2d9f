-- ===== src/Intervention/Control.antt =====
-- When the manager hands control over, and when it gives it back.
use capability_runner.Prelude.{
  String, ◌≡◌, ◌≢◌, ◌⊎◌, refl, true, false, Option, none, some, Result, ok, err, lookup, arith,
}
use capability_runner.Contracts.Sessions.{
  automation_owner, automation_controlled, ControlState, terminal, control_state_eq, SessionState,
  SessionControllerError, SessionOwner,
}
use capability_runner.Contracts.Sessions
use capability_runner.Contracts.Intervention.{
  InterventionRecord, ResumeValidationResult, valid, InterventionOutcome, resumed,
  operator_controlled,
}
use capability_runner.Session.{Controller, Outcome, get_session, grant_human_control}
use capability_runner.Session.Transitions.{
  SessionRecord, owned_by_operator, locked, grant_human_control_in,
}
use capability_runner.Ports.{Ports}
use capability_runner.Intervention.{
  Manager, Answer, Validator, validated, complete_resume_validation, granted, waiting_or_error,
  answer_error, grant_operator_control,
}

module _ (P : Ports) where
  -- The outcome that a method returned, if it returned.
  abbrev pub outcome_of : Answer P → Option InterventionOutcome
  outcome_of (ok r, m) = some r.outcome
  outcome_of (err e, m) = none

  -- What a RESUMED answer rests on: the intervention is known, its session waited for the resume
  -- check, and a fresh validation of it, made in that state, came back VALID.
  pub record Revalidated (validate : Validator P) (intervention_id : String) (m : Manager P)
      : Type 0 where
    pub subject : InterventionRecord
    pub known : lookup intervention_id m.records ≡ some subject
    pub current : SessionState
    pub found : get_session subject.control_session_id m.world.controller ≡ ok current
    pub waits : current.control_state ≡ Sessions.resume_requested
    pub verdict : ResumeValidationResult
    pub validation : (validate subject m.world).0 ≡ some verdict
    pub positive : verdict.outcome ≡ valid

  validated_resumed :
      (r : InterventionRecord) (current : SessionState) (v : Option ResumeValidationResult)
      (m : Manager P)
      → outcome_of (validated P r current v m) ≡ some resumed
      → (verdict : ResumeValidationResult) × (v ≡ some verdict) × (verdict.outcome ≡ valid)
  unfolding validated
  validated_resumed r current none m h = absurd (ground arith)
  validated_resumed r current (some v) m h = (v, refl, ground arith)

  -- Automation gets a session back only by a validation: `complete_resume_validation` answers RESUMED
  -- only for a known intervention whose session waits for the resume check, and only if the validator
  -- was asked afresh and answered VALID.
  pub resumed-Revalidated :
      (validate : Validator P) (intervention_id : String) (m : Manager P)
      → outcome_of (complete_resume_validation P validate intervention_id m) ≡ some resumed
      → Revalidated validate intervention_id m
  unfolding complete_resume_validation
  resumed-Revalidated validate intervention_id m h = known (lookup intervention_id m.records) refl
    where
      waiting :
          (r : InterventionRecord) (current : SessionState)
          → lookup intervention_id m.records ≡ some r
          → get_session r.control_session_id m.world.controller ≡ ok current
          → (v : Option ResumeValidationResult) → (validate r m.world).0 ≡ v
          → Revalidated validate intervention_id m
      waiting r current e f none g = absurd (ground arith)
      waiting r current e f (some v) g = record {
        subject = r;
        known = e;
        current = current;
        found = f;
        waits = ground arith;
        verdict = v;
        validation = g;
        positive = ground arith;
      }

      session :
          (r : InterventionRecord)
          → lookup intervention_id m.records ≡ some r
          → (s : Result SessionControllerError SessionState)
          → get_session r.control_session_id m.world.controller ≡ s
          → Revalidated validate intervention_id m
      session r e (err x) f = absurd (ground arith)
      session r e (ok current) f = waiting r current e f (validate r m.world).0 refl

      known :
          (r : Option InterventionRecord)
          → lookup intervention_id m.records ≡ r
          → Revalidated validate intervention_id m
      known none e = absurd (ground arith)
      known (some r) e = session r e (get_session r.control_session_id m.world.controller) refl

  grant_facts :
      (session_id operator_id : String) (display_name : Option String) (r s : SessionRecord)
      → grant_human_control_in session_id operator_id display_name r ≡ ok s
      → (locked r ≡ false)
        × ((r.state.control_state ≡ Sessions.pause_requested)
            ⊎ ((r.state.control_state ≡ Sessions.operator_controlled)
                × (owned_by_operator operator_id r.state.owner ≡ true)))
  unfolding grant_human_control_in
  grant_facts session_id operator_id display_name r s h = ground arith

  granted_ok :
      (r : InterventionRecord) (o : Outcome) (m : Manager P)
      → outcome_of (granted P r o m) ≡ some operator_controlled
      → (state : SessionState) × (o.0 ≡ ok state)
  unfolding granted waiting_or_error answer_error
  granted_ok r (err e, c) m h = absurd (ground arith)
  granted_ok r (ok state, c) m h = (state, refl)

  -- What a grant rests on: the intervention is known, nothing is in flight in its session, and the
  -- session waits in a pause, or this very operator has control of it already.
  pub record IsQuiet (intervention_id operator_id : String) (m : Manager P) : Type 0 where
    pub subject : InterventionRecord
    pub known : lookup intervention_id m.records ≡ some subject
    pub session : SessionRecord
    pub found : lookup subject.control_session_id m.world.controller ≡ some session
    pub free : locked session ≡ false
    pub waits :
        (session.state.control_state ≡ Sessions.pause_requested)
        ⊎ ((session.state.control_state ≡ Sessions.operator_controlled)
            × (owned_by_operator operator_id session.state.owner ≡ true))

  grant-ok :
      (session_id operator_id : String) (display_name : Option String) (c : Controller)
      (state : SessionState)
      → (grant_human_control session_id operator_id display_name c).0 ≡ ok state
      → (r : SessionRecord) × (lookup session_id c ≡ some r)
        × ((s : SessionRecord) × (grant_human_control_in session_id operator_id display_name r
              ≡ ok s))
  unfolding grant_human_control
  grant-ok session_id operator_id display_name c state h = go (lookup session_id c) refl
    where
      go :
          (found : Option SessionRecord)
          → lookup session_id c ≡ found
          → (r : SessionRecord) × (lookup session_id c ≡ some r)
            × ((s : SessionRecord) × (grant_human_control_in session_id operator_id display_name r
                  ≡ ok s))
      go none e = absurd (ground arith)
      go (some r) e =
          (r, e, step (grant_human_control_in session_id operator_id display_name r) refl)
        where
          step :
              (o : Result SessionControllerError SessionRecord)
              → grant_human_control_in session_id operator_id display_name r ≡ o
              → (s : SessionRecord) × (grant_human_control_in session_id operator_id display_name r
                  ≡ ok s)
          step (err x) f = absurd (ground arith)
          step (ok s) f = (s, f)

  -- No operator is let in while an action is in flight: `grant_operator_control` answers
  -- OPERATOR_CONTROLLED only for a known intervention whose session nobody's dispatch holds, and which
  -- waits in a pause, or is under the control of this very operator already.
  pub granted-IsQuiet :
      (intervention_id operator_id : String) (display_name : Option String) (m : Manager P)
      → outcome_of (grant_operator_control P intervention_id operator_id display_name m)
        ≡ some operator_controlled
      → IsQuiet intervention_id operator_id m
  unfolding grant_operator_control
  granted-IsQuiet intervention_id operator_id display_name m h =
      known (lookup intervention_id m.records) refl
    where
      known :
          (r : Option InterventionRecord)
          → lookup intervention_id m.records ≡ r
          → IsQuiet intervention_id operator_id m
      known none e = absurd (ground arith)
      known (some r) e =
          let (state, given) = granted_ok r _ m (rw (e, grant_operator_control) at h) in
          let (session, found, (s, step)) =
            grant-ok r.control_session_id operator_id display_name m.world.controller state given in
          let (free, waits) =
            grant_facts r.control_session_id operator_id display_name session s step in
          record {
            subject = r;
            known = e;
            session = session;
            found = found;
            free = free;
            waits = waits;
          }

  -- What a return rests on: the intervention is known, and the operator who asks owns its session.
  pub record IsOwned (intervention_id operator_id : String) (m : Manager P) : Type 0 where
    pub subject : InterventionRecord
    pub known : lookup intervention_id m.records ≡ some subject
    pub current : SessionState
    pub found : get_session subject.control_session_id m.world.controller ≡ ok current
    pub running : current.control_state ≢ terminal
    pub owned : owned_by_operator operator_id current.owner ≡ true

-- ===== src/Replay/Guarantees.antt =====
-- replay/replay_engine.py: what `replay` and `resume` guarantee of the results that they return.
use capability_runner.Prelude.{
  ℕ, zero, suc, ◌+◌, String, ◌≡◌, refl, ◌∙◌, subst, ap, Option, none, some, List, [], ◌∷◌,
  string_eq, Dict, Result, ok, err, get_elem?, arith, ◌≤◌,
}
use mathlib.Core.Option.{some-ne-none, some-injective}
use capability_runner.Contracts.Capabilities.{EvaluationSnapshot, ActionStep, CapabilityDefinition}
use capability_runner.Contracts.Gateway.{GatewayExecutionContext}
use capability_runner.Contracts.Replay.{ReplayCheckpoint, failure, ReplayResult}
use capability_runner.Ports.{Ports, World, record_event}
use capability_runner.Replay.Results.{
  terminal_result, Position, start_at, finished, position_by, blocked_position, resume_position,
}
use capability_runner.Replay.Collection.{and_then, log}
use capability_runner.Replay.Steps.{Engine, observe}
use capability_runner.Replay.Engine.{
  from_index, record_completed, entry_failure, run_from, replay_unrecorded, replay,
  checkpoint_error, resume_at, resume_observed, resume_unrecorded, resume, log_resumed, log_started,
  log_completed,
}
use capability_runner.Replay.Outcomes.{
  IsSound, failure-IsSound, SoundOption, terminal_result-IsSound,
}
use capability_runner.Replay.Tasks.{Ensures, and_then-Ensures, done-Ensures}
use capability_runner.Replay.Progress.{SoundSnapshot, observe-Ensures, execute_steps-Ensures}

get_elem-from_index :
    (steps : List ActionStep) (n i : ℕ) → get_elem? (from_index steps n) i ≡ get_elem? steps (i + n)
unfolding from_index
get_elem-from_index steps zero i =
    let same : i ≡ i + zero = omega arith in ap (get_elem? steps) same
get_elem-from_index [] (suc n) i = refl
get_elem-from_index (step ∷ steps) (suc n) i =
    let shift : suc (i + n) ≡ i + suc n = omega arith in
    get_elem-from_index steps n i ∙ ap (get_elem? (step ∷ steps)) shift

module _ (P : Ports) (engine : Engine) (definition : CapabilityDefinition) (inputs : Dict String)
    (context : GatewayExecutionContext) where
  abbrev Sound : ReplayResult → Type 0
  Sound r = IsSound definition inputs context r

  run_from-Ensures : (n : ℕ) → Ensures P Sound (run_from P engine definition inputs context n)
  unfolding run_from
  run_from-Ensures n =
      execute_steps-Ensures P engine definition inputs context (from_index definition.steps n) n
        (get_elem-from_index definition.steps n)

  entry_failure-IsSound :
      (r : ReplayResult) → entry_failure P engine definition inputs context ≡ some r → Sound r
  unfolding entry_failure
  entry_failure-IsSound r e =
      failure-IsSound definition inputs context r (ground arith) (ground arith) (ground arith)

  replay_unrecorded-Ensures : Ensures P Sound (replay_unrecorded P engine definition inputs context)
  unfolding replay_unrecorded
  replay_unrecorded-Ensures w a h = go (entry_failure P engine definition inputs context) refl
    where
      go :
          (o : Option ReplayResult) → entry_failure P engine definition inputs context ≡ o → Sound a
      go (some r) f =
          subst Sound (some-injective r a (rw (replay_unrecorded, f) at h))
            (entry_failure-IsSound r f)
      go none f = run_from-Ensures 0 w a (rw (replay_unrecorded, f) at h)

  record_completed-Ensures :
      (r : ReplayResult)
      → Sound r
      → Ensures P Sound (record_completed P engine definition inputs context r)
  unfolding record_completed
  record_completed-Ensures r sound =
      and_then-Ensures P (λ _. Unit) Sound (log_completed P engine definition inputs context r)
        (λ _ w. (some r, w)) (λ w a h. tt) (λ _ _. done-Ensures P Sound r sound)

  -- Every result that `replay` returns is justified. A success or a business outcome is one that the
  -- definition declares on a snapshot, a success with the outputs extracted from that snapshot, and a
  -- failure has a reason. A checkpoint is of this capability and this generation, and passes the
  -- identity check of `resume`.
  pub replay_justified :
      (w : World P) (r : ReplayResult)
      → (replay P engine definition inputs context w).0 ≡ some r
      → IsSound definition inputs context r
  unfolding replay
  replay_justified =
      and_then-Ensures P (λ _. Unit) Sound (log_started P engine definition inputs context)
        (λ _.
          and_then P (replay_unrecorded P engine definition inputs context)
            (record_completed P engine definition inputs context))
        (λ w a h. tt)
        (λ _ _.
          and_then-Ensures P Sound Sound (replay_unrecorded P engine definition inputs context)
            (record_completed P engine definition inputs context) replay_unrecorded-Ensures
            record_completed-Ensures)

  abbrev SoundPosition : Option Position → Type 0
  SoundPosition (some (finished r)) = Sound r
  SoundPosition _ = Unit

  blocked_position-Sound :
      (checkpoint : ReplayCheckpoint) (step : ActionStep) (current : EvaluationSnapshot)
      (r : ReplayResult)
      → blocked_position checkpoint context.run_id step current inputs ≡ finished r
      → Sound r
  unfolding blocked_position position_by
  blocked_position-Sound checkpoint step current r e =
      failure-IsSound definition inputs context r (ground arith) (ground arith) (ground arith)

  resume_position-Sound :
      (checkpoint : ReplayCheckpoint) (current : EvaluationSnapshot) (r : ReplayResult)
      → resume_position checkpoint context.run_id definition current inputs ≡ some (finished r)
      → Sound r
  unfolding resume_position
  resume_position-Sound checkpoint current r e =
      go
        (terminal_result definition current inputs context.run_id checkpoint.blocked_step_id
          checkpoint.blocked_step_index)
        refl
        (terminal_result-IsSound definition inputs context current context.run_id
          checkpoint.blocked_step_id checkpoint.blocked_step_index)
        (get_elem? definition.steps checkpoint.blocked_step_index) refl
    where
      go :
          (t : Option ReplayResult)
          → terminal_result definition current inputs context.run_id checkpoint.blocked_step_id
              checkpoint.blocked_step_index
            ≡ t
          → SoundOption definition inputs context (
              terminal_result definition current inputs context.run_id checkpoint.blocked_step_id
                checkpoint.blocked_step_index)
          → (step : Option ActionStep)
          → get_elem? definition.steps checkpoint.blocked_step_index ≡ step
          → Sound r
      go (some a) f s step g =
          let same : a ≡ r = ground arith in subst Sound same (rw (SoundOption, f) at s)
      go none f s none g = absurd (ground arith)
      go none f s (some step) g = blocked_position-Sound checkpoint step current r (ground arith)

  resume_observed-Ensures :
      (checkpoint : ReplayCheckpoint) (c : Result ReplayResult EvaluationSnapshot)
      → SoundSnapshot P engine definition inputs context c
      → Ensures P Sound (resume_observed P engine definition inputs context checkpoint c)
  unfolding resume_observed resume_at
  resume_observed-Ensures checkpoint (err r) sound = done-Ensures P Sound r sound
  resume_observed-Ensures checkpoint (ok current) sound =
      go (resume_position checkpoint context.run_id definition current inputs)
        (resume_position-Sound checkpoint current)
    where
      go :
          (p : Option Position)
          → ((r : ReplayResult) → p ≡ some (finished r) → Sound r)
          → Ensures P Sound (resume_at P engine definition inputs context p)
      go none s w a h = absurd (cc)
      go (some (finished r)) s w a h = subst Sound (some-injective r a h) (s r refl)
      go (some (start_at index)) s w a h = run_from-Ensures index w a h

  resume_unrecorded-Ensures :
      (checkpoint : ReplayCheckpoint)
      → Ensures P Sound (resume_unrecorded P engine definition inputs context checkpoint)
  unfolding resume_unrecorded
  resume_unrecorded-Ensures checkpoint w a h =
      go (entry_failure P engine definition inputs context) refl
        (checkpoint_error P engine definition inputs context checkpoint) refl
    where
      go :
          (o : Option ReplayResult)
          → entry_failure P engine definition inputs context ≡ o
          → (e : Option String) → checkpoint_error P engine definition inputs context checkpoint ≡ e
          → Sound a
      go (some r) f e g =
          subst Sound (some-injective r a (rw (resume_unrecorded, f) at h))
            (entry_failure-IsSound r f)
      go none f (some reason) g =
          done-Ensures P Sound _ (some-ne-none _, tt) w a (rw (resume_unrecorded, f, g) at h)
      go none f none g =
          and_then-Ensures P (SoundSnapshot P engine definition inputs context) Sound
            (observe P engine definition inputs context checkpoint.blocked_step_id
              checkpoint.blocked_step_index)
            (resume_observed P engine definition inputs context checkpoint)
            (observe-Ensures P engine definition inputs context checkpoint.blocked_step_id
              checkpoint.blocked_step_index)
            (resume_observed-Ensures checkpoint) w a (rw (resume_unrecorded, f, g) at h)

  -- Every result that `resume` returns is justified, in the same sense.
  pub resume_justified :
      (checkpoint : ReplayCheckpoint) (w : World P) (r : ReplayResult)
      → (resume P engine definition inputs context checkpoint w).0 ≡ some r
      → IsSound definition inputs context r
  unfolding resume
  resume_justified checkpoint =
      and_then-Ensures P (λ _. Unit) Sound
        (log_resumed P engine definition inputs context checkpoint)
        (λ _.
          and_then P (resume_unrecorded P engine definition inputs context checkpoint)
            (record_completed P engine definition inputs context))
        (λ w a h. tt)
        (λ _ _.
          and_then-Ensures P Sound Sound
            (resume_unrecorded P engine definition inputs context checkpoint)
            (record_completed P engine definition inputs context)
            (resume_unrecorded-Ensures checkpoint) record_completed-Ensures)

  abbrev pub OnlyFailure : Option ReplayResult → Type 0
  OnlyFailure none = Unit
  OnlyFailure (some r) = r.outcome ≡ failure

  -- A resumption at a generation that is not past the checkpoint's leaves the sessions and the
  -- surface as they are, and any result of it is a failure.
  pub stale_checkpoint_refused :
      (checkpoint : ReplayCheckpoint) (w : World P)
      → context.expected_generation ≤ checkpoint.suspended_generation
      → ((resume P engine definition inputs context checkpoint w).1.controller ≡ w.controller)
        × ((resume P engine definition inputs context checkpoint w).1.surface ≡ w.surface)
        × OnlyFailure (resume P engine definition inputs context checkpoint w).0
  unfolding resume resume_unrecorded log_resumed log record_completed log_completed entry_failure
      checkpoint_error record_event
  stale_checkpoint_refused checkpoint w h = (
    ground arith,
    ground arith,
    go (resume P engine definition inputs context checkpoint w).0 refl,
  )
    where
      go :
          (o : Option ReplayResult)
          → (resume P engine definition inputs context checkpoint w).0 ≡ o
          → OnlyFailure o
      go none e = tt
      go (some r) e = ground arith

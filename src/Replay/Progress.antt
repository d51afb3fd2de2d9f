-- ===== src/Replay/Progress.antt =====
-- replay/replay_engine.py: every result of `_execute_steps` is sound, through both of its loops.
use capability_runner.Prelude.{
  ℕ, zero, suc, ◌+◌, String, ◌≡◌, ◌≢◌, ◌⊎◌, refl, sym, ◌∙◌, subst, ap, Bool, true, false, Option,
  none, some, List, [], ◌∷◌, string_eq, Dict, Result, ok, err, get_elem?, arith, if◌then◌else◌,
}
use mathlib.Core.Option.{some-ne-none, some-injective}
use capability_runner.Contracts.Capabilities.{
  EvaluationSnapshot, ActionStep, CapabilityDefinition, RetryPolicy,
}
use capability_runner.Contracts.Actions.{TargetSpec, ActionSpec}
use capability_runner.Contracts.Gateway.{
  GatewayExecutionContext, GatewayResult, GatewayOutcome, executed, denied, approval_required,
  failed,
}
use capability_runner.Contracts.Replay.{ReplayResult, replay_outcome_folded}
use capability_runner.Ports.{Ports, wait}
use capability_runner.Gateway.{execute}
use capability_runner.Gateway.Effects.{execute-Answers}
use capability_runner.Replay.Checks.{validate_checkpoint_identity, materialize, targets_for}
use capability_runner.Replay.Results.{failed_at, terminal_result}
use capability_runner.Replay.Collection.{Task, and_then, collect, SnapshotCollectionError}
use capability_runner.Replay.Steps.{
  Engine, Observed, returned, left_loop, observe, collected, precondition_failure, verdict_of,
  judge, observations, conclude_step, checkpoint_for, after_gateway, after_outcome, log_dispatched,
  log_blocked, observe_step, block_step, log_step, log_started, index_fields, max_observations,
  accepts_action_id, action_id_of, request_of, surface_target, act_step, enter_step, run_step,
  execute_steps,
}
use capability_runner.Replay.Outcomes.{
  Resumable, IsSound, SoundOption, terminal_result-IsSound, precondition-IsSound,
  verdict-SoundObserved,
}
use capability_runner.Replay.Tasks.{Ensures, and_then-Ensures, done-Ensures}

module _ (P : Ports) (engine : Engine) (definition : CapabilityDefinition) (inputs : Dict String)
    (context : GatewayExecutionContext) where
  abbrev pub Sound : ReplayResult → Type 0
  Sound r = IsSound definition inputs context r

  abbrev SoundLoop : Observed → Type 0
  SoundLoop (returned r) = Sound r
  SoundLoop (left_loop met) = Unit

  abbrev pub SoundSnapshot : Result ReplayResult EvaluationSnapshot → Type 0
  SoundSnapshot (ok snapshot) = Unit
  SoundSnapshot (err r) = Sound r

  pub observe-Ensures :
      (step_id : String) (n : ℕ)
      → Ensures P SoundSnapshot (observe P engine definition inputs context step_id n)
  unfolding observe collected
  observe-Ensures step_id n =
      and_then-Ensures P (λ _. Unit) SoundSnapshot (collect P context (targets_for definition))
        (λ r w. (some (collected P engine definition inputs context step_id n r), w)) (λ w a e. tt)
        (λ a _. done-Ensures P SoundSnapshot _ (sound a))
    where
      sound :
          (a : Result SnapshotCollectionError EvaluationSnapshot)
          → SoundSnapshot (collected P engine definition inputs context step_id n a)
      sound (ok snapshot) = tt
      sound (err e) = (some-ne-none _, tt)

  judge-Ensures :
      (step : ActionStep) (index : ℕ) (next : Task P Observed)
      (r : Result ReplayResult EvaluationSnapshot)
      → SoundSnapshot r
      → Ensures P SoundLoop next
      → Ensures P SoundLoop (judge P engine definition inputs context step index next r)
  unfolding judge
  judge-Ensures step index next (err r) sound rest = done-Ensures P SoundLoop (returned r) sound
  judge-Ensures step index next (ok after) sound rest =
      go (terminal_result definition after inputs context.run_id step.step_id (suc index)) refl
        (terminal_result-IsSound definition inputs context after context.run_id step.step_id
          (suc index))
        (verdict_of P engine definition inputs context step (suc index) after) refl
    where
      loop_sound :
          (v : Observed)
          → verdict_of P engine definition inputs context step (suc index) after ≡ some v
          → SoundLoop v
      loop_sound (left_loop met) f = tt
      loop_sound (returned r) f =
          verdict-SoundObserved definition inputs context step (suc index) after P engine
            (returned r) f

      go :
          (t : Option ReplayResult)
          → terminal_result definition after inputs context.run_id step.step_id (suc index) ≡ t
          → SoundOption definition inputs context
              (terminal_result definition after inputs context.run_id step.step_id (suc index))
          → (v : Option Observed)
          → verdict_of P engine definition inputs context step (suc index) after ≡ v
          → Ensures P SoundLoop
              (judge P engine definition inputs context step index next (ok after))
      go (some r) e s v f w o h =
          and_then-Ensures P (λ _. Unit) SoundLoop
            (log_step P engine definition inputs context "REPLAY_STEP_COMPLETED"
              (replay_outcome_folded r.outcome)
              (index_fields P engine definition inputs context index) step)
            (λ _ w'. (some (returned r), w')) (λ w a e. tt)
            (λ a _. done-Ensures P SoundLoop (returned r) (rw (SoundOption, e) at s)) w o
            (rw (judge, e) at h)
      go none e s (some v) f w o h =
          subst SoundLoop (some-injective v o (rw (judge, e, f) at h)) (loop_sound v f)
      go none e s none f w o h = rest w o (rw (judge, e, f) at h)

  observations-Ensures :
      (step : ActionStep) (index : ℕ) (first : Bool) (attempts : ℕ)
      → Ensures P SoundLoop
          (observations P engine definition inputs context step index first attempts)
  unfolding observations
  observations-Ensures step index first zero w = done-Ensures P SoundLoop _ tt w
  observations-Ensures step index first (suc attempts) w =
      and_then-Ensures P SoundSnapshot SoundLoop
        (observe P engine definition inputs context step.step_id (suc index))
        (judge P engine definition inputs context step index
          (observations P engine definition inputs context step index false attempts))
        (observe-Ensures step.step_id (suc index))
        (λ r sound.
          judge-Ensures step index _ r sound (observations-Ensures step index false attempts))
        (if first then w else wait P w)

  conclude_step-Ensures :
      (step : ActionStep) (index : ℕ) (next : Task P ReplayResult) (o : Observed)
      → SoundLoop o
      → Ensures P Sound next
      → Ensures P Sound (conclude_step P engine definition inputs context step index next o)
  unfolding conclude_step
  conclude_step-Ensures step index next (returned r) sound rest = done-Ensures P Sound r sound
  conclude_step-Ensures step index next (left_loop met) sound rest = go met step.retry_policy refl
    where
      completed : Ensures P Sound (
          and_then P
            (log_step P engine definition inputs context "REPLAY_STEP_COMPLETED" "completed"
              (index_fields P engine definition inputs context index)
              step)
            (λ _ w'. next w'))
      completed =
          and_then-Ensures P (λ _. Unit) Sound
            (log_step P engine definition inputs context "REPLAY_STEP_COMPLETED" "completed"
              (index_fields P engine definition inputs context index) step)
            (λ _ w'. next w') (λ w a e. tt) (λ a _. rest)

      go :
          (m : Bool) (retry : Option RetryPolicy)
          → step.retry_policy ≡ retry
          → Ensures P Sound
              (conclude_step P engine definition inputs context step index next (left_loop m))
      go true retry e w r h = completed w r h
      go false none e w r h = completed w r (rw (conclude_step, e) at h)
      go false (some retry) e w r h =
          done-Ensures P Sound _ (some-ne-none _, tt) w r (rw (conclude_step, e) at h)

  abbrev blocked_result : ActionStep → ℕ → GatewayResult → ReplayResult
  blocked_result step index r =
      failed_at context.run_id r.reason_code r.summary (some step.step_id) (suc index)
        (checkpoint_for P engine definition inputs context step index r.outcome)

  -- A gateway's answer that asks for approval says so by its code.
  abbrev Coded : GatewayResult → Type 0
  Coded r = (r.outcome ≢ approval_required) ⊎ (r.reason_code ≡ "APPROVAL_REQUIRED")

  checkpoint_for-Resumable :
      (step : ActionStep) (index : ℕ) (r : GatewayResult) (outcome : GatewayOutcome)
      → r.outcome ≡ outcome
      → Coded r
      → get_elem? definition.steps index ≡ some step
      → Resumable definition inputs context
          (checkpoint_for P engine definition inputs context step index outcome)
          (blocked_result step index r)
  unfolding checkpoint_for validate_checkpoint_identity
  checkpoint_for-Resumable step index r executed same coded e = tt
  checkpoint_for-Resumable step index r denied same coded e = tt
  checkpoint_for-Resumable step index r failed same coded e = tt
  checkpoint_for-Resumable step index r approval_required same coded e =
      (ground arith, refl, refl, ground arith, refl)

  observe_step-Ensures :
      (step : ActionStep) (index : ℕ) (next : Task P ReplayResult)
      → Ensures P Sound next
      → Ensures P Sound (observe_step P engine definition inputs context step index next)
  unfolding observe_step
  observe_step-Ensures step index next rest =
      and_then-Ensures P (λ _. Unit) Sound
        (log_dispatched P engine definition inputs context step index)
        (λ _. and_then P watched (conclude_step P engine definition inputs context step index next))
        (λ w a e. tt)
        (λ _ _.
          and_then-Ensures P SoundLoop Sound watched
            (conclude_step P engine definition inputs context step index next)
            (observations-Ensures step index true
              (max_observations P engine definition inputs context step.retry_policy))
            (λ o sound. conclude_step-Ensures step index next o sound rest))
    where
      watched : Task P Observed
      watched =
          observations P engine definition inputs context step index true
            (max_observations P engine definition inputs context step.retry_policy)

  block_step-Ensures :
      (step : ActionStep) (index : ℕ) (r : GatewayResult)
      → Coded r
      → get_elem? definition.steps index ≡ some step
      → Ensures P Sound (block_step P engine definition inputs context step index r)
  unfolding block_step
  block_step-Ensures step index r coded e =
      and_then-Ensures P (λ _. Unit) Sound
        (log_blocked P engine definition inputs context step index r)
        (λ _ w. (some (blocked_result step index r), w)) (λ w a h. tt)
        (λ _ _.
          done-Ensures P Sound (blocked_result step index r)
            (some-ne-none _, checkpoint_for-Resumable step index r r.outcome refl coded e))

  after_gateway-Ensures :
      (step : ActionStep) (index : ℕ) (next : Task P ReplayResult) (r : GatewayResult)
      → Coded r
      → get_elem? definition.steps index ≡ some step
      → Ensures P Sound next
      → Ensures P Sound (after_gateway P engine definition inputs context step index next r)
  unfolding after_gateway after_outcome
  after_gateway-Ensures step index next r coded e rest = go r.outcome
    where
      go :
          (o : GatewayOutcome)
          → Ensures P Sound (after_outcome P engine definition inputs context step index next r o)
      go executed = observe_step-Ensures step index next rest
      go denied = block_step-Ensures step index r coded e
      go failed = block_step-Ensures step index r coded e
      go approval_required = block_step-Ensures step index r coded e

  act_step-Ensures :
      (step : ActionStep) (index : ℕ) (next : Task P ReplayResult)
      → get_elem? definition.steps index ≡ some step
      → Ensures P Sound next
      → Ensures P Sound (act_step P engine definition inputs context step index next)
  unfolding act_step
  act_step-Ensures step index next e rest w result h =
      go (materialize step.action inputs target) refl
    where
      target : TargetSpec
      target = surface_target P engine definition inputs context

      go : (m : Option ActionSpec) → materialize step.action inputs target ≡ m → Sound result
      go none f = absurd (ground arith)
      go (some action) f =
          send (accepts_action_id (action_id_of P engine definition inputs context step)) refl
        where
          send :
              (b : Bool)
              → accepts_action_id (action_id_of P engine definition inputs context step) ≡ b
              → Sound result
          send false k = absurd (cc (rw (act_step, f, k) at h))
          send true k =
              let request = request_of P engine definition inputs context step action in
              after_gateway-Ensures step index next (execute P engine.gateway request context w).0
                (execute-Answers P request context engine.gateway w).approval e rest
                (execute P engine.gateway request context w).1 result (rw (act_step, f, k) at h)

  enter_step-Ensures :
      (step : ActionStep) (index : ℕ) (next : Task P ReplayResult)
      (r : Result ReplayResult EvaluationSnapshot)
      → get_elem? definition.steps index ≡ some step
      → SoundSnapshot r
      → Ensures P Sound next
      → Ensures P Sound (enter_step P engine definition inputs context step index next r)
  unfolding enter_step
  enter_step-Ensures step index next (err r) e sound rest = done-Ensures P Sound r sound
  enter_step-Ensures step index next (ok before) e sound rest =
      go (precondition_failure P engine definition inputs context step index before) refl
    where
      go :
          (o : Option ReplayResult)
          → precondition_failure P engine definition inputs context step index before ≡ o
          → Ensures P Sound
              (enter_step P engine definition inputs context step index next (ok before))
      go (some r) f w a h =
          subst Sound (some-injective r a (rw (enter_step, f) at h))
            (precondition-IsSound definition inputs context step index before P engine r f)
      go none f w a h = act_step-Ensures step index next e rest w a (rw (enter_step, f) at h)

  run_step-Ensures :
      (step : ActionStep) (index : ℕ) (next : Task P ReplayResult)
      → get_elem? definition.steps index ≡ some step
      → Ensures P Sound next
      → Ensures P Sound (run_step P engine definition inputs context step index next)
  unfolding run_step
  run_step-Ensures step index next e rest =
      and_then-Ensures P (λ _. Unit) Sound
        (log_started P engine definition inputs context step index)
        (λ _. and_then P watched (enter_step P engine definition inputs context step index next))
        (λ w a h. tt)
        (λ _ _.
          and_then-Ensures P SoundSnapshot Sound watched
            (enter_step P engine definition inputs context step index next)
            (observe-Ensures step.step_id (suc index))
            (λ r sound. enter_step-Ensures step index next r e sound rest))
    where
      watched : Task P (Result ReplayResult EvaluationSnapshot)
      watched = observe P engine definition inputs context step.step_id (suc index)

  pub execute_steps-Ensures :
      (steps : List ActionStep) (index : ℕ)
      → ((i : ℕ) → get_elem? steps i ≡ get_elem? definition.steps (i + index))
      → Ensures P Sound (execute_steps P engine definition inputs context steps index)
  unfolding execute_steps
  execute_steps-Ensures [] index same = done-Ensures P Sound _ (some-ne-none _, tt)
  execute_steps-Ensures (step ∷ steps) index same =
      run_step-Ensures step index
        (execute_steps P engine definition inputs context steps (suc index))
        (ap (get_elem? definition.steps) (omega arith) ∙ sym (same 0))
        (execute_steps-Ensures steps (suc index) shifted)
    where
      shifted : (i : ℕ) → get_elem? steps i ≡ get_elem? definition.steps (i + suc index)
      shifted i = same (suc i) ∙ ap (get_elem? definition.steps) (omega arith)

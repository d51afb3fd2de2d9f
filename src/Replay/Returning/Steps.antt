-- ===== src/Replay/Returning/Steps.antt =====
-- replay/replay_engine.py: when the steps of a capability return, rather than raise.
use capability_runner.Prelude.{
  ℕ, zero, suc, String, ◌≡◌, refl, Bool, true, false, Option, none, some, List, [], ◌∷◌, Dict,
  Result, ok, err, arith, All, if◌then◌else◌,
}
use capability_runner.Contracts.Surfaces.{literal_value, input_value}
use capability_runner.Contracts.Actions.{TargetSpec, ActionSpec}
use capability_runner.Contracts.Capabilities.{
  CapabilityActionTemplate, fill_template, click_template, EvaluationSnapshot, ActionStep,
  CapabilityDefinition, RetryPolicy,
}
use capability_runner.Contracts.Gateway.{
  GatewayExecutionContext, GatewayResult, GatewayOutcome, executed, denied, failed,
  approval_required,
}
use capability_runner.Contracts.Replay.{ReplayResult, replay_outcome_folded}
use capability_runner.Ports.{Ports, wait}
use capability_runner.Gateway.{execute}
use capability_runner.Replay.Checks.{materialize, targets_for}
use capability_runner.Replay.Results.{terminal_result, failed_at}
use capability_runner.Replay.Collection.{Task, and_then, bindings_by_target, collect}
use capability_runner.Replay.Steps.{
  Engine, Observed, returned, left_loop, observe, collected, precondition_failure, verdict_of,
  checkpoint_for, judge, observations, conclude_step, after_gateway, after_outcome, observe_step,
  block_step, act_step, enter_step, run_step, execute_steps, surface_target, request_of, log_step,
  index_fields, log_dispatched, log_blocked, max_observations, log_started,
}
use capability_runner.Replay.Returning.{
  IsReliable, IsSupplied, IsReady, Returns, and_then-Returns, from_some, log-Returns,
  collect_targets-Returns,
}

module _ (P : Ports) (reliable : IsReliable P) (context : GatewayExecutionContext) where
  module _ (engine : Engine) (definition : CapabilityDefinition) (inputs : Dict String) where
    observe-Returns :
        (step_id : String) (n : ℕ)
        → Returns P (observe P engine definition inputs context step_id n)
    unfolding observe collect
    observe-Returns step_id n =
        and_then-Returns P (collect P context (targets_for definition))
          (λ r w. (some (collected P engine definition inputs context step_id n r), w))
          (collect_targets-Returns P reliable context
            (bindings_by_target context.profile.target_bindings []) (targets_for definition) [])
          (λ r w. (_, refl))

    judge-Returns :
        (step : ActionStep) (index : ℕ) (next : Task P Observed)
        (r : Result ReplayResult EvaluationSnapshot)
        → Returns P next
        → Returns P (judge P engine definition inputs context step index next r)
    unfolding judge
    judge-Returns step index next (err r) rest w = (_, refl)
    judge-Returns step index next (ok after) rest w =
        go (terminal_result definition after inputs context.run_id step.step_id (suc index)) refl
          (verdict_of P engine definition inputs context step (suc index) after) refl
      where
        go :
            (t : Option ReplayResult)
            → terminal_result definition after inputs context.run_id step.step_id (suc index) ≡ t
            → (v : Option Observed)
            → verdict_of P engine definition inputs context step (suc index) after ≡ v
            → (x : Observed) × ((judge P engine definition inputs context step index next
                  (ok after)
                  w).0
                ≡ some x)
        go (some r) e v f =
            rw (judge, e)
              (and_then-Returns P
                (log_step P engine definition inputs context "REPLAY_STEP_COMPLETED"
                  (replay_outcome_folded r.outcome)
                  (index_fields P engine definition inputs context index) step)
                (λ _ w'. (some (returned r), w'))
                (log-Returns P reliable context engine.records _ _ _ _ _) (λ _ v. (_, refl)) w)
        go none e (some v) f = rw (judge, e, f) (_, refl)
        go none e none f = rw (judge, e, f) (rest w)

    observations-Returns :
        (step : ActionStep) (index : ℕ) (first : Bool) (attempts : ℕ)
        → Returns P (observations P engine definition inputs context step index first attempts)
    unfolding observations
    observations-Returns step index first zero w = (_, refl)
    observations-Returns step index first (suc attempts) w =
        and_then-Returns P (observe P engine definition inputs context step.step_id (suc index))
          (judge P engine definition inputs context step index
            (observations P engine definition inputs context step index false attempts))
          (observe-Returns step.step_id (suc index))
          (λ r. judge-Returns step index _ r (observations-Returns step index false attempts))
          (if first then w else wait P w)

    conclude_step-Returns :
        (step : ActionStep) (index : ℕ) (next : Task P ReplayResult) (o : Observed)
        → Returns P next
        → Returns P (conclude_step P engine definition inputs context step index next o)
    unfolding conclude_step
    conclude_step-Returns step index next (returned r) rest w = (_, refl)
    conclude_step-Returns step index next (left_loop met) rest w = go met step.retry_policy refl
      where
        completed : Returns P (
            and_then P
              (log_step P engine definition inputs context "REPLAY_STEP_COMPLETED" "completed"
                (index_fields P engine definition inputs context index)
                step)
              (λ _ w'. next w'))
        completed =
            and_then-Returns P
              (log_step P engine definition inputs context "REPLAY_STEP_COMPLETED" "completed"
                (index_fields P engine definition inputs context index) step)
              (λ _ w'. next w') (log-Returns P reliable context engine.records _ _ _ _ _)
              (λ _. rest)

        go :
            (m : Bool) (retry : Option RetryPolicy)
            → step.retry_policy ≡ retry
            → (x : ReplayResult) × ((conclude_step P engine definition inputs context step index
                  next
                  (left_loop m)
                  w).0
                ≡ some x)
        go true retry e = completed w
        go false none e = rw (conclude_step, e) (completed w)
        go false (some retry) e = rw (conclude_step, e) (_, refl)

    observe_step-Returns :
        (step : ActionStep) (index : ℕ) (next : Task P ReplayResult)
        → Returns P next
        → Returns P (observe_step P engine definition inputs context step index next)
    unfolding observe_step
    observe_step-Returns step index next rest =
        and_then-Returns P (log_dispatched P engine definition inputs context step index)
          (λ _.
            and_then P watched (conclude_step P engine definition inputs context step index next))
          (log-Returns P reliable context engine.records _ _ _ _ _)
          (λ _.
            and_then-Returns P watched
              (conclude_step P engine definition inputs context step index next)
              (observations-Returns step index true
                (max_observations P engine definition inputs context step.retry_policy))
              (λ o. conclude_step-Returns step index next o rest))
      where
        watched : Task P Observed
        watched =
            observations P engine definition inputs context step index true
              (max_observations P engine definition inputs context step.retry_policy)

    block_step-Returns :
        (step : ActionStep) (index : ℕ) (r : GatewayResult)
        → Returns P (block_step P engine definition inputs context step index r)
    unfolding block_step
    block_step-Returns step index r =
        and_then-Returns P (log_blocked P engine definition inputs context step index r)
          (λ _ w. (
            some (
                failed_at context.run_id r.reason_code r.summary (some step.step_id) (suc index)
                  (checkpoint_for P engine definition inputs context step index r.outcome)),
            w,
          ))
          (log-Returns P reliable context engine.records _ _ _ _ _) (λ _ w. (_, refl))

    after_gateway-Returns :
        (step : ActionStep) (index : ℕ) (next : Task P ReplayResult) (r : GatewayResult)
        → Returns P next
        → Returns P (after_gateway P engine definition inputs context step index next r)
    unfolding after_gateway after_outcome
    after_gateway-Returns step index next r rest = go r.outcome
      where
        go :
            (o : GatewayOutcome)
            → Returns P (after_outcome P engine definition inputs context step index next r o)
        go executed = observe_step-Returns step index next rest
        go denied = block_step-Returns step index r
        go failed = block_step-Returns step index r
        go approval_required = block_step-Returns step index r

    materialize-some :
        (template : CapabilityActionTemplate) (target : TargetSpec)
        → IsSupplied inputs template
        → (action : ActionSpec) × (materialize template inputs target ≡ some action)
    unfolding materialize
    materialize-some (fill_template t (literal_value value)) target h = (_, refl)
    materialize-some (fill_template t (input_value name)) target h =
        from_some (materialize (fill_template t (input_value name)) inputs target) (ground arith)
    materialize-some (click_template t) target h = (_, refl)

    act_step-Returns :
        (step : ActionStep) (index : ℕ) (next : Task P ReplayResult)
        → IsReady inputs context.run_id step
        → Returns P next
        → Returns P (act_step P engine definition inputs context step index next)
    unfolding act_step
    act_step-Returns step index next supplied rest w =
        let (action, e) =
          materialize-some step.action (surface_target P engine definition inputs context)
            supplied.0 in
        let request = request_of P engine definition inputs context step action in
        rw (act_step, e, supplied.1)
          (after_gateway-Returns step index next (execute P engine.gateway request context w).0 rest
            (execute P engine.gateway request context w).1)

    enter_step-Returns :
        (step : ActionStep) (index : ℕ) (next : Task P ReplayResult)
        (r : Result ReplayResult EvaluationSnapshot)
        → IsReady inputs context.run_id step
        → Returns P next
        → Returns P (enter_step P engine definition inputs context step index next r)
    unfolding enter_step
    enter_step-Returns step index next (err r) supplied rest w = (_, refl)
    enter_step-Returns step index next (ok before) supplied rest w =
        go (precondition_failure P engine definition inputs context step index before) refl
      where
        go :
            (o : Option ReplayResult)
            → precondition_failure P engine definition inputs context step index before ≡ o
            → (x : ReplayResult) × ((enter_step P engine definition inputs context step index next
                  (ok before)
                  w).0
                ≡ some x)
        go (some r) e = rw (enter_step, e) (_, refl)
        go none e = rw (enter_step, e) (act_step-Returns step index next supplied rest w)

    run_step-Returns :
        (step : ActionStep) (index : ℕ) (next : Task P ReplayResult)
        → IsReady inputs context.run_id step
        → Returns P next
        → Returns P (run_step P engine definition inputs context step index next)
    unfolding run_step
    run_step-Returns step index next supplied rest =
        and_then-Returns P (log_started P engine definition inputs context step index)
          (λ _. and_then P watched (enter_step P engine definition inputs context step index next))
          (log-Returns P reliable context engine.records _ _ _ _ _)
          (λ _.
            and_then-Returns P watched
              (enter_step P engine definition inputs context step index next)
              (observe-Returns step.step_id (suc index))
              (λ r. enter_step-Returns step index next r supplied rest))
      where
        watched : Task P (Result ReplayResult EvaluationSnapshot)
        watched = observe P engine definition inputs context step.step_id (suc index)

    pub execute_steps-Returns :
        (steps : List ActionStep) (index : ℕ)
        → All (λ step. IsReady inputs context.run_id step) steps
        → Returns P (execute_steps P engine definition inputs context steps index)
    unfolding execute_steps
    execute_steps-Returns [] index all w = (_, refl)
    execute_steps-Returns (step ∷ steps) index all w =
        run_step-Returns step index
          (execute_steps P engine definition inputs context steps (suc index)) all.0
          (execute_steps-Returns steps (suc index) all.1) w

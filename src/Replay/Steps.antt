-- ===== src/Replay/Steps.antt =====
-- replay/replay_engine.py: `_execute_steps`, the loop over the steps of a capability and, in it, the
-- loop over the observations of a step's effect.
use capability_runner.Prelude.{
  leb, ℕ, zero, suc, String, ◌<>◌, Bool, true, false, Option, none, some, List, [], ◌∷◌, ◌==◌, Dict,
  is_some, if◌then◌else◌, Result, ok, err, length,
}
use capability_runner.Contracts.Actions.{TargetSpec, profile_target, ActionSpec}
use capability_runner.Contracts.Capabilities.{
  ConditionSpec, EvaluationSnapshot, template_target, template_kind, RetryPolicy, ActionStep,
  CapabilityDefinition,
}
use capability_runner.Contracts.Evidence.{Fields, end, field, text, null, flag, number}
use capability_runner.Contracts.Gateway.{
  GatewayActionRequest, GatewayExecutionContext, GatewayOutcome, executed, approval_required,
  outcome_folded, GatewayResult,
}
use capability_runner.Contracts.Replay.{ReplayCheckpoint, ReplayResult, replay_outcome_folded}
use capability_runner.Evaluator.{
  condition_result_eq, holds, fails, unknown, ConditionEvaluation, evaluate_condition,
}
use capability_runner.Ports.{Ports, World, wait}
use capability_runner.Gateway.{Gateway, execute}
use capability_runner.Replay.Checks.{text_length, targets_for, materialize, RegexLibrary}
use capability_runner.Replay.Results.{failed_at, terminal_result, wants_input}
use capability_runner.Replay.Collection.{SnapshotCollectionError, Task, and_then, collect, log}

-- The collaborators that an engine is built with, besides the ports. `records` says whether it has an
-- evidence recorder.
pub record Engine : Type 0 where
  pub gateway : Gateway
  pub fullmatch : RegexLibrary
  pub records : Bool

-- Where the loop over observations ends.
pub data Observed : Type 0 where
  returned : ReplayResult → Observed
  left_loop : Bool → Observed

-- `max_length=128` of `GatewayActionRequest.action_id`
abbrev pub accepts_action_id : String → Bool
accepts_action_id id = leb (text_length id) 128

module _ (P : Ports) (engine : Engine) (definition : CapabilityDefinition) (inputs : Dict String)
    (context : GatewayExecutionContext) where
  -- A snapshot, or the failure to collect one, as `_collect` has it.
  unfoldable pub collected :
      String
      → ℕ
      → Result SnapshotCollectionError EvaluationSnapshot
      → Result ReplayResult EvaluationSnapshot
  collected step_id attempted (ok snapshot) = ok snapshot
  collected step_id attempted (err e) =
      err (failed_at context.run_id e.code e.summary (some step_id) attempted none)

  -- `_collect`
  unfoldable pub observe : String → ℕ → Task P (Result ReplayResult EvaluationSnapshot)
  unfolding collected
  observe step_id attempted =
      and_then P (collect P context (targets_for definition))
        (λ r w. (some (collected step_id attempted r), w))

  unfoldable pub precondition_of : ActionStep → ℕ → ConditionEvaluation → Option ReplayResult
  precondition_of step index condition =
      if wants_input condition
      then some (
          failed_at context.run_id "INVALID_INPUT" "Runtime input is missing." (some step.step_id)
            index none)
      else if condition.result == holds
      then none
      else some (
          failed_at context.run_id "PRECONDITION_FAILED" "Step precondition was not met."
            (some step.step_id) index none)

  -- The failure of a step's precondition, if it fails.
  unfoldable pub precondition_failure : ActionStep → ℕ → EvaluationSnapshot → Option ReplayResult
  unfolding precondition_of
  precondition_failure step index before = elim step.precondition [
    | none ↦ none
    | some condition ↦ precondition_of step index (evaluate_condition condition before inputs)
  ]

  abbrev pub action_id_of : ActionStep → String
  action_id_of step = context.run_id <> ("-" <> step.step_id)

  abbrev pub index_fields : ℕ → Fields
  index_fields index = field "step_index" (number index) end

  abbrev pub log_step : String → String → Fields → ActionStep → Task P (Unit {0})
  log_step reason outcome metadata step =
      log P context engine.records reason outcome metadata (some step.step_id)
        (some (action_id_of step))

  -- What a postcondition's evaluation means for the loop, if it ends it.
  unfoldable pub postcondition_of : ActionStep → ℕ → ConditionEvaluation → Option Observed
  postcondition_of step attempted condition =
      if wants_input condition
      then some (
          returned (
            failed_at context.run_id "INVALID_INPUT" "Runtime input is missing." (some step.step_id)
              attempted none))
      else elim condition.result [
        | holds ↦ some (left_loop true)
        | unknown ↦ none
        | fails ↦
            if is_some step.retry_policy
            then none
            else some (
                returned (
                  failed_at context.run_id "POSTCONDITION_FAILED" "Step postcondition was not met."
                    (some step.step_id) attempted none))
      ]

  unfoldable pub verdict_of : ActionStep → ℕ → EvaluationSnapshot → Option Observed
  unfolding postcondition_of
  verdict_of step attempted after = elim step.postcondition [
    | none ↦ none
    | some condition ↦ postcondition_of step attempted (evaluate_condition condition after inputs)
  ]

  -- One round of the loop over observations, once the snapshot is taken.
  unfoldable pub judge :
      ActionStep → ℕ → Task P Observed → Result ReplayResult EvaluationSnapshot → Task P Observed
  unfolding verdict_of
  judge step index next (err r) w = (some (returned r), w)
  judge step index next (ok after) w =
      elim (terminal_result definition after inputs context.run_id step.step_id (suc index)) [
        | some r ↦
            and_then P
              (log_step "REPLAY_STEP_COMPLETED" (replay_outcome_folded r.outcome)
                (index_fields index) step)
              (λ _ w'. (some (returned r), w')) w
        | none ↦ elim (verdict_of step (suc index) after) [
          | some end_of_loop ↦ (some end_of_loop, w)
          | none ↦ next w
        ]
      ]

  -- Before each observation but the first, the task sleeps.
  abbrev pub pause : Bool → World P → World P
  pause first w = if first then w else wait P w

  -- `for observation_attempt in range(max_observations)`
  unfoldable pub observations : ActionStep → ℕ → Bool → ℕ → Task P Observed
  unfolding judge
  observations step index first zero w = (some (left_loop (not_awaited step.postcondition)), w)
    where
      not_awaited : Option ConditionSpec → Bool
      not_awaited none = true
      not_awaited (some condition) = false
  observations step index first (suc attempts) w =
      and_then P (observe step.step_id (suc index))
        (judge step index (λ w'. observations step index false attempts w')) (pause first w)

  abbrev pub max_observations : Option RetryPolicy → ℕ
  max_observations none = 1
  max_observations (some retry) = retry.max_attempts

  -- After the loop over observations.
  unfoldable pub conclude_step :
      ActionStep → ℕ → Task P ReplayResult → Observed → Task P ReplayResult
  conclude_step step index next (returned r) w = (some r, w)
  conclude_step step index next (left_loop met) w = elim met [
    | true ↦
        and_then P (log_step "REPLAY_STEP_COMPLETED" "completed" (index_fields index) step)
          (λ _ w'. next w') w
    | false ↦ elim step.retry_policy [
      | none ↦
          and_then P (log_step "REPLAY_STEP_COMPLETED" "completed" (index_fields index) step)
            (λ _ w'. next w') w
      | some retry ↦ (
        some (
            failed_at context.run_id "STEP_TIMEOUT"
              "Step did not reach a declared terminal state in time." (some step.step_id)
              (suc index) none),
        w,
      )
    ]
  ]

  -- The checkpoint of a step that waits for approval.
  unfoldable pub checkpoint_for : ActionStep → ℕ → GatewayOutcome → Option ReplayCheckpoint
  checkpoint_for step index approval_required = some (record {
    capability_id = definition.capability_id;
    capability_version = definition.capability_version;
    blocked_step_id = step.step_id;
    blocked_step_index = index;
    suspended_generation = context.expected_generation;
  })
  checkpoint_for step index _ = none

  abbrev pub effect_value : Option ReplayCheckpoint → Fields → Fields
  effect_value none rest = field "action_effect_state" null rest
  effect_value (some checkpoint) rest = field "action_effect_state" (text "NOT_EXECUTED") rest

  abbrev pub log_dispatched : ActionStep → ℕ → Task P (Unit {0})
  log_dispatched step index = log_step "REPLAY_STEP_DISPATCHED" "executed" (index_fields index) step

  abbrev pub log_blocked : ActionStep → ℕ → GatewayResult → Task P (Unit {0})
  log_blocked step index r =
      log_step "REPLAY_STEP_BLOCKED" (outcome_folded r.outcome)
        (effect_value (checkpoint_for step index r.outcome)
          (field "gateway_reason_code" (text r.reason_code) (index_fields index)))
        step

  -- What follows an executed action.
  unfoldable pub observe_step : ActionStep → ℕ → Task P ReplayResult → Task P ReplayResult
  observe_step step index next = and_then P (log_dispatched step index) (λ _.
      and_then P (observations step index true (max_observations step.retry_policy))
        (conclude_step step index next))

  -- What follows an action that the gateway did not execute.
  unfoldable pub block_step : ActionStep → ℕ → GatewayResult → Task P ReplayResult
  block_step step index r = and_then P (log_blocked step index r) (λ _ w. (
    some (
        failed_at context.run_id r.reason_code r.summary (some step.step_id) (suc index)
          (checkpoint_for step index r.outcome)),
    w,
  ))

  unfoldable pub after_outcome :
      ActionStep → ℕ → Task P ReplayResult → GatewayResult → GatewayOutcome → Task P ReplayResult
  after_outcome step index next r executed = observe_step step index next
  after_outcome step index next r _ = block_step step index r

  unfoldable pub after_gateway :
      ActionStep → ℕ → Task P ReplayResult → GatewayResult → Task P ReplayResult
  after_gateway step index next r = after_outcome step index next r r.outcome

  abbrev pub surface_target : TargetSpec
  surface_target =
      profile_target context.profile.application_family context.profile.variant
        (some context.profile.entry_point)

  abbrev pub request_of : ActionStep → ActionSpec → GatewayActionRequest
  request_of step action = record {
    action_id = action_id_of step;
    semantic_target = template_target step.action;
    action = action;
    step_id = some step.step_id;
  }

  -- The step's action, once its precondition is met. `GatewayActionRequest(...)` raises, uncaught, where
  -- the run's identifier makes the action's too long.
  unfoldable pub act_step : ActionStep → ℕ → Task P ReplayResult → Task P ReplayResult
  act_step step index next w = elim (materialize step.action inputs surface_target) [
    | none ↦ (none, w)
    | some action ↦
        if accepts_action_id (action_id_of step)
        then (let (r, w') = execute P engine.gateway (request_of step action) context w in
            after_gateway step index next r w')
        else (none, w)
  ]

  unfoldable pub enter_step :
      ActionStep
      → ℕ
      → Task P ReplayResult
      → Result ReplayResult EvaluationSnapshot
      → Task P ReplayResult
  enter_step step index next (err r) w = (some r, w)
  enter_step step index next (ok before) w = elim (precondition_failure step index before) [
    | some r ↦ (some r, w)
    | none ↦ act_step step index next w
  ]

  abbrev pub started_fields : ActionStep → ℕ → Fields
  started_fields step index = field "action_kind" (text (template_kind step.action)) (
      field "has_postcondition" (flag (is_some step.postcondition)) (
        field "has_precondition" (flag (is_some step.precondition)) (
          field "semantic_target" (text (template_target step.action).value) (index_fields index))))

  abbrev pub log_started : ActionStep → ℕ → Task P (Unit {0})
  log_started step index =
      log P context engine.records "REPLAY_STEP_STARTED" "started" (started_fields step index)
        (some step.step_id) none

  -- One round of the loop over steps.
  unfoldable pub run_step : ActionStep → ℕ → Task P ReplayResult → Task P ReplayResult
  run_step step index next =
      and_then P (log_started step index)
        (λ _. and_then P (observe step.step_id (suc index)) (enter_step step index next))

  -- `_execute_steps`, from the steps that are left and the index of the first.
  unfoldable pub execute_steps : List ActionStep → ℕ → Task P ReplayResult
  execute_steps [] index w = (
    some (
        failed_at context.run_id "INCOMPLETE" "Capability completed without declared success." none
          (length definition.steps) none),
    w,
  )
  execute_steps (step ∷ steps) index w =
      run_step step index (λ w'. execute_steps steps (suc index) w') w

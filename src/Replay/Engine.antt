-- ===== src/Replay/Engine.antt =====
-- replay/replay_engine.py: `replay`, `resume` and `validate_resume`.
use capability_runner.Prelude.{
  ℕ, zero, suc, String, Bool, true, false, Option, none, some, List, [], ◌∷◌, Dict, if◌then◌else◌,
  leb, Result, ok, err,
}
use capability_runner.Contracts.Capabilities.{EvaluationSnapshot, ActionStep, CapabilityDefinition}
use capability_runner.Contracts.Evidence.{Values, nil, cons, end, field, text, number, items}
use capability_runner.Contracts.Gateway.{GatewayExecutionContext}
use capability_runner.Contracts.Replay.{
  ReplayCheckpoint, failure, ReplayResult, replay_outcome_folded,
}
use capability_runner.Ports.{Ports}
use capability_runner.Gateway.Results.{text_or_null}
use capability_runner.Replay.Checks.{
  sorted_names, validate_inputs, validate_profile, validate_checkpoint_identity,
}
use capability_runner.Replay.Results.{failed_at, Position, start_at, finished, resume_position}
use capability_runner.Replay.Collection.{Task, and_then, log}
use capability_runner.Replay.Steps.{Engine, observe, execute_steps}

-- `definition.steps[start_index:]`, for the range of the loop
unfoldable pub from_index : List ActionStep → ℕ → List ActionStep
from_index steps zero = steps
from_index [] (suc i) = []
from_index (step ∷ steps) (suc i) = from_index steps i

abbrev pub text_items : List String → Values
text_items [] = nil
text_items (s ∷ rest) = cons (text s) (text_items rest)

-- The first of the errors, as `a or b` has it.
abbrev pub or_else : Option String → Option String → Option String
or_else none b = b
or_else (some a) b = some a

-- The answer of `validate_resume`: whether it is `VALID`, and why.
pub record ResumeValidation : Type 0 where
  pub valid : Bool
  pub reason_code : String
  pub summary : String

module _ (P : Ports) (engine : Engine) (definition : CapabilityDefinition) (inputs : Dict String)
    (context : GatewayExecutionContext) where
  unfoldable pub log_completed : ReplayResult → Task P (Unit {0})
  log_completed r =
      log P context engine.records "REPLAY_COMPLETED" (replay_outcome_folded r.outcome)
        (text_or_null r.business_outcome_code
          (field "capability_id" (text definition.capability_id) (
            field "capability_version" (text definition.capability_version) (
              text_or_null r.reason_code (field "steps_attempted" (number r.steps_attempted) end)
                "result_reason_code")))
          "business_outcome_code")
        r.step_id none

  -- `_record_completed`, and the result
  unfoldable pub record_completed : ReplayResult → Task P ReplayResult
  record_completed r = and_then P (log_completed r) (λ _ w. (some r, w))

  -- What refuses a replay before any target is observed.
  unfoldable pub entry_failure : Option ReplayResult
  entry_failure = elim (validate_inputs engine.fullmatch definition.inputs inputs) [
    | some reason ↦ some (failed_at context.run_id reason "Runtime inputs are invalid." none 0 none)
    | none ↦ elim (validate_profile definition context.profile) [
      | some reason ↦
          some (failed_at context.run_id reason "Trusted profile is incompatible." none 0 none)
      | none ↦ none
    ]
  ]

  unfoldable pub run_from : ℕ → Task P ReplayResult
  run_from start_index =
      execute_steps P engine definition inputs context (from_index definition.steps start_index)
        start_index

  unfoldable pub replay_unrecorded : Task P ReplayResult
  replay_unrecorded w = elim entry_failure [ some r ↦ (some r, w) | none ↦ run_from 0 w ]

  unfoldable pub log_started : Task P (Unit {0})
  log_started =
      log P context engine.records "REPLAY_STARTED" "started"
        (field "capability_id" (text definition.capability_id) (
          field "capability_version" (text definition.capability_version) (
            field "input_names" (items (text_items (sorted_names inputs)))
              (field "start_step_index" (number 0) end))))
        none none

  -- `replay`
  unfoldable pub replay : Task P ReplayResult
  replay = and_then P log_started (λ _. and_then P replay_unrecorded record_completed)

  -- What refuses a checkpoint.
  unfoldable pub checkpoint_error : ReplayCheckpoint → Option String
  checkpoint_error checkpoint = elim (validate_checkpoint_identity definition checkpoint) [
    | some reason ↦ some reason
    | none ↦
        if leb context.expected_generation checkpoint.suspended_generation
        then some "STALE_GENERATION"
        else none
  ]

  unfoldable pub resume_at : Option Position → Task P ReplayResult
  resume_at none w = (none, w)
  resume_at (some (finished r)) w = (some r, w)
  resume_at (some (start_at index)) w = run_from index w

  unfoldable pub resume_observed :
      ReplayCheckpoint → Result ReplayResult EvaluationSnapshot → Task P ReplayResult
  unfolding resume_at
  resume_observed checkpoint (err r) w = (some r, w)
  resume_observed checkpoint (ok current) w =
      resume_at (resume_position checkpoint context.run_id definition current inputs) w

  -- `_resume`
  unfoldable pub resume_unrecorded : ReplayCheckpoint → Task P ReplayResult
  resume_unrecorded checkpoint w = elim entry_failure [
    | some r ↦ (some r, w)
    | none ↦ elim (checkpoint_error checkpoint) [
      | some reason ↦ (
        some (
            failed_at context.run_id reason "Replay checkpoint is not valid for this continuation."
              (some checkpoint.blocked_step_id) checkpoint.blocked_step_index none),
        w,
      )
      | none ↦
          and_then P
            (observe P engine definition inputs context checkpoint.blocked_step_id
              checkpoint.blocked_step_index)
            (resume_observed checkpoint) w
    ]
  ]

  unfoldable pub log_resumed : ReplayCheckpoint → Task P (Unit {0})
  log_resumed checkpoint =
      log P context engine.records "REPLAY_RESUME_STARTED" "started"
        (field "action_effect_state" (text "NOT_EXECUTED") (
          field "blocked_step_id" (text checkpoint.blocked_step_id) (
            field "blocked_step_index" (number checkpoint.blocked_step_index) (
              field "capability_id" (text definition.capability_id) (
                field "capability_version" (text definition.capability_version) (
                  field "checkpoint_generation" (number checkpoint.suspended_generation) (
                    field "current_generation" (number context.expected_generation)
                      (field "input_names" (items (text_items (sorted_names inputs))) end))))))))
        (some checkpoint.blocked_step_id) none

  -- `resume`
  unfoldable pub resume : ReplayCheckpoint → Task P ReplayResult
  resume checkpoint =
      and_then P (log_resumed checkpoint)
        (λ _. and_then P (resume_unrecorded checkpoint) record_completed)

  abbrev pub reason_or_unverified : Option String → String
  reason_or_unverified none = "RESUME_STATE_UNVERIFIED"
  reason_or_unverified (some reason) = reason

  abbrev pub validation : Bool → String → String → ResumeValidation
  validation valid reason summary = record {
    valid = valid;
    reason_code = reason;
    summary = summary;
  }

  unfoldable pub validation_of : Position → ResumeValidation
  validation_of (start_at index) =
      validation true "CURRENT_STEP_STATE_CONFIRMED" "Fresh blocked-step state was confirmed."
  validation_of (finished r) = elim r.outcome [
    | failure ↦
        validation false (reason_or_unverified r.reason_code)
          "Fresh replay state is not safe to continue."
    | other ↦
        validation true "CURRENT_TERMINAL_STATE_CONFIRMED"
          "Fresh terminal replay state was confirmed."
  ]

  unfoldable pub validate_observed :
      ReplayCheckpoint → Result ReplayResult EvaluationSnapshot → Task P ResumeValidation
  unfolding validation_of
  validate_observed checkpoint (err r) w = (
    some (
        validation false (reason_or_unverified r.reason_code)
          "Fresh replay state could not be collected."),
    w,
  )
  validate_observed checkpoint (ok current) w =
      elim (resume_position checkpoint context.run_id definition current inputs) [
        | none ↦ (none, w)
        | some position ↦ (some (validation_of position), w)
      ]

  -- `validate_resume`
  unfoldable pub validate_resume : ReplayCheckpoint → Task P ResumeValidation
  unfolding validate_observed
  validate_resume checkpoint w =
      elim (or_else (validate_inputs engine.fullmatch definition.inputs inputs) (
        or_else (validate_profile definition context.profile)
          (validate_checkpoint_identity definition checkpoint))) [
            | some reason ↦
                (some (validation false reason "Replay continuation state is invalid."), w)
            | none ↦
                and_then P
                  (observe P engine definition inputs context checkpoint.blocked_step_id
                    checkpoint.blocked_step_index)
                  (validate_observed checkpoint) w
          ]

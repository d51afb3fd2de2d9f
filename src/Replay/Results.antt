-- ===== src/Replay/Results.antt =====
-- replay/replay_engine.py: the results of a replay, and where a suspended one goes on.
use capability_runner.Prelude.{
  ℕ, suc, String, Bool, true, false, Option, none, some, List, [], ◌∷◌, if◌then◌else◌, get_elem?,
  Dict, insert,
}
use capability_runner.Contracts.Capabilities.{EvaluationSnapshot, ActionStep, CapabilityDefinition}
use capability_runner.Contracts.Replay.{
  succeeded, declared_outcome, failure, ReplayCheckpoint, ReplayResult,
}
use capability_runner.Evaluator.{
  holds, fails, unknown, ConditionEvaluation, runtime_input_missing, success, business_outcome,
  incomplete, undetermined, conflict, OutputValue, ExtractedOutput, OutputExtraction,
  evaluate_condition, evaluate_terminal_state, extract_outputs,
}

-- `_failure`
abbrev pub failed_at :
    String → String → String → Option String → ℕ → Option ReplayCheckpoint → ReplayResult
failed_at run_id reason summary step_id steps_attempted checkpoint = record {
  outcome = failure;
  run_id = run_id;
  outputs = [];
  business_outcome_code = none;
  reason_code = some reason;
  step_id = step_id;
  summary = summary;
  steps_attempted = steps_attempted;
  checkpoint = checkpoint;
}

-- `{item.name: item.value for item in outputs.outputs}`
unfoldable pub outputs_by_name : List ExtractedOutput → Dict OutputValue → Dict OutputValue
unfolding insert
outputs_by_name [] d = d
outputs_by_name (item ∷ outputs) d = outputs_by_name outputs (insert item.name item.value d)

-- The result of a replay whose success conditions hold.
unfoldable pub success_result : OutputExtraction → String → String → ℕ → ReplayResult
unfolding outputs_by_name
success_result extraction run_id step_id steps_attempted = elim extraction.issue [
  | some issue ↦
      failed_at run_id "OUTPUT_EXTRACTION_FAILED" "Declared outputs could not be extracted."
        (some step_id) steps_attempted none
  | none ↦ record {
    outcome = succeeded;
    run_id = run_id;
    outputs = outputs_by_name extraction.outputs [];
    business_outcome_code = none;
    reason_code = none;
    step_id = none;
    summary = "Declared success conditions were met.";
    steps_attempted = steps_attempted;
    checkpoint = none;
  }
]

-- `_terminal_result`
unfoldable pub terminal_result :
    CapabilityDefinition
    → EvaluationSnapshot
    → Dict String
    → String
    → String
    → ℕ
    → Option ReplayResult
terminal_result definition snapshot inputs run_id step_id steps_attempted =
    let verdict = evaluate_terminal_state definition snapshot inputs in
    elim verdict.state [
      | business_outcome ↦ some (record {
        outcome = declared_outcome;
        run_id = run_id;
        outputs = [];
        business_outcome_code = verdict.business_outcome_code;
        reason_code = none;
        step_id = none;
        summary = "Declared business outcome reached.";
        steps_attempted = steps_attempted;
        checkpoint = none;
      })
      | conflict ↦ some (
          failed_at run_id "TERMINAL_STATE_CONFLICT" "Declared terminal states conflict."
            (some step_id) steps_attempted none)
      | success ↦
          some (success_result (extract_outputs definition snapshot) run_id step_id steps_attempted)
      | incomplete ↦ none
      | undetermined ↦ none
    ]

-- Whether an evaluation could not be made for want of a runtime input.
unfoldable pub wants_input : ConditionEvaluation → Bool
wants_input evaluation = elim evaluation.issue [
  | none ↦ false
  | some issue ↦ elim issue.code [ runtime_input_missing ↦ true | _ ↦ false ]
]

-- Where a resumed replay starts, or its result where it need or may not start.
pub data Position : Type 0 where
  start_at : ℕ → Position
  finished : ReplayResult → Position

module _ (checkpoint : ReplayCheckpoint) (run_id : String) where
  abbrev pub refused_at : String → String → Position
  refused_at reason summary = finished (
      failed_at run_id reason summary (some checkpoint.blocked_step_id)
        checkpoint.blocked_step_index none)

  -- What the postcondition of the blocked step says of it.
  unfoldable pub position_by : ConditionEvaluation → Position
  position_by postcondition =
      if wants_input postcondition
      then refused_at "INVALID_INPUT" "Runtime input is missing."
      else elim postcondition.result [
        | unknown ↦
            refused_at "RESUME_STATE_UNVERIFIED"
              "Current state could not verify the blocked step postcondition."
        | holds ↦ start_at (suc checkpoint.blocked_step_index)
        | fails ↦ start_at checkpoint.blocked_step_index
      ]

  unfoldable pub blocked_position : ActionStep → EvaluationSnapshot → Dict String → Position
  blocked_position step snapshot inputs = elim step.postcondition [
    | none ↦
        refused_at "RESUME_STATE_UNVERIFIED"
          "Current state does not prove whether the blocked step was completed."
    | some condition ↦ position_by (evaluate_condition condition snapshot inputs)
  ]

  -- `_resume_position`; nothing where the index is outside the steps, which raises.
  unfoldable pub resume_position :
      CapabilityDefinition → EvaluationSnapshot → Dict String → Option Position
  resume_position definition snapshot inputs =
      elim (terminal_result definition snapshot inputs run_id checkpoint.blocked_step_id
        checkpoint.blocked_step_index) [
          | some result ↦ some (finished result)
          | none ↦ elim (get_elem? definition.steps checkpoint.blocked_step_index) [
            | none ↦ none
            | some step ↦ some (blocked_position step snapshot inputs)
          ]
        ]

-- ===== src/Evaluator.antt =====
-- replay/state_evaluator.py: `StateEvaluator`, which decides declared conditions and terminal states
-- on a snapshot and reads the declared outputs from it.
pub mod Parsing
pub mod Terminal
pub mod Outputs
use capability_runner.Prelude.{
  ℕ, ltb, length, String, ◌<>◌, Bool, true, false, Option, none, some, List, [], ◌∷◌, ◌++◌, map,
  ◌==◌, string_eq, find, any, ◌||◌, ◌&&◌, if◌then◌else◌, Dict, lookup, Result, ok, err, strip,
  contains_text, Eq,
}
use capability_runner.Contracts.Surfaces.{
  SemanticTargetRef, TargetValueRef, literal_value, input_value,
}
use capability_runner.Contracts.Capabilities.{
  ConditionSpec, target_visible, target_text_equals, target_text_contains, condition_target,
  ObservationState, visible, not_visible, unavailable, TargetObservation, EvaluationSnapshot,
  ValueType, string, integer, currency_code, OutputParser, parse_minor_units, parse_currency_code,
  parse_text, CapabilityOutput, BusinessOutcomeRule, CapabilityDefinition,
}
use Parsing.{parse_money, parse_code}

-- `ConditionResult`: TRUE, FALSE, UNKNOWN
pub data ConditionResult : Type 0 where
  holds fails unknown : ConditionResult

pub ConditionResult-discrete : Discrete ConditionResult
ConditionResult-discrete = hlevel

instance unfoldable pub condition_result_eq : Eq ConditionResult
unfolding ConditionResult-discrete
condition_result_eq = record { dec = ConditionResult-discrete }

pub data TerminalState : Type 0 where
  success business_outcome incomplete undetermined conflict : TerminalState

pub data EvaluationErrorCode : Type 0 where
  runtime_input_missing target_not_observed output_target_unavailable : EvaluationErrorCode
  output_text_missing output_parse_failed output_type_mismatch : EvaluationErrorCode
  terminal_state_conflict unsupported_parser : EvaluationErrorCode

pub record EvaluationIssue : Type 0 where
  pub code : EvaluationErrorCode
  pub summary : String

pub record ConditionEvaluation : Type 0 where
  pub result : ConditionResult
  pub issue : Option EvaluationIssue

pub record TerminalEvaluation : Type 0 where
  pub state : TerminalState
  pub success_conditions : ConditionResult
  pub business_outcome_code : Option String
  pub issue : Option EvaluationIssue

-- `str | int`
pub data OutputValue : Type 0 where
  text_value : String → OutputValue
  integer_value : ℕ → OutputValue

pub record ExtractedOutput : Type 0 where
  pub name : String
  pub value : OutputValue

pub record OutputExtraction : Type 0 where
  pub outputs : List ExtractedOutput
  pub issue : Option EvaluationIssue

abbrev pub evaluation : ConditionResult → ConditionEvaluation
evaluation result = record { result = result; issue = none }

abbrev pub issue_of : EvaluationErrorCode → String → EvaluationIssue
issue_of code summary = record { code = code; summary = summary }

-- `_find_observation`
unfoldable pub find_observation : String → EvaluationSnapshot → Option TargetObservation
find_observation target snapshot =
    find (λ item. item.target.value == target) snapshot.observed_targets

-- `_resolve_value`
unfoldable pub resolve_value : TargetValueRef → Dict String → Result EvaluationIssue String
resolve_value (literal_value value) inputs = ok (strip value)
resolve_value (input_value name) inputs = elim (lookup name inputs) [
  | none ↦ err (issue_of runtime_input_missing ("runtime input missing: " <> name))
  | some value ↦ ok (strip value)
]

abbrev pub truth : Bool → ConditionResult
truth b = if b then holds else fails

-- How the two conditions on text compare what is expected with what is observed.
abbrev pub compare_text : ConditionSpec → String → String → Bool
compare_text (target_text_contains target value) expected observed = contains_text observed expected
compare_text _ expected observed = observed == expected

-- The tests on text, once the target is known to be visible.
unfoldable pub evaluate_text :
    ConditionSpec → Result EvaluationIssue String → Option String → ConditionEvaluation
evaluate_text condition (err issue) text = record { result = unknown; issue = some issue }
evaluate_text condition (ok expected) none = evaluation unknown
evaluate_text condition (ok expected) (some text) =
    evaluation (truth (compare_text condition expected (strip text)))

unfoldable pub evaluate_observed :
    ConditionSpec → TargetObservation → Dict String → ConditionEvaluation
unfolding evaluate_text resolve_value
evaluate_observed (target_visible target) o inputs = elim o.state [
  | unavailable ↦ evaluation unknown
  | visible ↦ evaluation holds
  | not_visible ↦ evaluation fails
]
evaluate_observed (target_text_equals target expected) o inputs = elim o.state [
  | unavailable ↦ evaluation unknown
  | not_visible ↦ evaluation fails
  | visible ↦
      evaluate_text (target_text_equals target expected) (resolve_value expected inputs) o.text
]
evaluate_observed (target_text_contains target expected) o inputs = elim o.state [
  | unavailable ↦ evaluation unknown
  | not_visible ↦ evaluation fails
  | visible ↦
      evaluate_text (target_text_contains target expected) (resolve_value expected inputs) o.text
]

unfoldable pub evaluate_condition :
    ConditionSpec → EvaluationSnapshot → Dict String → ConditionEvaluation
unfolding find_observation evaluate_observed
evaluate_condition condition snapshot inputs =
    elim (find_observation (condition_target condition).value snapshot) [
      | none ↦ record {
        result = unknown;
        issue = some (issue_of target_not_observed "condition target not observed");
      }
      | some o ↦ evaluate_observed condition o inputs
    ]

abbrev pub evaluate_each :
    List ConditionSpec → EvaluationSnapshot → Dict String → List ConditionEvaluation
evaluate_each conditions snapshot inputs =
    map (λ c. evaluate_condition c snapshot inputs) conditions

-- The conjunction of evaluations: the first unknown one, if none is false.
unfoldable pub conjunction : List ConditionEvaluation → ConditionEvaluation
conjunction evaluations =
    if any (λ e. e.result == fails) evaluations
    then evaluation fails
    else elim (find (λ e. e.result == unknown) evaluations) [ some e ↦ e | none ↦ evaluation holds ]

-- `_all_conditions`
unfoldable pub all_conditions :
    List ConditionSpec → EvaluationSnapshot → Dict String → ConditionEvaluation
unfolding conjunction
all_conditions conditions snapshot inputs = conjunction (evaluate_each conditions snapshot inputs)

-- The codes of the business outcomes whose conditions all hold.
unfoldable pub outcome_codes :
    List BusinessOutcomeRule → EvaluationSnapshot → Dict String → List String
outcome_codes [] snapshot inputs = []
outcome_codes (rule ∷ rules) snapshot inputs =
    let rest = outcome_codes rules snapshot inputs in
    if (all_conditions rule.conditions snapshot inputs).result == holds
    then rule.code ∷ rest
    else rest

-- `_has_unknown_outcome`
unfoldable pub has_unknown_outcome : CapabilityDefinition → EvaluationSnapshot → Dict String → Bool
has_unknown_outcome definition snapshot inputs =
    any (λ rule. (all_conditions rule.conditions snapshot inputs).result == unknown)
      definition.business_outcomes

abbrev pub terminal : TerminalState → ConditionResult → Option String → TerminalEvaluation
terminal state met code = record {
  state = state;
  success_conditions = met;
  business_outcome_code = code;
  issue = none;
}

-- The verdict on the codes that hold, the success conditions and whether an outcome is unknown.
unfoldable pub terminal_verdict : List String → ConditionResult → Bool → TerminalEvaluation
terminal_verdict codes met uncertain =
    if ltb 1 (length codes) || (ltb 0 (length codes) && met == holds)
    then record {
      state = conflict;
      success_conditions = met;
      business_outcome_code = none;
      issue = some (issue_of terminal_state_conflict "declared terminal states conflict");
    }
    else elim codes [
      | code ∷ rest ↦ terminal business_outcome met (some code)
      | [] ↦
          if met == holds
          then terminal success met none
          else if met == unknown || uncertain
          then terminal undetermined met none
          else terminal incomplete met none
    ]

unfoldable pub evaluate_terminal_state :
    CapabilityDefinition → EvaluationSnapshot → Dict String → TerminalEvaluation
unfolding terminal_verdict
evaluate_terminal_state definition snapshot inputs =
    terminal_verdict (outcome_codes definition.business_outcomes snapshot inputs)
      (all_conditions definition.success_conditions snapshot inputs).result
      (has_unknown_outcome definition snapshot inputs)

-- `_parse_output`; a definition's parser is one of the three, so none is unsupported.
unfoldable pub parse_output : CapabilityOutput → String → Result EvaluationIssue OutputValue
parse_output output text = elim output.source.parser [
  | parse_text ↦ ok (text_value (strip text))
  | parse_minor_units ↦ elim (parse_money (strip text)) [
    | none ↦ err (issue_of output_parse_failed ("output parse failed: " <> output.name))
    | some n ↦ ok (integer_value n)
  ]
  | parse_currency_code ↦ elim (parse_code (strip text)) [
    | none ↦ err (issue_of output_parse_failed ("output parse failed: " <> output.name))
    | some letters ↦ ok (text_value letters)
  ]
]

-- `_matches_output_type`
unfoldable pub matches_output_type : ValueType → OutputValue → Bool
matches_output_type integer (integer_value n) = true
matches_output_type string (text_value s) = true
matches_output_type currency_code (text_value s) = true
matches_output_type _ _ = false

abbrev pub typed_output : CapabilityOutput → OutputValue → Result EvaluationIssue ExtractedOutput
typed_output output value =
    if matches_output_type output.value_type value
    then ok (record { name = output.name; value = value })
    else err (issue_of output_type_mismatch ("output type mismatch: " <> output.name))

-- The text that an observation offers to an output.
unfoldable pub output_text :
    CapabilityOutput → Option TargetObservation → Result EvaluationIssue String
output_text output none =
    err (issue_of output_target_unavailable ("output target unavailable: " <> output.name))
output_text output (some o) = elim o.state [
  | visible ↦ elim o.text [
    | none ↦ err (issue_of output_text_missing ("output text missing: " <> output.name))
    | some text ↦ ok text
  ]
  | other ↦ err (issue_of output_target_unavailable ("output target unavailable: " <> output.name))
]

-- One round of the loop of `extract_outputs`.
unfoldable pub extract_output :
    CapabilityOutput → EvaluationSnapshot → Result EvaluationIssue ExtractedOutput
unfolding output_text parse_output
extract_output output snapshot =
    elim (output_text output (find_observation output.source.target.value snapshot)) [
      | err issue ↦ err issue
      | ok text ↦ elim (parse_output output text) [
        | err issue ↦ err issue
        | ok value ↦ typed_output output value
      ]
    ]

unfoldable pub extract_loop :
    List CapabilityOutput → EvaluationSnapshot → List ExtractedOutput → OutputExtraction
unfolding extract_output
extract_loop [] snapshot extracted = record { outputs = extracted; issue = none }
extract_loop (output ∷ outputs) snapshot extracted = elim (extract_output output snapshot) [
  | err issue ↦ record { outputs = []; issue = some issue }
  | ok value ↦ extract_loop outputs snapshot (extracted ++ value ∷ [])
]

unfoldable pub extract_outputs : CapabilityDefinition → EvaluationSnapshot → OutputExtraction
unfolding extract_loop
extract_outputs definition snapshot = extract_loop definition.outputs snapshot []

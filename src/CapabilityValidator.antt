-- ===== src/CapabilityValidator.antt =====
-- capabilities/capability_validator.py: `CapabilityValidator.validate`.
pub mod Declarations
pub mod Supply
use capability_runner.Prelude.{
  ℕ, String, ◌<>◌, Bool, true, false, Option, none, some, List, [], ◌∷◌, ◌++◌, map, Result, ok, err,
  contains, string_eq, if◌then◌else◌, ltb,
}
use capability_runner.Contracts.Surfaces.{TargetValueRef, literal_value, input_value}
use capability_runner.Contracts.Capabilities.{
  ConditionSpec, target_visible, target_text_equals, target_text_contains, CapabilityInput,
  CapabilityActionTemplate, fill_template, click_template, ActionStep, BusinessOutcomeRule,
  CapabilityDefinition,
}

-- `_validate_unique`, behind the values seen so far
unfoldable pub unique_errors : String → List String → List String → List String
unique_errors label seen [] = []
unique_errors label seen (value ∷ values) =
    let rest = unique_errors label (value ∷ seen) values in
    if contains seen value then ("duplicate " <> label <> " name: " <> value) ∷ rest else rest

-- The errors of each item in turn
abbrev pub errors_of {ℓ} : {A : Type ℓ} → (A → List String) → List A → List String
errors_of check [] = []
errors_of check (x ∷ xs) = check x ++ errors_of check xs

module _ (input_names : List String) where
  -- `_validate_value_source`
  unfoldable pub value_errors : TargetValueRef → List String
  value_errors (literal_value value) = []
  value_errors (input_value name) =
      if contains input_names name then [] else ("unknown input reference: " <> name) ∷ []

  -- `_validate_condition`
  unfoldable pub condition_errors : ConditionSpec → List String
  unfolding value_errors
  condition_errors (target_visible target) = []
  condition_errors (target_text_equals target expected) = value_errors expected
  condition_errors (target_text_contains target expected) = value_errors expected

  abbrev pub optional_errors : Option ConditionSpec → List String
  optional_errors none = []
  optional_errors (some condition) = condition_errors condition

  abbrev pub action_errors : CapabilityActionTemplate → List String
  action_errors (fill_template target value) = value_errors value
  action_errors (click_template target) = []

  -- `_validate_step`
  unfoldable pub step_errors : ActionStep → List String
  unfolding condition_errors value_errors
  step_errors step =
      action_errors step.action
      ++ (optional_errors step.precondition ++ optional_errors step.postcondition)

  unfoldable pub outcome_errors : BusinessOutcomeRule → List String
  unfolding condition_errors
  outcome_errors outcome = errors_of condition_errors outcome.conditions

abbrev pub above : Option ℕ → Option ℕ → Bool
above (some least) (some most) = ltb most least
above _ _ = false

unfoldable pub length_errors : CapabilityInput → List String
length_errors item =
    if above item.min_length item.max_length
    then ("input " <> item.name <> " has min_length above max_length") ∷ []
    else []

abbrev pub success_errors : List ConditionSpec → List String
success_errors [] = "at least one success condition is required" ∷ []
success_errors (c ∷ cs) = []

unfoldable pub join_errors : List String → String
join_errors [] = ""
join_errors (e ∷ []) = e
join_errors (e ∷ f ∷ es) = e <> ("; " <> join_errors (f ∷ es))

-- The errors of a definition, in the order in which they are found.
unfoldable pub definition_errors : CapabilityDefinition → List String
unfolding unique_errors step_errors condition_errors outcome_errors length_errors
definition_errors definition =
    let input_names = map (λ item. item.name) definition.inputs in
    unique_errors "input" [] input_names
    ++ (unique_errors "output" [] (map (λ item. item.name) definition.outputs)
        ++ (unique_errors "step" [] (map (λ step. step.step_id) definition.steps)
            ++ (unique_errors "business outcome" []
                  (map (λ outcome. outcome.code) definition.business_outcomes)
                ++ (success_errors definition.success_conditions
                    ++ (errors_of (step_errors input_names) definition.steps
                        ++ (errors_of (condition_errors input_names) definition.success_conditions
                            ++ (errors_of (outcome_errors input_names) definition.business_outcomes
                                ++ errors_of length_errors definition.inputs)))))))

-- `validate`: the definition, or the text of a `CapabilityValidationError`
unfoldable pub validate : CapabilityDefinition → Result String CapabilityDefinition
unfolding definition_errors join_errors
validate definition = elim (definition_errors definition) [
  | [] ↦ ok definition
  | e ∷ es ↦ err (join_errors (e ∷ es))
]

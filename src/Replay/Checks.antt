-- ===== src/Replay/Checks.antt =====
-- replay/replay_engine.py: what a replay checks before it acts, and the targets that it observes.
use capability_runner.Prelude.{
  ℕ, suc, String, Bool, true, false, Option, none, some, List, [], ◌∷◌, ◌++◌, map, ◌==◌, string_eq,
  nat_eq, option_eq, not, ◌&&◌, ◌||◌, if◌then◌else◌, ltb, any, all, get_elem?, Dict, lookup, insert,
}
use Prim.Native.Char.{code}
use capability_runner.Contracts.Surfaces.{
  SemanticTargetRef, literal_value, input_value, ApplicationProfile,
}
use capability_runner.Contracts.Actions.{TargetSpec, ActionSpec, fill_action, click_action, left}
use capability_runner.Contracts.Capabilities.{
  ConditionSpec, condition_target, CapabilityInput, CapabilityActionTemplate, fill_template,
  click_template, template_target, ActionStep, BusinessOutcomeRule, CapabilityDefinition,
}
use capability_runner.Contracts.Replay.{ReplayCheckpoint}

-- The order of texts by their code points, for `sorted`.
unfoldable pub text_le : String → String → Bool
text_le String.[] t = true
text_le (String.◌∷◌ c s) String.[] = false
text_le (String.◌∷◌ c s) (String.◌∷◌ d t) =
    ltb (code c) (code d) || (code c == code d && text_le s t)

unfoldable pub place {ℓ} : {V : Type ℓ} → String × V → Dict V → Dict V
unfolding text_le
place entry [] = entry ∷ []
place entry (e ∷ d) =
    let rest = place entry d in if text_le entry.0 e.0 then entry ∷ e ∷ d else e ∷ rest

-- The items of a dict in the order of its keys.
unfoldable pub sorted_items {ℓ} : {V : Type ℓ} → Dict V → Dict V
unfolding place
sorted_items [] = []
sorted_items (entry ∷ d) = place entry (sorted_items d)

-- `sorted(runtime_inputs)`
unfoldable pub sorted_names : Dict String → List String
unfolding sorted_items
sorted_names inputs = map (λ entry. entry.0) (sorted_items inputs)

-- `targets[target.value] = target`, for each target in turn
unfoldable pub insert_targets :
    List SemanticTargetRef → Dict SemanticTargetRef → Dict SemanticTargetRef
unfolding insert
insert_targets [] targets = targets
insert_targets (target ∷ rest) targets = insert_targets rest (insert target.value target targets)

abbrev pub declared_target : Option ConditionSpec → List SemanticTargetRef
declared_target none = []
declared_target (some condition) = condition_target condition ∷ []

abbrev pub step_targets : List ActionStep → List SemanticTargetRef
step_targets [] = []
step_targets (step ∷ steps) =
    template_target step.action
    ∷ (declared_target step.precondition
        ++ (declared_target step.postcondition ++ step_targets steps))

abbrev pub outcome_targets : List BusinessOutcomeRule → List SemanticTargetRef
outcome_targets [] = []
outcome_targets (rule ∷ rules) = map condition_target rule.conditions ++ outcome_targets rules

-- The targets that a definition mentions, in the order in which the source stores them.
unfoldable pub mentioned_targets : CapabilityDefinition → List SemanticTargetRef
mentioned_targets definition =
    map (λ output. output.source.target) definition.outputs
    ++ (map condition_target definition.success_conditions
        ++ (outcome_targets definition.business_outcomes ++ step_targets definition.steps))

-- `_targets_for`
unfoldable pub targets_for : CapabilityDefinition → List SemanticTargetRef
unfolding mentioned_targets insert_targets sorted_items
targets_for definition =
    map (λ entry. entry.1) (sorted_items (insert_targets (mentioned_targets definition) []))

-- `re.fullmatch(pattern, value) is not None`
abbrev pub RegexLibrary : Type 0
RegexLibrary = String → String → Bool

abbrev pub text_length : String → ℕ
text_length String.[] = 0
text_length (String.◌∷◌ c s) = suc (text_length s)

abbrev pub under_minimum : Option ℕ → ℕ → Bool
under_minimum none n = false
under_minimum (some least) n = ltb n least

abbrev pub over_maximum : Option ℕ → ℕ → Bool
over_maximum none n = false
over_maximum (some most) n = ltb most n

abbrev pub off_pattern : RegexLibrary → Option String → String → Bool
off_pattern fullmatch none value = false
off_pattern fullmatch (some pattern) value = not (fullmatch pattern value)

-- The tests on the value of one input.
unfoldable pub input_invalid : RegexLibrary → CapabilityInput → String → Bool
input_invalid fullmatch item value =
    under_minimum item.min_length (text_length value)
    || over_maximum item.max_length (text_length value)
    || off_pattern fullmatch item.pattern value

unfoldable pub inputs_error : RegexLibrary → List CapabilityInput → Dict String → Option String
unfolding input_invalid
inputs_error fullmatch [] runtime_inputs = none
inputs_error fullmatch (item ∷ inputs) runtime_inputs =
    let rest = inputs_error fullmatch inputs runtime_inputs in
    elim (lookup item.name runtime_inputs) [
      | none ↦ if item.required then some "RUNTIME_INPUT_MISSING" else rest
      | some value ↦ if input_invalid fullmatch item value then some "INVALID_INPUT" else rest
    ]

-- `_validate_inputs`
unfoldable pub validate_inputs : RegexLibrary → List CapabilityInput → Dict String → Option String
unfolding inputs_error
validate_inputs fullmatch inputs runtime_inputs =
    if all (λ entry. any (λ item. item.name == entry.0) inputs) runtime_inputs
    then inputs_error fullmatch inputs runtime_inputs
    else some "INVALID_INPUT"

-- `_validate_profile`; the only kind of surface is a browser.
unfoldable pub validate_profile : CapabilityDefinition → ApplicationProfile → Option String
unfolding targets_for
validate_profile definition profile =
    if definition.application_requirement.application_family == profile.application_family
    then if all
        (λ target. any (λ item. item.semantic_target.value == target.value) profile.target_bindings)
        (targets_for definition)
      then none
      else some "TARGET_BINDING_MISSING"
    else some "PROFILE_INCOMPATIBLE"

-- Whether the step at the checkpoint's index is the blocked step.
abbrev pub is_blocked_step : ReplayCheckpoint → Option ActionStep → Bool
is_blocked_step checkpoint none = false
is_blocked_step checkpoint (some step) = step.step_id == checkpoint.blocked_step_id

-- `_validate_checkpoint_identity`
unfoldable pub validate_checkpoint_identity :
    CapabilityDefinition → ReplayCheckpoint → Option String
validate_checkpoint_identity definition checkpoint =
    if checkpoint.capability_id == definition.capability_id
      && checkpoint.capability_version == definition.capability_version
      && is_blocked_step checkpoint (get_elem? definition.steps checkpoint.blocked_step_index)
    then none
    else some "INVALID_REPLAY_CHECKPOINT"

abbrev pub filled : TargetSpec → Option String → Option ActionSpec
filled target none = none
filled target (some value) = some (fill_action target (record { secret_value = value }))

-- `_materialize`; there is no action where an input is missing, which raises.
unfoldable pub materialize : CapabilityActionTemplate → Dict String → TargetSpec → Option ActionSpec
materialize (fill_template t (literal_value value)) inputs target = filled target (some value)
materialize (fill_template t (input_value name)) inputs target = filled target (lookup name inputs)
materialize (click_template t) inputs target = some (click_action target left)

-- ===== src/Contracts/Capabilities.antt =====
-- contracts/capabilities.py, contracts/conditions.py and contracts/evaluation.py: capability
-- definitions, the conditions they declare, and the snapshots that conditions are evaluated on.
use capability_runner.Prelude.{ℕ, String, Bool, Option, List}
use capability_runner.Contracts.Surfaces.{SemanticTargetRef, TargetValueRef}

pub data ConditionSpec : Type 0 where
  target_visible : SemanticTargetRef → ConditionSpec
  target_text_equals : SemanticTargetRef → TargetValueRef → ConditionSpec
  target_text_contains : SemanticTargetRef → TargetValueRef → ConditionSpec

abbrev pub condition_target : ConditionSpec → SemanticTargetRef
condition_target (target_visible target) = target
condition_target (target_text_equals target expected) = target
condition_target (target_text_contains target expected) = target

pub data ObservationState : Type 0 where
  visible not_visible unavailable : ObservationState

pub record TargetObservation : Type 0 where
  pub target : SemanticTargetRef
  pub state : ObservationState
  pub text : Option String

pub record EvaluationSnapshot : Type 0 where
  pub observed_targets : List TargetObservation

pub data ValueType : Type 0 where
  string integer boolean decimal currency_code : ValueType

pub data OutputParser : Type 0 where
  parse_minor_units parse_currency_code parse_text : OutputParser

pub record ApplicationRequirement : Type 0 where
  pub application_family : String
  pub compatible_variant : Option String

pub record CapabilityInput : Type 0 where
  pub name : String
  pub value_type : ValueType
  pub required : Bool
  pub sensitive : Bool
  pub min_length : Option ℕ
  pub max_length : Option ℕ
  pub pattern : Option String

pub record TargetTextSource : Type 0 where
  pub target : SemanticTargetRef
  pub parser : OutputParser

pub record CapabilityOutput : Type 0 where
  pub name : String
  pub value_type : ValueType
  pub source : TargetTextSource

pub data CapabilityActionTemplate : Type 0 where
  fill_template : SemanticTargetRef → TargetValueRef → CapabilityActionTemplate
  click_template : SemanticTargetRef → CapabilityActionTemplate

abbrev pub template_target : CapabilityActionTemplate → SemanticTargetRef
template_target (fill_template target value) = target
template_target (click_template target) = target

abbrev pub template_kind : CapabilityActionTemplate → String
template_kind (fill_template target value) = "fill"
template_kind (click_template target) = "click"

pub record RetryPolicy : Type 0 where
  pub max_attempts : ℕ
  pub delay_ms : ℕ

pub record ActionStep : Type 0 where
  pub step_id : String
  pub action : CapabilityActionTemplate
  pub precondition : Option ConditionSpec
  pub postcondition : Option ConditionSpec
  pub retry_policy : Option RetryPolicy

pub record BusinessOutcomeRule : Type 0 where
  pub code : String
  pub description : String
  pub conditions : List ConditionSpec

pub record CapabilityDefinition : Type 0 where
  pub capability_id : String
  pub capability_version : String
  pub name : String
  pub description : String
  pub application_requirement : ApplicationRequirement
  pub inputs : List CapabilityInput
  pub outputs : List CapabilityOutput
  pub steps : List ActionStep
  pub success_conditions : List ConditionSpec
  pub business_outcomes : List BusinessOutcomeRule

-- ===== src/Contracts/Policy.antt =====
-- contracts/policy.py: policy definitions and decisions.
use capability_runner.Prelude.{
  ℕ, String, Bool, true, false, Option, List, [], ◌∷◌, Eq, string_dec, string_eq, contains,
  if◌then◌else◌,
}
use native.Mathlib.Decide.{ℕ_discrete}
use capability_runner.Contracts.Surfaces.{SemanticTargetRef}

-- `PolicyDecisionType` and `PolicyEffect`
pub data PolicyEffect : Type 0 where
  allow deny require_approval : PolicyEffect

pub data PolicyReasonCode : Type 0 where
  allowed_by_rule unknown_application action_not_allowed target_not_allowed : PolicyReasonCode
  destination_not_allowed approval_required malformed_action no_matching_rule : PolicyReasonCode

unfoldable pub reason_text : PolicyReasonCode → String
reason_text allowed_by_rule = "ALLOWED_BY_RULE"
reason_text unknown_application = "UNKNOWN_APPLICATION"
reason_text action_not_allowed = "ACTION_NOT_ALLOWED"
reason_text target_not_allowed = "TARGET_NOT_ALLOWED"
reason_text destination_not_allowed = "DESTINATION_NOT_ALLOWED"
reason_text approval_required = "APPROVAL_REQUIRED"
reason_text malformed_action = "MALFORMED_ACTION"
reason_text no_matching_rule = "NO_MATCHING_RULE"

-- `PolicyContext` and `TrustedApplicationProfile`
pub record PolicyContext : Type 0 where
  pub application : String
  pub profile : String

pub data Scheme : Type 0 where
  http https : Scheme

pub record AllowedDestination : Type 0 where
  pub scheme : Scheme
  pub hostname : String
  pub port : Option ℕ
  pub path : String

pub data PolicyRule : Type 0 where
  click_rule : String → PolicyEffect → SemanticTargetRef → PolicyRule
  fill_rule : String → PolicyEffect → SemanticTargetRef → PolicyRule
  navigate_rule : String → PolicyEffect → AllowedDestination → PolicyRule
  wait_rule : String → PolicyEffect → PolicyRule

abbrev pub rule_id : PolicyRule → String
rule_id (click_rule id effect target) = id
rule_id (fill_rule id effect target) = id
rule_id (navigate_rule id effect destination) = id
rule_id (wait_rule id effect) = id

abbrev pub rule_effect : PolicyRule → PolicyEffect
rule_effect (click_rule id effect target) = effect
rule_effect (fill_rule id effect target) = effect
rule_effect (navigate_rule id effect destination) = effect
rule_effect (wait_rule id effect) = effect

pub record PolicyDefinition : Type 0 where
  pub policy_id : String
  pub version : String
  pub allowed_contexts : List PolicyContext
  pub rules : List PolicyRule

pub record PolicyDecision : Type 0 where
  pub decision : PolicyEffect
  pub reason_code : PolicyReasonCode
  pub summary : String
  pub rule_id : Option String

-- The tuple that `_rule_key` returns.
pub data RuleKey : Type 0 where
  click_key : String → RuleKey
  fill_key : String → RuleKey
  navigate_key : Scheme → String → Option ℕ → String → RuleKey
  wait_key : RuleKey

option_nat_dec : Discrete (Option ℕ)
option_nat_dec = hlevel ℕ_discrete

pub RuleKey-discrete : Discrete RuleKey
RuleKey-discrete = hlevel (string_dec, option_nat_dec)

instance unfoldable pub rule_key_eq : Eq RuleKey
unfolding RuleKey-discrete option_nat_dec
rule_key_eq = record { dec = RuleKey-discrete }

unfoldable pub rule_key : PolicyRule → RuleKey
rule_key (click_rule id effect target) = click_key target.value
rule_key (fill_rule id effect target) = fill_key target.value
rule_key (navigate_rule id effect d) = navigate_key d.scheme d.hostname d.port d.path
rule_key (wait_rule id effect) = wait_key

-- The loop of `_validate_unique_rules`: false where it raises.
unfoldable pub unique_from : List RuleKey → List PolicyRule → Bool
unfolding rule_key
unique_from seen [] = true
unique_from seen (rule ∷ rules) =
    if contains seen (rule_key rule) then false else unique_from (rule_key rule ∷ seen) rules

unfoldable pub valid_definition : PolicyDefinition → Bool
unfolding unique_from
valid_definition definition = unique_from [] definition.rules

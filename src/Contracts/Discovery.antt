-- ===== src/Contracts/Discovery.antt =====
-- contracts/discovery.py, contracts/requests.py and discovery/model_client.py: what a discovery is
-- asked, what the model may decide, and what a discovery answers.
use capability_runner.Prelude.{ℕ, String, Option, List}
use capability_runner.Contracts.Actions.{TargetSpec}
use capability_runner.Contracts.Surfaces.{SemanticTargetRef}
use capability_runner.Contracts.Gateway.{GatewayOutcome}

pub data DiscoveryAction : Type 0 where
  discovery_fill : String → String → DiscoveryAction
  discovery_click : String → DiscoveryAction

pub record CompletionEvidence : Type 0 where
  pub target : String
  pub observed_text : String

pub data DiscoveryDecision : Type 0 where
  act_decision : DiscoveryAction → DiscoveryDecision
  complete_decision : List CompletionEvidence → DiscoveryDecision
  intervention_decision : String → DiscoveryDecision
  fail_decision : String → DiscoveryDecision

-- A span of the goal, from the first character to the one after the last.
pub record GoalSpanValueSource : Type 0 where
  pub start : ℕ
  pub stop : ℕ

pub record VerifiedCompletionEvidence : Type 0 where
  pub target : String
  pub text_fingerprint : String
  pub goal_span_action_target : Option String

pub data DecisionKind : Type 0 where
  act_kind complete_kind intervention_kind fail_kind invalid_kind : DecisionKind

pub data DiscoveryActionKind : Type 0 where
  fill_kind click_kind : DiscoveryActionKind

pub record DiscoveryTraceEntry : Type 0 where
  pub turn : ℕ
  pub decision_kind : DecisionKind
  pub action_kind : Option DiscoveryActionKind
  pub semantic_target : Option String
  pub value_source : Option GoalSpanValueSource
  pub gateway_outcome : Option GatewayOutcome
  pub observation_fingerprint : Option String
  pub outcome : String

pub data DiscoveryOutcome : Type 0 where
  success intervention_required failed : DiscoveryOutcome

-- `outcome.casefold()`
abbrev pub discovery_outcome_folded : DiscoveryOutcome → String
discovery_outcome_folded success = "success"
discovery_outcome_folded intervention_required = "intervention_required"
discovery_outcome_folded failed = "failed"

pub record DiscoveryResult : Type 0 where
  pub outcome : DiscoveryOutcome
  pub reason_code : String
  pub turns : ℕ
  pub actions : ℕ
  pub verified_targets : List String
  pub completion_evidence : List VerifiedCompletionEvidence
  pub trace : List DiscoveryTraceEntry

-- The seconds of the timeout, a float in the source, are counted in microseconds.
pub record DiscoveryRequest : Type 0 where
  pub goal : String
  pub target : TargetSpec
  pub max_steps : ℕ
  pub timeout_seconds : ℕ
  pub required_completion_targets : List SemanticTargetRef

pub data ModelErrorCode : Type 0 where
  authentication_error rate_limited timeout connection_error : ModelErrorCode
  invalid_response provider_error : ModelErrorCode

unfoldable pub model_error_text : ModelErrorCode → String
model_error_text authentication_error = "AUTHENTICATION_ERROR"
model_error_text rate_limited = "RATE_LIMITED"
model_error_text timeout = "TIMEOUT"
model_error_text connection_error = "CONNECTION_ERROR"
model_error_text invalid_response = "INVALID_RESPONSE"
model_error_text provider_error = "PROVIDER_ERROR"

pub record ModelRequest : Type 0 where
  pub system_content : String
  pub user_content : String
  pub max_tokens : ℕ

abbrev pub kind_text : DecisionKind → String
kind_text act_kind = "ACT"
kind_text complete_kind = "COMPLETE"
kind_text intervention_kind = "REQUEST_INTERVENTION"
kind_text fail_kind = "FAIL"
kind_text invalid_kind = "INVALID"

abbrev pub action_kind_text : DiscoveryActionKind → String
action_kind_text fill_kind = "fill"
action_kind_text click_kind = "click"

-- `decision.action.kind`
abbrev pub kind_of : DiscoveryAction → DiscoveryActionKind
kind_of (discovery_fill target value) = fill_kind
kind_of (discovery_click target) = click_kind

-- `decision.action.target`
abbrev pub target_of : DiscoveryAction → String
target_of (discovery_fill target value) = target
target_of (discovery_click target) = target

-- ===== src/Policy.antt =====
-- interaction/policy_guard.py: `PolicyGuard.evaluate`, which authorizes an action by the first
-- policy rule that matches it.
--
-- `urlsplit(str(url))` of a pydantic URL and `str.casefold` are library code, given as `UrlLibrary`.
pub mod Soundness
pub mod Uniqueness
pub mod Overlap
use capability_runner.Prelude.{
  ℕ, String, ◌<>◌, Bool, true, false, Option, none, some, List, ◌==◌, string_eq, nat_eq, option_eq,
  any, find, ◌&&◌, ◌||◌, is_some, not, if◌then◌else◌,
}
use capability_runner.Contracts.Actions.{
  HttpUrl, ActionSpec, click_action, fill_action, navigate_action, wait_action,
}
use capability_runner.Contracts.Surfaces.{SemanticTargetRef, semantic_target_ref_eq}
use capability_runner.Contracts.Policy.{
  PolicyEffect, allow, deny, require_approval, PolicyReasonCode, allowed_by_rule,
  unknown_application, action_not_allowed, target_not_allowed, destination_not_allowed,
  approval_required, PolicyContext, Scheme, http, https, AllowedDestination, PolicyRule, click_rule,
  fill_rule, navigate_rule, wait_rule, rule_id, rule_effect, PolicyDefinition, PolicyDecision,
}

pub record UrlParts : Type 0 where
  pub scheme : String
  pub username : Option String
  pub password : Option String
  pub hostname : Option String
  pub port : Option ℕ
  pub path : String

pub record UrlLibrary : Type 0 where
  pub urlsplit : HttpUrl → UrlParts
  pub casefold : String → String

abbrev pub scheme_text : Scheme → String
scheme_text http = "http"
scheme_text https = "https"

-- `_DEFAULT_PORTS.get(scheme)`
unfoldable pub default_port : String → Option ℕ
default_port scheme =
    if scheme == "http" then some 80 else if scheme == "https" then some 443 else none

abbrev pub or_default : Option ℕ → Option ℕ → Option ℕ
or_default none default = default
or_default (some port) default = some port

unfoldable pub destination_port : AllowedDestination → Option ℕ
unfolding default_port
destination_port d = or_default d.port (default_port (scheme_text d.scheme))

-- The name of the host, and nothing for a missing or an empty one.
abbrev pub nonempty : Option String → Option String
nonempty none = none
nonempty (some host) = if host == "" then none else some host

unfoldable pub destination_matches : UrlLibrary → AllowedDestination → HttpUrl → Bool
unfolding default_port destination_port
destination_matches lib d url =
    let parts = lib.urlsplit url in
    let scheme = lib.casefold parts.scheme in
    if not (scheme == "http" || scheme == "https")
    then false
    else if is_some parts.username || is_some parts.password
    then false
    else elim (nonempty parts.hostname) [
      | none ↦ false
      | some hostname ↦
          if not (lib.casefold hostname == d.hostname)
          then false
          else if not (or_default parts.port (default_port scheme) == destination_port d)
          then false
          else (if parts.path == "" then "/" else parts.path) == d.path
            && scheme == scheme_text d.scheme
    ]

-- The kind of thing that a rule is about: `subject`, and `subject.capitalize()`.
pub data Subject : Type 0 where
  click_target fill_target destination plain_action : Subject

abbrev pub subject_text : Subject → String
subject_text click_target = "click target"
subject_text fill_target = "fill target"
subject_text destination = "destination"
subject_text plain_action = "action"

abbrev pub capitalized : Subject → String
capitalized click_target = "Click target"
capitalized fill_target = "Fill target"
capitalized destination = "Destination"
capitalized plain_action = "Action"

unfoldable pub decision_by_effect : PolicyEffect → String → Subject → PolicyDecision
decision_by_effect allow id subject = record {
  decision = allow;
  reason_code = allowed_by_rule;
  summary = "Allowed by " <> subject_text subject <> " rule.";
  rule_id = some id;
}
decision_by_effect require_approval id subject = record {
  decision = require_approval;
  reason_code = approval_required;
  summary = capitalized subject <> " requires approval.";
  rule_id = some id;
}
decision_by_effect deny id subject = record {
  decision = deny;
  reason_code = action_not_allowed;
  summary = capitalized subject <> " is denied by policy.";
  rule_id = some id;
}

abbrev pub denial : PolicyReasonCode → String → PolicyDecision
denial code summary = record {
  decision = deny;
  reason_code = code;
  summary = summary;
  rule_id = none;
}

-- The tests of the four `_match_..._rule` loops.
abbrev pub is_click_rule : SemanticTargetRef → PolicyRule → Bool
is_click_rule wanted (click_rule id effect target) = target == wanted
is_click_rule wanted _ = false

abbrev pub is_fill_rule : SemanticTargetRef → PolicyRule → Bool
is_fill_rule wanted (fill_rule id effect target) = target == wanted
is_fill_rule wanted _ = false

abbrev pub is_navigate_rule : UrlLibrary → HttpUrl → PolicyRule → Bool
is_navigate_rule lib url (navigate_rule id effect d) = destination_matches lib d url
is_navigate_rule lib url _ = false

abbrev pub is_wait_rule : PolicyRule → Bool
is_wait_rule (wait_rule id effect) = true
is_wait_rule _ = false

unfoldable pub match_click_rule : PolicyDefinition → Option SemanticTargetRef → Option PolicyRule
match_click_rule definition none = none
match_click_rule definition (some target) = find (is_click_rule target) definition.rules

unfoldable pub match_fill_rule : PolicyDefinition → Option SemanticTargetRef → Option PolicyRule
match_fill_rule definition none = none
match_fill_rule definition (some target) = find (is_fill_rule target) definition.rules

unfoldable pub match_navigate_rule : UrlLibrary → PolicyDefinition → HttpUrl → Option PolicyRule
match_navigate_rule lib definition url = find (is_navigate_rule lib url) definition.rules

unfoldable pub match_wait_rule : PolicyDefinition → Option PolicyRule
match_wait_rule definition = find is_wait_rule definition.rules

unfoldable pub is_allowed_context : PolicyDefinition → PolicyContext → Bool
is_allowed_context definition context =
    any
      (λ allowed. allowed.application == context.application && allowed.profile == context.profile)
      definition.allowed_contexts

-- The decision of the rule that was found, or the denial for want of one.
unfoldable pub decision_from_rule :
    Option PolicyRule → PolicyReasonCode → String → Subject → PolicyDecision
unfolding decision_by_effect
decision_from_rule none code summary subject = denial code summary
decision_from_rule (some rule) code summary subject =
    decision_by_effect (rule_effect rule) (rule_id rule) subject

-- `evaluate` once the context is approved.
unfoldable pub evaluate_action :
    UrlLibrary → PolicyDefinition → ActionSpec → Option SemanticTargetRef → PolicyDecision
unfolding match_click_rule match_fill_rule match_navigate_rule match_wait_rule decision_from_rule
evaluate_action lib definition (click_action t button) target =
    decision_from_rule (match_click_rule definition target) target_not_allowed
      "Target is not allowed by policy." click_target
evaluate_action lib definition (fill_action t value) target =
    decision_from_rule (match_fill_rule definition target) target_not_allowed
      "Target is not allowed by policy." fill_target
evaluate_action lib definition (navigate_action url) target =
    decision_from_rule (match_navigate_rule lib definition url) destination_not_allowed
      "Destination is not allowed by policy." destination
evaluate_action lib definition (wait_action seconds) target =
    decision_from_rule (match_wait_rule definition) action_not_allowed
      "Action is not allowed by policy." plain_action

unfoldable pub evaluate :
    UrlLibrary
    → PolicyDefinition
    → ActionSpec
    → PolicyContext
    → Option SemanticTargetRef
    → PolicyDecision
unfolding is_allowed_context evaluate_action
evaluate lib definition action context target =
    if is_allowed_context definition context
    then evaluate_action lib definition action target
    else denial unknown_application "Application/profile is not approved."

-- ===== src/Examples/Policies.antt =====
-- interaction/policy_guard.py at a concrete policy and scope.
use capability_runner.Prelude.{ℕ, ◌≡◌, ◌≢◌, refl, Bool, true, false, none, some, List, arith}
use mathlib.Core.List.{Memᴰ}
use capability_runner.Contracts.Actions.{navigate_action}
use capability_runner.Contracts.Surfaces.{semantic_target_ref_eq}
use capability_runner.Contracts.Policy.{
  allow, deny, require_approval, https, AllowedDestination, click_rule, rule_key, unique_from,
  valid_definition,
}
use capability_runner.Policy.{
  destination_matches, destination_port, default_port, decision_by_effect, click_target,
  destination, is_allowed_context, decision_from_rule, evaluate_action, evaluate,
}
use capability_runner.Policy.Soundness.{Authority, evaluate_sound}
use capability_runner.Policy.Uniqueness.{covering_rule_decides}
use capability_runner.Policy.Overlap.{overlap, default_port_overlap}
use capability_runner.Examples.Fixtures.{
  bank_urls, bank_policy, bank_context, click_balance, balance,
}

allowed_click :
    (evaluate bank_urls (bank_policy allow) click_balance bank_context (some balance)).decision
    ≡ allow
unfolding evaluate evaluate_action is_allowed_context decision_from_rule
    capability_runner.Prelude.string_eq semantic_target_ref_eq
allowed_click = refl

evaluate_sound_example :
    (is_allowed_context (bank_policy allow) bank_context ≡ true)
    × Authority bank_urls
        (bank_policy allow)
        click_balance
        (some balance)
        (evaluate bank_urls (bank_policy allow) click_balance bank_context (some balance))
evaluate_sound_example =
    evaluate_sound bank_urls (bank_policy allow) click_balance bank_context (some balance)
      (λ denied. absurd (ground (arith, allowed_click)))

bank_policy-valid : valid_definition (bank_policy require_approval) ≡ true
unfolding valid_definition unique_from rule_key
bank_policy-valid = refl

bank_context-allowed : is_allowed_context (bank_policy require_approval) bank_context ≡ true
unfolding is_allowed_context capability_runner.Prelude.string_eq
bank_context-allowed = refl

covering_rule_decides_example :
    evaluate bank_urls (bank_policy require_approval) click_balance bank_context (some balance)
    ≡ decision_by_effect require_approval "click-balance" click_target
covering_rule_decides_example =
    covering_rule_decides bank_urls (bank_policy require_approval)
      (click_rule "click-balance" require_approval balance) click_balance bank_context
      (some balance) bank_policy-valid (tt, tt) bank_context-allowed (Memᴰ.head refl) refl

abbrev bank_home : AllowedDestination
bank_home = record { scheme = https; hostname = "bank.example"; port = none; path = "/" }

bank_home-matches : destination_matches bank_urls bank_home "https://bank.example/" ≡ true
unfolding destination_matches destination_port default_port capability_runner.Prelude.string_eq
    capability_runner.Prelude.option_eq capability_runner.Prelude.nat_eq
bank_home-matches = refl

default_port_overlap_example :
    (valid_definition (overlap "p" "1" bank_home bank_context allow deny true) ≡ true)
    × (valid_definition (overlap "p" "1" bank_home bank_context allow deny false) ≡ true)
    × (evaluate bank_urls
          (overlap "p" "1" bank_home bank_context allow deny true)
          (navigate_action "https://bank.example/")
          bank_context
          none
        ≡ decision_by_effect allow "plain" destination)
    × (evaluate bank_urls
          (overlap "p" "1" bank_home bank_context allow deny false)
          (navigate_action "https://bank.example/")
          bank_context
          none
        ≡ decision_by_effect deny "ported" destination)
default_port_overlap_example =
    default_port_overlap bank_urls "p" "1" bank_home bank_context allow deny "https://bank.example/"
      none refl bank_home-matches

-- ===== src/Policy/Soundness.antt =====
-- What an authorization rests on.
use capability_runner.Prelude.{
  ℕ, String, ◌≡◌, refl, ◌≢◌, Bool, true, false, Option, none, some, List, [], ◌∷◌, find, arith, sym,
}
use mathlib.Core.List.{Memᴰ}
use capability_runner.Contracts.Actions.{
  HttpUrl, TargetSpec, Button, SecretStr, ActionSpec, click_action, fill_action, navigate_action,
  wait_action,
}
use capability_runner.Contracts.Surfaces.{SemanticTargetRef, semantic_target_ref_eq}
use capability_runner.Contracts.Policy.{
  PolicyEffect, PolicyReasonCode, allow, deny, require_approval, PolicyContext, PolicyRule,
  click_rule, fill_rule, navigate_rule, wait_rule, rule_id, rule_effect, PolicyDefinition,
  PolicyDecision,
}
use capability_runner.Policy.{
  UrlLibrary, destination_matches, Subject, decision_by_effect, decision_from_rule, is_click_rule,
  is_fill_rule, is_navigate_rule, is_wait_rule, is_allowed_context, evaluate_action, evaluate,
}

-- What it is for a rule to be about an action on a target.
abbrev pub Covers : UrlLibrary → ActionSpec → Option SemanticTargetRef → PolicyRule → Type 0
Covers lib (click_action t button) target (click_rule id effect wanted) = target ≡ some wanted
Covers lib (fill_action t value) target (fill_rule id effect wanted) = target ≡ some wanted
Covers lib (navigate_action url) target (navigate_rule id effect d) =
    destination_matches lib d url ≡ true
Covers lib (wait_action seconds) target (wait_rule id effect) = Unit
Covers lib action target rule = ⊥

-- The rule that `find` returns is in the list and passes the test.
pub find-some {ℓ} :
    {A : Type ℓ} (test : A → Bool) (xs : List A) (a : A)
    → find test xs ≡ some a
    → Memᴰ a xs × (test a ≡ true)
find-some test [] a e = cc
find-some {A} test (x ∷ xs) a e = go (test x) refl (find-some test xs a)
  where
    go :
        (b : Bool)
        → test x ≡ b
        → (find test xs ≡ some a → Memᴰ a xs × (test a ≡ true))
        → Memᴰ a (x ∷ xs) × (test a ≡ true)
    go true passes ih = let same : x ≡ a = ground arith in (Memᴰ.head (sym same), ground arith)
    go false fails ih = let (m, t) = ih (ground arith) in (Memᴰ.tail m, t)

-- A rule of the definition about this action and target, with the effect and the identifier that the
-- decision reports.
pub record Authority (lib : UrlLibrary) (definition : PolicyDefinition) (action : ActionSpec)
    (target : Option SemanticTargetRef) (decision : PolicyDecision) : Type 0 where
  pub rule : PolicyRule
  pub declared : Memᴰ rule definition.rules
  pub covers : Covers lib action target rule
  pub effect : rule_effect rule ≡ decision.decision
  pub named : decision.rule_id ≡ some (rule_id rule)

module _ (lib : UrlLibrary) (definition : PolicyDefinition) (action : ActionSpec)
    (target : Option SemanticTargetRef) where
  -- A rule that a lookup by `test` has found.
  found-Authority :
      (test : PolicyRule → Bool) (found : Option PolicyRule) (code : PolicyReasonCode)
      (summary : String) (subject : Subject)
      → find test definition.rules ≡ found
      → ((rule : PolicyRule) → test rule ≡ true → Covers lib action target rule)
      → (decision_from_rule found code summary subject).decision ≢ deny
      → Authority lib definition action target (decision_from_rule found code summary subject)
  unfolding decision_from_rule
  found-Authority test none code summary subject e covers h = absurd (h refl)
  found-Authority test (some rule) code summary subject e covers h =
      let (m, t) = find-some test definition.rules rule e in
      record {
        rule = rule;
        declared = m;
        covers = covers rule t;
        effect = effect_kept (rule_effect rule);
        named = name_kept (rule_effect rule);
      }
    where
      effect_kept : (e : PolicyEffect) → e ≡ (decision_by_effect e (rule_id rule) subject).decision
      effect_kept allow = refl
      effect_kept deny = refl
      effect_kept require_approval = refl

      name_kept :
          (e : PolicyEffect)
          → (decision_by_effect e (rule_id rule) subject).rule_id ≡ some (rule_id rule)
      name_kept allow = refl
      name_kept deny = refl
      name_kept require_approval = refl

-- A rule that passes its kind's test is about the action and the target.
module _ (lib : UrlLibrary) where
  pub click-Covers :
      (t : TargetSpec) (button : Button) (wanted : SemanticTargetRef) (rule : PolicyRule)
      → is_click_rule wanted rule ≡ true
      → Covers lib (click_action t button) (some wanted) rule
  click-Covers t button wanted (click_rule id effect target) e = ground arith
  click-Covers t button wanted _ e = absurd (cc)

  pub fill-Covers :
      (t : TargetSpec) (value : SecretStr) (wanted : SemanticTargetRef) (rule : PolicyRule)
      → is_fill_rule wanted rule ≡ true
      → Covers lib (fill_action t value) (some wanted) rule
  fill-Covers t value wanted (fill_rule id effect target) e = ground arith
  fill-Covers t value wanted _ e = absurd (cc)

  pub navigate-Covers :
      (url : HttpUrl) (target : Option SemanticTargetRef) (rule : PolicyRule)
      → is_navigate_rule lib url rule ≡ true
      → Covers lib (navigate_action url) target rule
  navigate-Covers url target (navigate_rule id effect d) e = e
  navigate-Covers url target _ e = absurd (cc)

  pub wait-Covers :
      (seconds : ℕ) (target : Option SemanticTargetRef) (rule : PolicyRule)
      → is_wait_rule rule ≡ true
      → Covers lib (wait_action seconds) target rule
  wait-Covers seconds target (wait_rule id effect) e = tt
  wait-Covers seconds target _ e = absurd (cc)

  action-Authority :
      (definition : PolicyDefinition) (action : ActionSpec) (target : Option SemanticTargetRef)
      → (evaluate_action lib definition action target).decision ≢ deny
      → Authority lib definition action target (evaluate_action lib definition action target)
  unfolding evaluate_action
  action-Authority definition (click_action t button) none h = absurd (h refl)
  action-Authority definition (click_action t button) (some w) h =
      found-Authority lib definition (click_action t button) (some w) (is_click_rule w) _ _ _ _ refl
        (click-Covers t button w) h
  action-Authority definition (fill_action t value) none h = absurd (h refl)
  action-Authority definition (fill_action t value) (some w) h =
      found-Authority lib definition (fill_action t value) (some w) (is_fill_rule w) _ _ _ _ refl
        (fill-Covers t value w) h
  action-Authority definition (navigate_action url) target h =
      found-Authority lib definition (navigate_action url) target (is_navigate_rule lib url) _ _ _ _
        refl (navigate-Covers url target) h
  action-Authority definition (wait_action seconds) target h =
      found-Authority lib definition (wait_action seconds) target is_wait_rule _ _ _ _ refl
        (wait-Covers seconds target) h

  -- The guard fails closed. A decision other than a denial is given only in an approved context, and
  -- on the authority of a rule of the policy that covers the action and its target, that has the
  -- effect decided, and whose identifier the decision reports.
  pub evaluate_sound :
      (definition : PolicyDefinition) (action : ActionSpec) (context : PolicyContext)
      (target : Option SemanticTargetRef)
      → (evaluate lib definition action context target).decision ≢ deny
      → (is_allowed_context definition context ≡ true)
        × Authority lib definition action target (evaluate lib definition action context target)
  unfolding evaluate
  evaluate_sound definition action context target h =
      go (is_allowed_context definition context) refl
    where
      go :
          (b : Bool)
          → is_allowed_context definition context ≡ b
          → (is_allowed_context definition context ≡ true)
            × Authority lib definition action target (evaluate lib definition action context target)
      go true e = (e, rw e (action-Authority definition action target (λ denied. h (rw e denied))))
      go false e = absurd (h (rw e))

-- ===== src/Policy/Uniqueness.antt =====
-- When the order of a policy's rules does not matter, and when it does.
use mathlib.Core.List.{Memᴰ}
use mathlib.Core.Bool.{false≢true}
use text.Mathlib.TextEquality.{eq_iff}
use capability_runner.Prelude.{
  ℕ, ◌≡◌, ◌≢◌, refl, sym, ap, ◌∙◌, Bool, true, false, Option, none, some, List, [], ◌∷◌, find, All,
  contains, nat_eq, option_eq, string_eq, arith, subst,
}
use capability_runner.Contracts.Actions.{
  HttpUrl, TargetSpec, Button, SecretStr, ActionSpec, click_action, fill_action, navigate_action,
  wait_action,
}
use capability_runner.Contracts.Surfaces.{SemanticTargetRef, semantic_target_ref_eq}
use capability_runner.Contracts.Policy.{
  PolicyContext, Scheme, http, https, AllowedDestination, PolicyRule, click_rule, fill_rule,
  navigate_rule, wait_rule, rule_id, rule_effect, PolicyDefinition, RuleKey, rule_key_eq, rule_key,
  unique_from, valid_definition,
}
use capability_runner.Policy.{
  UrlLibrary, default_port, or_default, scheme_text, destination_port, destination_matches, Subject,
  click_target, fill_target, destination, plain_action, decision_by_effect, is_click_rule,
  is_fill_rule, match_click_rule, match_fill_rule, is_navigate_rule, is_wait_rule,
  is_allowed_context, evaluate_action, evaluate,
}
use capability_runner.Policy.Soundness.{Covers}

contains-cons :
    (a b : RuleKey) (seen : List RuleKey) → contains seen b ≡ true → contains (a ∷ seen) b ≡ true
contains-cons a b seen h = ground arith

contains_self : (a : RuleKey) (seen : List RuleKey) → contains (a ∷ seen) a ≡ true
contains_self a seen = ground arith

-- No rule of a list that passes the check has a key seen before it.
unique-unseen :
    (seen : List RuleKey) (rules : List PolicyRule) (rule : PolicyRule)
    → unique_from seen rules ≡ true
    → Memᴰ rule rules
    → contains seen (rule_key rule) ≡ false
unfolding unique_from
unique-unseen seen [] rule u m = elim m [ ]
unique-unseen seen (x ∷ rules) rule u (Memᴰ.head same) = rw same (ground arith)
unique-unseen seen (x ∷ rules) rule u (Memᴰ.tail m) =
    ground (arith, unique-unseen (rule_key x ∷ seen) rules rule (ground arith) m)

unique-tail :
    (seen : List RuleKey) (x : PolicyRule) (rules : List PolicyRule)
    → unique_from seen (x ∷ rules) ≡ true
    → unique_from (rule_key x ∷ seen) rules ≡ true
unfolding unique_from
unique-tail seen x rules u = ground arith

-- Where rules that pass a test have one key, the test finds the one rule that passes it. The rules
-- may be known to satisfy `P`.
unique-find :
    (P : PolicyRule → Type 0) (test : PolicyRule → Bool)
    → ((a b : PolicyRule) → P a → P b → test a ≡ true → test b ≡ true → rule_key a ≡ rule_key b)
    → (seen : List RuleKey) (rules : List PolicyRule) (rule : PolicyRule) → All P rules
    → P rule
    → unique_from seen rules ≡ true
    → Memᴰ rule rules
    → test rule ≡ true
    → find test rules ≡ some rule
unique-find P test same seen [] rule all p u m t = elim m [ ]
unique-find P test same seen (x ∷ rules) rule all p u (Memᴰ.head e) t = ground arith
unique-find P test same seen (x ∷ rules) rule all p u (Memᴰ.tail m) t = ground (
  arith,
  same x rule all.0 p,
  unique-unseen (rule_key x ∷ seen) rules rule (unique-tail seen x rules u) m,
  contains_self (rule_key rule) seen,
  unique-find P test same (rule_key x ∷ seen) rules rule all.1 p (unique-tail seen x rules u) m t,
)

-- Two rules that cover a click, a fill or a wait have one key.
module _ (wanted : SemanticTargetRef) where
  click-same :
      (a b : PolicyRule)
      → is_click_rule wanted a ≡ true
      → is_click_rule wanted b ≡ true
      → rule_key a ≡ rule_key b
  unfolding rule_key
  click-same (click_rule i e s) (click_rule j f t) h k = ground arith
  click-same (click_rule i e s) _ h k = absurd (cc)
  click-same _ _ h k = absurd (cc)

  fill-same :
      (a b : PolicyRule)
      → is_fill_rule wanted a ≡ true
      → is_fill_rule wanted b ≡ true
      → rule_key a ≡ rule_key b
  unfolding rule_key
  fill-same (fill_rule i e s) (fill_rule j f t) h k = ground arith
  fill-same (fill_rule i e s) _ h k = absurd (cc)
  fill-same _ _ h k = absurd (cc)

wait-same :
    (a b : PolicyRule) → is_wait_rule a ≡ true → is_wait_rule b ≡ true → rule_key a ≡ rule_key b
unfolding rule_key
wait-same (wait_rule i e) (wait_rule j f) h k = refl
wait-same (wait_rule i e) _ h k = absurd (cc)
wait-same _ _ h k = absurd (cc)

-- No destination of the rule writes out its scheme's default port.
abbrev pub IsPlain : PolicyRule → Type 0
IsPlain (navigate_rule id effect d) = d.port ≢ default_port (scheme_text d.scheme)
IsPlain rule = Unit

-- Two destinations that match one URL agree on everything but how they write the port.
destinations-agree :
    (lib : UrlLibrary) (url : HttpUrl) (d e : AllowedDestination)
    → destination_matches lib d url ≡ true
    → destination_matches lib e url ≡ true
    → (scheme_text d.scheme ≡ scheme_text e.scheme)
      × (d.hostname ≡ e.hostname)
      × (d.path ≡ e.path)
      × (destination_port d ≡ destination_port e)
unfolding destination_matches
destinations-agree lib url d e h k = ground arith

scheme-agree : (s t : Scheme) → scheme_text s ≡ scheme_text t → s ≡ t
scheme-agree http http e = refl
scheme-agree https https e = refl
scheme-agree http https e = absurd (false≢true ((eq_iff "http" "https").1 e))
scheme-agree https http e = absurd (false≢true ((eq_iff "https" "http").1 e))

ports_of_default :
    (p q default : Option ℕ)
    → p ≢ default
    → q ≢ default
    → or_default p default ≡ or_default q default
    → p ≡ q
ports_of_default none none default h k e = refl
ports_of_default none (some b) default h k e = absurd (k (sym e))
ports_of_default (some a) none default h k e = absurd (h e)
ports_of_default (some a) (some b) default h k e = e

ports-agree :
    (d e : AllowedDestination)
    → d.scheme ≡ e.scheme
    → d.port ≢ default_port (scheme_text d.scheme)
    → e.port ≢ default_port (scheme_text e.scheme)
    → destination_port d ≡ destination_port e
    → d.port ≡ e.port
unfolding destination_port
ports-agree d e same p q agree =
    ports_of_default d.port e.port (default_port (scheme_text d.scheme)) p
      (subst (λ s. e.port ≢ default_port (scheme_text s)) (sym same) q)
      (agree ∙ ap (λ s. or_default e.port (default_port (scheme_text s))) (sym same))

navigate-same :
    (lib : UrlLibrary) (url : HttpUrl) (a b : PolicyRule)
    → IsPlain a
    → IsPlain b
    → is_navigate_rule lib url a ≡ true
    → is_navigate_rule lib url b ≡ true
    → rule_key a ≡ rule_key b
unfolding rule_key
navigate-same lib url (navigate_rule i e s) (navigate_rule j f t) p q h k =
    let (schemes, hosts, paths, ports) = destinations-agree lib url s t h k in
    let scheme : s.scheme ≡ t.scheme = scheme-agree s.scheme t.scheme schemes in
    ground (arith, scheme, hosts, paths, ports-agree s t scheme p q ports)
navigate-same lib url (navigate_rule i e s) _ p q h k = absurd (cc)
navigate-same lib url _ _ p q h k = absurd (cc)

abbrev pub subject_of : ActionSpec → Subject
subject_of (click_action t button) = click_target
subject_of (fill_action t value) = fill_target
subject_of (navigate_action url) = destination
subject_of (wait_action seconds) = plain_action

-- A rule about a click or a fill names the target.
click-tested :
    (lib : UrlLibrary) (t : TargetSpec) (button : Button) (target : Option SemanticTargetRef)
    (rule : PolicyRule)
    → Covers lib (click_action t button) target rule
    → (w : SemanticTargetRef) × (target ≡ some w) × (is_click_rule w rule ≡ true)
click-tested lib t button target (click_rule i e s) c = (s, c, ground arith)
click-tested lib t button target _ c = absurd c

fill-tested :
    (lib : UrlLibrary) (t : TargetSpec) (value : SecretStr) (target : Option SemanticTargetRef)
    (rule : PolicyRule)
    → Covers lib (fill_action t value) target rule
    → (w : SemanticTargetRef) × (target ≡ some w) × (is_fill_rule w rule ≡ true)
fill-tested lib t value target (fill_rule i e s) c = (s, c, ground arith)
fill-tested lib t value target _ c = absurd c

navigate-tested :
    (lib : UrlLibrary) (url : HttpUrl) (target : Option SemanticTargetRef) (rule : PolicyRule)
    → Covers lib (navigate_action url) target rule
    → is_navigate_rule lib url rule ≡ true
navigate-tested lib url target (navigate_rule i e d) c = c
navigate-tested lib url target _ c = absurd c

wait-tested :
    (lib : UrlLibrary) (seconds : ℕ) (target : Option SemanticTargetRef) (rule : PolicyRule)
    → Covers lib (wait_action seconds) target rule
    → is_wait_rule rule ≡ true
wait-tested lib seconds target (wait_rule i e) c = refl
wait-tested lib seconds target _ c = absurd c

All-Unit : (rules : List PolicyRule) → All (λ rule. Unit {0}) rules
All-Unit [] = tt
All-Unit (x ∷ rules) = (tt, All-Unit rules)

All-mem :
    (P : PolicyRule → Type 0) (rules : List PolicyRule) (rule : PolicyRule)
    → All P rules
    → Memᴰ rule rules
    → P rule
All-mem P [] rule all m = elim m [ ]
All-mem P (x ∷ rules) rule all (Memᴰ.head e) = subst P (sym e) all.0
All-mem P (x ∷ rules) rule all (Memᴰ.tail m) = All-mem P rules rule all.1 m

module _ (lib : UrlLibrary) (definition : PolicyDefinition) (rule : PolicyRule) where
  rule_decides :
      (action : ActionSpec) (target : Option SemanticTargetRef)
      → valid_definition definition ≡ true
      → All IsPlain definition.rules
      → Memᴰ rule definition.rules
      → Covers lib action target rule
      → evaluate_action lib definition action target
        ≡ decision_by_effect (rule_effect rule) (rule_id rule) (subject_of action)
  unfolding evaluate_action valid_definition
  rule_decides (click_action t button) target valid all m c =
      let (w, same, tested) = click-tested lib t button target rule c in
      rw (
        same,
        match_click_rule,
        unique-find (λ r. Unit {0}) (is_click_rule w) (λ a b _ _. click-same w a b) []
            definition.rules rule (All-Unit definition.rules) tt valid m tested,
      )
  rule_decides (fill_action t value) target valid all m c =
      let (w, same, tested) = fill-tested lib t value target rule c in
      rw (
        same,
        match_fill_rule,
        unique-find (λ r. Unit {0}) (is_fill_rule w) (λ a b _ _. fill-same w a b) []
            definition.rules rule (All-Unit definition.rules) tt valid m tested,
      )
  rule_decides (navigate_action url) target valid all m c = rw (
      unique-find IsPlain (is_navigate_rule lib url) (navigate-same lib url) [] definition.rules
        rule all (All-mem IsPlain definition.rules rule all m) valid m
        (navigate-tested lib url target rule c))
  rule_decides (wait_action seconds) target valid all m c = rw (
      unique-find (λ r. Unit {0}) is_wait_rule (λ a b _ _. wait-same a b) [] definition.rules rule
        (All-Unit definition.rules) tt valid m (wait-tested lib seconds target rule c))

  -- In a policy that the contract accepts, and whose destinations leave default ports unwritten, any
  -- rule that covers an action decides it in an approved context, wherever the rule stands.
  pub covering_rule_decides :
      (action : ActionSpec) (context : PolicyContext) (target : Option SemanticTargetRef)
      → valid_definition definition ≡ true
      → All IsPlain definition.rules
      → is_allowed_context definition context ≡ true
      → Memᴰ rule definition.rules
      → Covers lib action target rule
      → evaluate lib definition action context target
        ≡ decision_by_effect (rule_effect rule) (rule_id rule) (subject_of action)
  unfolding evaluate
  covering_rule_decides action context target valid all allowed m c =
      rw allowed (rule_decides action target valid all m c)

-- ===== src/Policy/Overlap.antt =====
-- Two navigation rules that are one to the guard and two to the contract.
use capability_runner.Prelude.{
  String, ◌≡◌, ◌≢◌, Bool, true, false, Option, none, [], ◌∷◌, if◌then◌else◌, arith,
}
use capability_runner.Contracts.Actions.{HttpUrl, navigate_action}
use capability_runner.Contracts.Surfaces.{SemanticTargetRef}
use capability_runner.Contracts.Policy.{
  PolicyEffect, PolicyContext, Scheme, http, https, AllowedDestination, navigate_rule,
  PolicyDefinition, valid_definition,
}
use capability_runner.Policy.{
  UrlLibrary, default_port, scheme_text, destination_port, destination_matches, destination,
  decision_by_effect, evaluate,
}

abbrev pub ported : AllowedDestination → AllowedDestination
ported d = record d { port = default_port (scheme_text d.scheme) }

default_port-some : (s : Scheme) → none ≢ default_port (scheme_text s)
unfolding default_port
default_port-some http e = ground arith
default_port-some https e = ground arith

ported_port :
    (d : AllowedDestination) → d.port ≡ none → destination_port (ported d) ≡ destination_port d
unfolding destination_port
ported_port d unwritten = ground arith

matches-ported :
    (lib : UrlLibrary) (d : AllowedDestination) (url : HttpUrl)
    → d.port ≡ none
    → destination_matches lib d url ≡ true
    → destination_matches lib (ported d) url ≡ true
unfolding destination_matches
matches-ported lib d url unwritten matches = ground (arith, ported_port d unwritten)

-- Two rules on one destination, the second of which writes out the default port.
abbrev pub overlap :
    String
    → String
    → AllowedDestination
    → PolicyContext
    → PolicyEffect
    → PolicyEffect
    → (first_plain : Bool) → PolicyDefinition
overlap policy version d context plain other first_plain = record {
  policy_id = policy;
  version = version;
  allowed_contexts = context ∷ [];
  rules =
      let a = navigate_rule "plain" plain d in
      let b = navigate_rule "ported" other (ported d) in
      if first_plain then a ∷ b ∷ [] else b ∷ a ∷ [];
}

-- The check for duplicate rules does not see that a destination with no port and the same one with its
-- scheme's default port are one: the contract accepts both rules in one policy, in either order, and
-- the one that stands first decides every URL that matches.
pub default_port_overlap :
    (lib : UrlLibrary) (policy version : String) (d : AllowedDestination) (context : PolicyContext)
    (plain other : PolicyEffect) (url : HttpUrl) (target : Option SemanticTargetRef)
    → d.port ≡ none
    → destination_matches lib d url ≡ true
    → (valid_definition (overlap policy version d context plain other true) ≡ true)
      × (valid_definition (overlap policy version d context plain other false) ≡ true)
      × (evaluate lib
            (overlap policy version d context plain other true)
            (navigate_action url)
            context
            target
          ≡ decision_by_effect plain "plain" destination)
      × (evaluate lib
            (overlap policy version d context plain other false)
            (navigate_action url)
            context
            target
          ≡ decision_by_effect other "ported" destination)
unfolding valid_definition evaluate
default_port_overlap lib policy version d context plain other url target unwritten matches =
    ground (arith, default_port-some d.scheme, matches-ported lib d url unwritten matches)

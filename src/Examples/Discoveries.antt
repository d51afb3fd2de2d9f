-- ===== src/Examples/Discoveries.antt =====
-- discovery/discovery_engine.py on a concrete request, with a model that cites what it sees.
use capability_runner.Prelude.{
  ℕ, String, ◌≡◌, refl, Bool, true, false, Option, none, some, List, [], ◌∷◌, map, ok, err, All,
  any, lookup, insert, contains, ◌-◌,
}
use capability_runner.Contracts.Actions.{profile_target}
use capability_runner.Contracts.Discovery.{
  discovery_fill, kind_of, act_decision, act_kind, DiscoveryTraceEntry, failed, complete_decision,
  CompletionEvidence, VerifiedCompletionEvidence, DiscoveryResult, DiscoveryRequest, success,
  complete_kind, GoalSpanValueSource,
}
use capability_runner.Contracts.Policy.{allow}
use capability_runner.Contracts.Gateway.{denied}
use capability_runner.Gateway.{execute}
use capability_runner.Discovery.Decisions.{
  validate_action, verified_completion_evidence, current_texts, goal_span_source,
}
use capability_runner.Discovery.Texts.{take_text, drop_text}
use capability_runner.Discovery.Variables.{DiscoveryEngine, returned, result, plain_entry}
use capability_runner.Discovery.{discover}
use capability_runner.Discovery.Invariants.{SupportedAs, Within}
use capability_runner.Discovery.Guarantees.{discover-Within, discover-Supported}
use capability_runner.Discovery.Grounding.{Shown, quotes, verified-Shown, validated-goal_span}
use capability_runner.Examples.Fixtures.{
  bank_ports, bank_world, bank_gateway, bank_run, balance, balance_shows,
}

abbrev cites_twelve : List CompletionEvidence
cites_twelve = record { target = "balance"; observed_text = "12" } ∷ []

-- A model that answers at once, and a hash that keeps the text.
abbrev explorer : DiscoveryEngine bank_ports
explorer = record {
  complete = λ request w. (some (ok "done"), w);
  collect = λ session profile targets w. (some (balance_shows "12"), w);
  strikes = λ await w. none;
  parse = λ text. some (complete_decision cites_twelve);
  dumps = λ v. "payload";
  dumps_compact = λ v. "state";
  sha256 = λ t. t;
  gateway = bank_gateway allow;
  records = true;
}

abbrev find_twelve : DiscoveryRequest
find_twelve = record {
  goal = "Find the balance of 12";
  target = profile_target "bank" "v1" none;
  max_steps = 20;
  timeout_seconds = 300;
  required_completion_targets = balance ∷ [];
}

abbrev twelve_verified : List VerifiedCompletionEvidence
twelve_verified =
    record { target = "balance"; text_fingerprint = "12"; goal_span_action_target = none } ∷ []

abbrev twelve_found : DiscoveryResult
twelve_found =
    result success "COMPLETED" 1 0 (plain_entry 1 complete_kind "state" "VERIFIED" ∷ [])
      twelve_verified

discovered-twelve_found :
    (discover bank_ports explorer find_twelve bank_run bank_world).0 ≡ returned twelve_found
unfolding discover capability_runner.Prelude.string_eq capability_runner.Prelude.begins_with
    capability_runner.Prelude.strip capability_runner.Prelude.nat_eq verified_completion_evidence
    capability_runner.Prelude.option_eq lookup capability_runner.Prelude.contains_text
    capability_runner.Discovery.Decisions.snapshot_fingerprint
discovered-twelve_found = refl

-- A model that wants to type what the goal asks for, where the policy lets it only click
abbrev typist : DiscoveryEngine bank_ports
typist = record explorer { parse = λ text. some (act_decision (discovery_fill "balance" "12")) }

abbrev typed_entry : DiscoveryTraceEntry
typed_entry = record {
  turn = 1;
  decision_kind = act_kind;
  action_kind = some (kind_of (discovery_fill "balance" "12"));
  semantic_target = some "balance";
  value_source = some (record { start = 20; stop = 22 });
  gateway_outcome = some denied;
  observation_fingerprint = some "state";
  outcome = "TARGET_NOT_ALLOWED";
}

abbrev typing_denied : DiscoveryResult
typing_denied = result failed "POLICY_DENIED" 1 1 (typed_entry ∷ []) []

discovered-typing_denied :
    (discover bank_ports typist find_twelve bank_run bank_world).0 ≡ returned typing_denied
unfolding discover capability_runner.Prelude.string_eq capability_runner.Prelude.begins_with
    capability_runner.Prelude.strip capability_runner.Prelude.nat_eq validate_action
    capability_runner.Prelude.option_eq lookup capability_runner.Prelude.contains_text
    capability_runner.Discovery.Decisions.snapshot_fingerprint goal_span_source execute
    capability_runner.Gateway.Results.find_binding
    capability_runner.Contracts.Surfaces.semantic_target_ref_eq
    capability_runner.Discovery.Decisions.gateway_request capability_runner.Gateway.check_scope
    capability_runner.Gateway.authorize capability_runner.Gateway.Results.record_policy_decision
    capability_runner.Gateway.follow capability_runner.Gateway.decide
    capability_runner.Policy.evaluate capability_runner.Contracts.Policy.reason_text
discovered-typing_denied = refl

discover-Within_example : Within bank_ports typist find_twelve bank_run typing_denied
discover-Within_example =
    discover-Within bank_ports typist find_twelve bank_run bank_world typing_denied
      discovered-typing_denied

discover-Supported_example :
    SupportedAs bank_ports explorer find_twelve bank_run twelve_found.outcome twelve_found
discover-Supported_example =
    discover-Supported bank_ports explorer find_twelve bank_run bank_world twelve_found
      discovered-twelve_found

verified_here :
    verified_completion_evidence
      (λ t. t)
      cites_twelve
      (balance_shows "12")
      find_twelve.goal
      ("balance" ∷ [])
      []
    ≡ some twelve_verified
unfolding verified_completion_evidence capability_runner.Prelude.string_eq
    capability_runner.Prelude.option_eq lookup insert capability_runner.Prelude.contains_text
    capability_runner.Prelude.nat_eq
verified_here = refl

verified-Shown_example :
    (map (λ e. e.target) twelve_verified ≡ map (λ e. e.target) cites_twelve)
    × All (Shown (balance_shows "12") ("balance" ∷ [])) cites_twelve
    × (any (quotes find_twelve.goal) cites_twelve ≡ true)
verified-Shown_example =
    verified-Shown (λ t. t) (balance_shows "12") find_twelve.goal ("balance" ∷ []) [] cites_twelve
      twelve_verified verified_here

fill_allowed :
    validate_action (discovery_fill "balance" "12") find_twelve.goal ("balance" ∷ []) ≡ none
unfolding validate_action capability_runner.Prelude.string_eq
    capability_runner.Prelude.contains_text capability_runner.Prelude.nat_eq
fill_allowed = refl

validated-goal_span_example :
    (span : GoalSpanValueSource) × (goal_span_source
        (discovery_fill "balance" "12")
        find_twelve.goal
      ≡ some span)
    × (take_text (span.stop - span.start) (drop_text span.start find_twelve.goal) ≡ "12")
validated-goal_span_example =
    validated-goal_span find_twelve.goal "balance" "12" ("balance" ∷ []) fill_allowed

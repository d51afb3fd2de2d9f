-- ===== src/Discovery/Guarantees.antt =====
-- discovery/discovery_engine.py: what every result of a discovery satisfies.
use capability_runner.Prelude.{
  ℕ, zero, suc, ◌+◌, ◌≤◌, min, String, ◌≡◌, subst, none, [], arith, string_eq,
}
use capability_runner.Contracts.Discovery.{failed, DiscoveryResult, DiscoveryRequest}
use capability_runner.Contracts.Gateway.{GatewayExecutionContext}
use capability_runner.Ports.{Ports, World}
use capability_runner.Discovery.Decisions.{is_subset}
use capability_runner.Discovery.Variables.{
  DiscoveryEngine, Ended, returned, timed_out, raised, Progress, first_progress, max_turns, result,
}
use capability_runner.Discovery.Turns.{finish, trusted_targets, required_targets}
use capability_runner.Discovery.{take_turns, discover_bounded, completed, after_discovery, discover}
use capability_runner.Discovery.Invariants.{
  SupportedAs, Within, Fine, EndsFine, Ends, Kept, if-Ends, log-Ends,
}
use capability_runner.Discovery.Rounds.{take_turn-Ends}

min_left : (a b : ℕ) → min a b ≤ a
min_left a b = omega arith

min_right : (a b : ℕ) → min a b ≤ b
min_right a b = omega arith

module _ (P : Ports) (engine : DiscoveryEngine P) (request : DiscoveryRequest)
    (context : GatewayExecutionContext) where
  take_turns-Ends :
      (remaining turn : ℕ) (p : Progress)
      → turn + remaining ≡ suc (min request.max_steps max_turns)
      → Kept P engine request context turn p
      → Ends P engine request context (take_turns P engine request context remaining turn p)
  unfolding take_turns
  take_turns-Ends zero turn p e k = λ w. record {
    within = record {
      turns_max = min_right request.max_steps max_turns;
      steps_max = min_left request.max_steps max_turns;
      actions_max = k.actions_max;
      entries = omega (arith, k.entries, e);
      acts = k.acts;
      counted = k.counted;
    };
    allowed = k.allowed;
    supported = tt;
  }
  take_turns-Ends (suc remaining) turn p e k =
      take_turn-Ends P engine request context turn p
        (take_turns P engine request context remaining (suc turn)) k
        (record {
          turn_max = omega (arith, e, min_right request.max_steps max_turns);
          turn_steps = omega (arith, e, min_left request.max_steps max_turns);
        })
        (λ p' k'. take_turns-Ends remaining (suc turn) p' (omega (arith, e)) k')

  empty-Fine : (reason : String) → Fine P engine request context (result failed reason 0 0 [] [])
  empty-Fine reason = record {
    within = record {
      turns_max = omega arith;
      steps_max = omega arith;
      actions_max = omega arith;
      entries = omega arith;
      acts = omega arith;
      counted = omega arith;
    };
    allowed = tt;
    supported = tt;
  }

  discover_bounded-Ends : Ends P engine request context (discover_bounded P engine request context)
  unfolding discover_bounded
  discover_bounded-Ends =
      if-Ends P engine request context
        (is_subset (required_targets P engine request context)
          (trusted_targets P engine request context))
        (take_turns P engine request context (min request.max_steps max_turns) 1 first_progress)
        (finish P engine request context failed "REQUIRED_COMPLETION_TARGET_UNKNOWN" 0
          first_progress [])
        (λ _.
          take_turns-Ends (min request.max_steps max_turns) 1 first_progress (omega arith) (record {
            turn_max = omega arith;
            turn_steps = omega arith;
            actions_max = omega arith;
            entries = omega arith;
            acts = omega arith;
            counted = omega arith;
            allowed = tt;
          }))
        (λ _ w. empty-Fine "REQUIRED_COMPLETION_TARGET_UNKNOWN")

  completed-Ends :
      (r : DiscoveryResult)
      → Fine P engine request context r
      → Ends P engine request context (completed P engine request context r)
  unfolding completed
  completed-Ends r h = log-Ends P engine request context _ _ _ none (λ w. (returned r, w)) (λ w. h)

  after_discovery-Fine :
      (o : Ended × World P)
      → EndsFine P engine request context o.0
      → EndsFine P engine request context (after_discovery P engine request context o).0
  unfolding after_discovery
  after_discovery-Fine (returned r, w) h = completed-Ends r h w
  after_discovery-Fine (timed_out, w) h = completed-Ends _ (empty-Fine "DISCOVERY_TIMEOUT") w
  after_discovery-Fine (raised, w) h = tt

  discover-Ends : Ends P engine request context (discover P engine request context)
  unfolding discover
  discover-Ends =
      log-Ends P engine request context _ _ _ none
        (λ w.
          after_discovery P engine request context (discover_bounded P engine request context w))
        (λ w. after_discovery-Fine _ (discover_bounded-Ends w))

  discover-Fine :
      (w : World P) (r : DiscoveryResult)
      → (discover P engine request context w).0 ≡ returned r
      → Fine P engine request context r
  discover-Fine w r e = subst (EndsFine P engine request context) e (discover-Ends w)

  -- Whatever the model answers, a discovery is bounded: its result has at most 12 turns and no more
  -- than the request allows, at most 8 actions, and no more trace entries than turns; and its
  -- number of actions is that of the entries of its trace for actions that the gateway was asked for.
  pub discover-Within :
      (w : World P) (r : DiscoveryResult)
      → (discover P engine request context w).0 ≡ returned r
      → Within P engine request context r
  discover-Within w r e = (discover-Fine w r e).within

  -- A discovery succeeds only with evidence. Where a result is a success, the model was asked about a
  -- snapshot that the collector had taken, and answered with citations. Each of them repeats the text
  -- that this very snapshot shows at a trusted target, and one is a non-empty part of the goal; the
  -- result's evidence is of their targets, which include every required one; and the trace ends with
  -- the fingerprint of that snapshot.
  pub discover-Supported :
      (w : World P) (r : DiscoveryResult)
      → (discover P engine request context w).0 ≡ returned r
      → SupportedAs P engine request context r.outcome r
  discover-Supported w r e = (discover-Fine w r e).supported

-- ===== src/Discovery/Rounds.antt =====
-- discovery/discovery_engine.py: every turn keeps the invariant, or ends in a result that satisfies
-- it.
use capability_runner.Prelude.{
  ℕ, String, ◌≡◌, refl, Option, none, some, [], Result, ok, err, arith, string_eq,
}
use capability_runner.Contracts.Capabilities.{EvaluationSnapshot}
use capability_runner.Contracts.Discovery.{
  DiscoveryDecision, act_decision, complete_decision, intervention_decision, fail_decision,
  intervention_kind, fail_kind, intervention_required, failed, DiscoveryRequest, ModelErrorCode,
}
use capability_runner.Contracts.Gateway.{GatewayExecutionContext}
use capability_runner.Ports.{Ports, World}
use capability_runner.Discovery.Variables.{
  consulting, collecting, DiscoveryEngine, Progress, plain_entry,
}
use capability_runner.Discovery.Turns.{Turn, target_refs, fingerprint_of, decide}
use capability_runner.Discovery.{answered, consulted, consult, observed, take_turn}
use capability_runner.Discovery.Invariants.{
  Observed, Answered, question, EndsFine, Ends, Kept, Onward, InLoop, log-Ends, same-Fine,
  snoc-Fine,
}
use capability_runner.Discovery.Upkeep.{reject-Ends, complete_with-Ends, act-Ends}

module _ (P : Ports) (engine : DiscoveryEngine P) (request : DiscoveryRequest)
    (context : GatewayExecutionContext) where
  decide-Ends :
      (turn : ℕ) (snapshot : EvaluationSnapshot) (p : Progress) (decision : DiscoveryDecision)
      (next : Progress → Turn P engine request context)
      → Observed P engine request context snapshot
      → Answered P engine request context
          (question P engine request context snapshot turn p.trace p.repair_code)
          decision
      → Kept P engine request context turn p
      → InLoop P engine request context turn
      → Onward P engine request context turn next
      → Ends P engine request context
          (decide P engine request context turn snapshot p decision next)
  unfolding decide
  decide-Ends turn snapshot p (act_decision action) next seen told k l onward =
      act-Ends P engine request context turn snapshot p action next k l onward
  decide-Ends turn snapshot p (complete_decision evidence) next seen told k l onward =
      complete_with-Ends P engine request context turn snapshot p evidence _ next seen told refl k l
        onward
  decide-Ends turn snapshot p (intervention_decision reason) next seen told k l onward = λ w.
      snoc-Fine P engine request context turn p intervention_required reason
        (plain_entry turn intervention_kind (fingerprint_of P engine request context snapshot)
          "INTERVENTION_REQUESTED")
        [] k l refl refl tt
  decide-Ends turn snapshot p (fail_decision reason) next seen told k l onward = λ w.
      snoc-Fine P engine request context turn p failed reason
        (plain_entry turn fail_kind (fingerprint_of P engine request context snapshot)
          "MODEL_DECLARED_FAILURE")
        [] k l refl refl tt

  answered-Ends :
      (turn : ℕ) (snapshot : EvaluationSnapshot) (p : Progress) (o : Option DiscoveryDecision)
      (next : Progress → Turn P engine request context)
      → Observed P engine request context snapshot
      → ((decision : DiscoveryDecision)
          → o ≡ some decision
          → Answered P engine request context
              (question P engine request context snapshot turn p.trace p.repair_code)
              decision)
      → Kept P engine request context turn p
      → InLoop P engine request context turn
      → Onward P engine request context turn next
      → Ends P engine request context (answered P engine request context turn snapshot p o next)
  unfolding answered
  answered-Ends turn snapshot p none next seen told k l onward =
      reject-Ends P engine request context turn snapshot p _ _ next k l onward
  answered-Ends turn snapshot p (some decision) next seen told k l onward =
      log-Ends P engine request context _ _ _ _
        (decide P engine request context turn snapshot p decision next)
        (decide-Ends turn snapshot p decision next seen (told decision refl) k l onward)

  consulted-Ends :
      (turn : ℕ) (snapshot : EvaluationSnapshot) (p : Progress)
      (o : Option (Result ModelErrorCode String)) (next : Progress → Turn P engine request context)
      (w : World P)
      → (engine.complete
          (question P engine request context snapshot turn p.trace p.repair_code)
          w).0
        ≡ o
      → Observed P engine request context snapshot
      → Kept P engine request context turn p
      → InLoop P engine request context turn
      → Onward P engine request context turn next
      → Ends P engine request context (consulted P engine request context turn snapshot p o next)
  unfolding consulted
  consulted-Ends turn snapshot p none next v e seen k l onward = λ w. tt
  consulted-Ends turn snapshot p (some (err code)) next v e seen k l onward =
      λ w. same-Fine P engine request context turn p failed _ k l (λ q. ground arith)
  consulted-Ends turn snapshot p (some (ok content)) next v e seen k l onward =
      answered-Ends turn snapshot p _ next seen (λ decision f. (v, (content, e, f))) k l onward

  consult-Ends :
      (turn : ℕ) (snapshot : EvaluationSnapshot) (p : Progress)
      (next : Progress → Turn P engine request context)
      → Observed P engine request context snapshot
      → Kept P engine request context turn p
      → InLoop P engine request context turn
      → Onward P engine request context turn next
      → Ends P engine request context (consult P engine request context turn snapshot p next)
  unfolding consult
  consult-Ends turn snapshot p next seen k l onward w = go (engine.strikes consulting w) refl
    where
      go :
          (o : Option (World P))
          → engine.strikes consulting w ≡ o
          → EndsFine P engine request context
              (consult P engine request context turn snapshot p next w).0
      go (some w') e = rw (consult, e) tt
      go none e = rw (consult, e) (consulted-Ends turn snapshot p _ next w refl seen k l onward _)

  observed-Ends :
      (turn : ℕ) (p : Progress) (o : Option EvaluationSnapshot)
      (next : Progress → Turn P engine request context) (w : World P)
      → (engine.collect context.surface_session context.profile
          (target_refs P engine request context)
          w).0
        ≡ o
      → Kept P engine request context turn p
      → InLoop P engine request context turn
      → Onward P engine request context turn next
      → Ends P engine request context (observed P engine request context turn p o next)
  unfolding observed
  observed-Ends turn p none next v e k l onward = λ w. record {
    within = record {
      turns_max = omega (arith, l.turn_max);
      steps_max = omega (arith, l.turn_steps);
      actions_max = k.actions_max;
      entries = omega (arith, k.entries);
      acts = k.acts;
      counted = k.counted;
    };
    allowed = k.allowed;
    supported = tt;
  }
  observed-Ends turn p (some snapshot) next v e k l onward =
      log-Ends P engine request context _ _ _ _
        (consult P engine request context turn snapshot p next)
        (consult-Ends turn snapshot p next (v, e) k l onward)

  pub take_turn-Ends :
      (turn : ℕ) (p : Progress) (next : Progress → Turn P engine request context)
      → Kept P engine request context turn p
      → InLoop P engine request context turn
      → Onward P engine request context turn next
      → Ends P engine request context (take_turn P engine request context turn p next)
  unfolding take_turn
  take_turn-Ends turn p next k l onward w = go (engine.strikes collecting w) refl
    where
      go :
          (o : Option (World P))
          → engine.strikes collecting w ≡ o
          → EndsFine P engine request context (take_turn P engine request context turn p next w).0
      go (some w') e = rw (take_turn, e) tt
      go none e = rw (take_turn, e) (observed-Ends turn p _ next w refl k l onward _)

-- ===== src/Discovery/Upkeep.antt =====
-- discovery/discovery_engine.py: what a turn does with a decision keeps the
-- invariant, or ends in a result that satisfies it.
use capability_runner.Prelude.{
  ℕ, suc, ◌≤◌, String, ◌≡◌, ◌≢◌, refl, false, Option, none, some, List, [], ◌∷◌, ◌++◌, map, arith,
  leb, string_eq, if◌then◌else◌, ◌==◌, ◌&&◌,
}
use capability_runner.Contracts.Capabilities.{EvaluationSnapshot}
use capability_runner.Contracts.Discovery.{
  DiscoveryAction, complete_decision, target_of, kind_of, CompletionEvidence,
  VerifiedCompletionEvidence, act_kind, complete_kind, invalid_kind, DiscoveryTraceEntry,
  DiscoveryOutcome, success, intervention_required, failed, DiscoveryRequest,
}
use capability_runner.Contracts.Gateway.{
  GatewayExecutionContext, GatewayResult, GatewayOutcome, executed, denied, approval_required,
}
use capability_runner.Ports.{Ports, World}
use capability_runner.Discovery.Decisions.{
  validate_action, verified_completion_evidence, is_subset, goal_span_source, gateway_request,
  same_proposal, was_seen, snapshot_key,
}
use capability_runner.Gateway.{execute}
use capability_runner.Discovery.Variables.{
  acting, DiscoveryEngine, returned, Progress, max_actions, max_invalid_responses, result,
  plain_entry,
}
use capability_runner.Discovery.Turns.{
  Turn, finish, trusted_targets, required_targets, fingerprint_of, reject, complete_with, acted,
  after_action, perform, act,
}
use capability_runner.Discovery.Grounding.{verified-Shown}
use capability_runner.Discovery.Invariants.{
  Observed, Answered, question, validated-AllowedAct, Allowed, Fine, EndsFine, Ends, Kept, Onward,
  InLoop, if-Fine, if-Ends, same-Fine, snoc-Fine, snoc-Kept, unsupported,
}

module _ (P : Ports) (engine : DiscoveryEngine P) (request : DiscoveryRequest)
    (context : GatewayExecutionContext) where
  pub reject-Ends :
      (turn : ℕ) (snapshot : EvaluationSnapshot) (p : Progress) (code final_code : String)
      (next : Progress → Turn P engine request context)
      → Kept P engine request context turn p
      → InLoop P engine request context turn
      → Onward P engine request context turn next
      → Ends P engine request context
          (reject P engine request context turn snapshot p code final_code next)
  unfolding reject
  reject-Ends turn snapshot p code final_code next k l onward w =
      let e =
        plain_entry turn invalid_kind (fingerprint_of P engine request context snapshot) code in
      let p' : Progress = record p {
        trace = p.trace ++ e ∷ [];
        invalid_responses = suc p.invalid_responses;
        repair_code = some code;
      } in
      let a : Allowed P engine request context e = refl in
      if-Fine P engine request context (leb max_invalid_responses p'.invalid_responses)
        (finish P engine request context failed final_code turn p' p'.trace w) (next p' w)
        (λ _. snoc-Fine P engine request context turn p failed final_code e [] k l a refl tt)
        (λ _.
          onward p'
            (snoc-Kept P engine request context turn p p' e k l a refl k.actions_max (omega arith))
            w)

  pub complete_with-Ends :
      (turn : ℕ) (snapshot : EvaluationSnapshot) (p : Progress) (evidence : List CompletionEvidence)
      (o : Option (List VerifiedCompletionEvidence))
      (next : Progress → Turn P engine request context)
      → Observed P engine request context snapshot
      → Answered P engine request context
          (question P engine request context snapshot turn p.trace p.repair_code)
          (complete_decision evidence)
      → verified_completion_evidence engine.sha256 evidence snapshot request.goal
          (trusted_targets P engine request context)
          p.executed_goal_values
        ≡ o
      → Kept P engine request context turn p
      → InLoop P engine request context turn
      → Onward P engine request context turn next
      → Ends P engine request context
          (complete_with P engine request context turn snapshot p o next)
  unfolding complete_with
  complete_with-Ends turn snapshot p evidence none next seen told e k l onward =
      reject-Ends turn snapshot p _ _ next k l onward
  complete_with-Ends turn snapshot p evidence (some v) next seen told e k l onward =
      let entry =
        plain_entry turn complete_kind (fingerprint_of P engine request context snapshot)
          "VERIFIED" in
      let proved =
        verified-Shown engine.sha256 snapshot request.goal
          (trusted_targets P engine request context) p.executed_goal_values evidence v e in
      let a : Allowed P engine request context entry = refl in
      if-Ends P engine request context
        (is_subset (required_targets P engine request context) (map (λ e. e.target) v))
        (λ w. (returned (result success "COMPLETED" turn p.actions (p.trace ++ entry ∷ []) v), w))
        (reject P engine request context turn snapshot p "COMPLETION_EVIDENCE_MISSING"
          "COMPLETION_EVIDENCE_MISSING" next)
        (λ covers w.
          snoc-Fine P engine request context turn p success "COMPLETED" entry v k l a refl (record {
            snapshot = snapshot;
            citations = evidence;
            before = p.trace;
            repair_code = p.repair_code;
            seen = seen;
            told = told;
            logged_last = refl;
            cited = proved.0;
            shown = proved.1;
            quoted = proved.2;
            covers = covers;
          }))
        (λ _. reject-Ends turn snapshot p _ _ next k l onward)

  finished-Fine :
      (turn : ℕ) (p : Progress) (outcome : DiscoveryOutcome) (reason : String)
      → Kept P engine request context (suc turn) p
      → InLoop P engine request context turn
      → outcome ≢ success
      → Fine P engine request context (result outcome reason turn p.actions p.trace [])
  finished-Fine turn p outcome reason k l n = record {
    within = record {
      turns_max = l.turn_max;
      steps_max = l.turn_steps;
      actions_max = k.actions_max;
      entries = omega (arith, k.entries);
      acts = k.acts;
      counted = k.counted;
    };
    allowed = k.allowed;
    supported = unsupported P engine request context outcome n _;
  }

  after_action-Ends :
      (turn : ℕ) (p : Progress) (g : GatewayResult)
      (next : Progress → Turn P engine request context)
      → Kept P engine request context (suc turn) p
      → InLoop P engine request context turn
      → Onward P engine request context turn next
      → Ends P engine request context (after_action P engine request context turn p g next)
  unfolding after_action
  after_action-Ends turn p g next k l onward = go g.outcome refl
    where
      go :
          (o : GatewayOutcome)
          → g.outcome ≡ o
          → Ends P engine request context (after_action P engine request context turn p g next)
      go executed e = rw (after_action, e) (onward p k)
      go denied e =
          rw (after_action, e)
            (λ w. finished-Fine turn p failed "POLICY_DENIED" k l (λ q. ground arith))
      go approval_required e =
          rw (after_action, e)
            (λ w.
              finished-Fine turn p intervention_required "APPROVAL_REQUIRED" k l
                (λ q. ground arith))
      go GatewayOutcome.failed e =
          rw (after_action, e)
            (if-Ends P engine request context
              (g.reason_code == "ACTION_EFFECT_OCCURRED_EVIDENCE_FAILED")
              (finish P engine request context intervention_required "ACTION_EFFECT_UNCERTAIN" turn
                p p.trace)
              (finish P engine request context failed "ACTION_FAILED" turn p p.trace)
              (λ _ w.
                finished-Fine turn p intervention_required "ACTION_EFFECT_UNCERTAIN" k l
                  (λ q. ground arith))
              (λ _ w. finished-Fine turn p failed "ACTION_FAILED" k l (λ q. ground arith)))

  perform-Ends :
      (turn : ℕ) (snapshot : EvaluationSnapshot) (p : Progress) (action : DiscoveryAction)
      (next : Progress → Turn P engine request context)
      → validate_action action request.goal (trusted_targets P engine request context) ≡ none
      → suc p.actions ≤ 8
      → Kept P engine request context turn p
      → InLoop P engine request context turn
      → Onward P engine request context turn next
      → Ends P engine request context (perform P engine request context turn snapshot p action next)
  unfolding perform acted
  perform-Ends turn snapshot p action next v room k l onward w = go (engine.strikes acting w) refl
    where
      answer : GatewayResult × World P
      answer =
          execute P engine.gateway (gateway_request action request turn (suc p.actions)) context w

      entry : DiscoveryTraceEntry
      entry = record {
        turn = turn;
        decision_kind = act_kind;
        action_kind = some (kind_of action);
        semantic_target = some (target_of action);
        value_source = goal_span_source action request.goal;
        gateway_outcome = some answer.0.outcome;
        observation_fingerprint = some (fingerprint_of P engine request context snapshot);
        outcome = answer.0.reason_code;
      }

      go :
          (o : Option (World P))
          → engine.strikes acting w ≡ o
          → EndsFine P engine request context
              (perform P engine request context turn snapshot p action next w).0
      go (some w') e = rw (perform, e) tt
      go none e =
          let p' = acted P engine request context turn snapshot p action answer.0 in
          let allowed : Allowed P engine request context entry =
            validated-AllowedAct P engine request context action entry v refl refl refl in
          rw (perform, e)
            (after_action-Ends turn p' answer.0 next
              (snoc-Kept P engine request context turn p p' entry k l allowed refl room
                (omega arith))
              l onward answer.1)

  pub act-Ends :
      (turn : ℕ) (snapshot : EvaluationSnapshot) (p : Progress) (action : DiscoveryAction)
      (next : Progress → Turn P engine request context)
      → Kept P engine request context turn p
      → InLoop P engine request context turn
      → Onward P engine request context turn next
      → Ends P engine request context (act P engine request context turn snapshot p action next)
  unfolding act
  act-Ends turn snapshot p action next k l onward =
      go (validate_action action request.goal (trusted_targets P engine request context)) refl
    where
      room : leb max_actions p.actions ≡ false → suc p.actions ≤ 8
      room h = ground arith

      go :
          (o : Option String)
          → validate_action action request.goal (trusted_targets P engine request context) ≡ o
          → Ends P engine request context (act P engine request context turn snapshot p action next)
      go (some code) e = rw (act, e) (reject-Ends turn snapshot p code code next k l onward)
      go none e =
          rw (act, e)
            (if-Ends P engine request context (leb max_actions p.actions)
              (finish P engine request context failed "ACTION_LIMIT_REACHED" turn p p.trace)
              (if same_proposal action p.previous_proposal
                  && was_seen (snapshot_key snapshot) p.previous_snapshot
                then finish P engine request context failed "NO_PROGRESS" turn p p.trace
                else perform P engine request context turn snapshot p action next)
              (λ _ w.
                same-Fine P engine request context turn p failed "ACTION_LIMIT_REACHED" k l
                  (λ q. ground arith))
              (λ h.
                if-Ends P engine request context
                  (same_proposal action p.previous_proposal
                    && was_seen (snapshot_key snapshot) p.previous_snapshot)
                  (finish P engine request context failed "NO_PROGRESS" turn p p.trace)
                  (perform P engine request context turn snapshot p action next)
                  (λ _ w.
                    same-Fine P engine request context turn p failed "NO_PROGRESS" k l
                      (λ q. ground arith))
                  (λ _. perform-Ends turn snapshot p action next e (room h) k l onward)))

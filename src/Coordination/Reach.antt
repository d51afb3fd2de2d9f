-- ===== src/Coordination/Reach.antt =====
-- application/run_coordinator.py: the coordinator changes the registry by calls of it only.
use capability_runner.Prelude.{
  String, ◌≡◌, refl, sym, ap, ◌∙◌, subst, true, Option, none, some, List, [], ◌∷◌, ◌++◌, Dict, ok,
  err, arith,
}
use capability_runner.Contracts.Capabilities.{CapabilityDefinition}
use capability_runner.Contracts.Gateway.{GatewayExecutionContext}
use capability_runner.Contracts.Intervention.{
  InterventionRecord, InterventionOutcome, intervention_requested,
}
use capability_runner.Contracts.Replay.{ReplayCheckpoint, ReplayResult}
use capability_runner.Ports.{Ports}
use capability_runner.Intervention.{Answer, request_intervention}
use capability_runner.Coordination.{
  Coordinator, Hub, Moment, Peers, intervened, not_intervened, requested, approval_request,
  registered, suspend_for_intervention,
}
use capability_runner.Coordination.Registry.{
  Continuation, PendingReplayContinuation, ReplayContinuationRegistry, new_registry, get,
  was_consumed, register, discard, consume,
}
use capability_runner.Coordination.Ledger.{
  new_ledger, Call, call_register, call_discard, call_consume, accepted, registry_step,
  registry_run, ledger_run,
}
use capability_runner.Coordination.Refinement.{Reads, run-Reads, new-Reads}
use capability_runner.Coordination.Once.{consumed_stays}
use capability_runner.Coordination.Results.{safe_checkpoint}

-- A registry that calls lead to from another.
abbrev pub Reached : ReplayContinuationRegistry → ReplayContinuationRegistry → Type 0
Reached r r' = (calls : List Call) × (r' ≡ (registry_run calls r).1)

run-append :
    (a b : List Call) (r : ReplayContinuationRegistry)
    → (registry_run (a ++ b) r).1 ≡ (registry_run b (registry_run a r).1).1
unfolding registry_run
run-append [] b r = refl
run-append (call ∷ a) b r = run-append a b (registry_step call r).1

pub Reached-refl : (r : ReplayContinuationRegistry) → Reached r r
unfolding registry_run
Reached-refl r = ([], refl)

pub Reached-trans : (r s t : ReplayContinuationRegistry) → Reached r s → Reached s t → Reached r t
Reached-trans r s t (a, e) (b, f) =
    (a ++ b, f ∙ (ap (λ q. (registry_run b q).1) e ∙ sym (run-append a b r)))

step-Reached : (call : Call) (r : ReplayContinuationRegistry) → Reached r (registry_step call r).1
unfolding registry_run
step-Reached call r = (call ∷ [], refl)

pub register-Reached :
    (id : String) (c : Continuation) (r : ReplayContinuationRegistry)
    → Reached r (register id c r).1
unfolding registry_step
register-Reached id c r =
    subst (Reached r) (same (register id c r)) (step-Reached (call_register id c) r)
  where
    same :
        (o : Option PendingReplayContinuation × ReplayContinuationRegistry) → (accepted o).1 ≡ o.1
    same (none, q) = refl
    same (some p, q) = refl

pub discard-Reached : (id : String) (r : ReplayContinuationRegistry) → Reached r (discard id r)
unfolding registry_step
discard-Reached id r = step-Reached (call_discard id) r

pub consume-Reached :
    (id : String) (p : PendingReplayContinuation) (r : ReplayContinuationRegistry)
    → Reached r (consume id p r).1
unfolding registry_step
consume-Reached id p r = step-Reached (call_consume id p) r

-- What was consumed in a registry that calls of a new one lead to stays consumed.
pub consumed-Reached :
    (id : String) (r r' : ReplayContinuationRegistry)
    → Reached new_registry r
    → Reached r r'
    → was_consumed id r ≡ true
    → (get id r' ≡ none) × (was_consumed id r' ≡ true)
consumed-Reached id r r' (before, e) (after, f) h =
    let first : Reads r (ledger_run before new_ledger).1 =
      subst (λ q. Reads q (ledger_run before new_ledger).1) (sym e)
        (run-Reads before new_registry new_ledger new-Reads).1 in
    subst (λ q. (get id q ≡ none) × (was_consumed id q ≡ true)) (sym f)
      (consumed_stays id r (ledger_run before new_ledger).1 first h after)

-- Other tasks that use the registry by its calls only.
pub record IsLawful (P : Ports) (peers : Peers P) : Type 0 where
  pub calls : (moment : Moment) (hub : Hub P) → Reached hub.registry (peers moment hub).registry

module _ (P : Ports) (coordinator : Coordinator) (id : String) (r : ReplayResult)
    (capability : CapabilityDefinition) (inputs : Dict String)
    (context : GatewayExecutionContext) where
  intervened-registry :
      (checkpoint : ReplayCheckpoint) (subject : InterventionRecord) (hub : Hub P)
      → (intervened P coordinator id r capability inputs context checkpoint subject hub).1.registry
        ≡ hub.registry
  unfolding intervened
  intervened-registry checkpoint subject hub = ground arith

  requested-Reached :
      (checkpoint : ReplayCheckpoint) (answer : Answer P) (registry : ReplayContinuationRegistry)
      → Reached registry
          (requested P coordinator id r capability inputs context checkpoint answer
            registry).1.registry
  unfolding requested not_intervened
  requested-Reached checkpoint (err e, m) registry = Reached-refl registry
  requested-Reached checkpoint (ok i, m) registry = go i.outcome refl i.record_of refl
    where
      go :
          (o : InterventionOutcome)
          → i.outcome ≡ o
          → (s : Option InterventionRecord) → i.record_of ≡ s
          → Reached registry
              (requested P coordinator id r capability inputs context checkpoint
                (ok i, m)
                registry).1.registry
      go intervention_requested e none f = rw (requested, e, f) (discard-Reached id registry)
      go intervention_requested e (some subject) f =
          rw (requested, e, f, intervened-registry) (Reached-refl registry)
      go other e s f = rw (requested, e) (discard-Reached id registry)

  pub suspend-Reached :
      (hub : Hub P)
      → Reached hub.registry
          (suspend_for_intervention P coordinator id r capability inputs context hub).1.registry
  unfolding suspend_for_intervention registered
  suspend-Reached hub = go (safe_checkpoint r capability context) refl
    where
      registering :
          (checkpoint : ReplayCheckpoint)
          (o : Option PendingReplayContinuation × ReplayContinuationRegistry)
          → Reached hub.registry o.1
          → Reached hub.registry
              (registered P coordinator id r capability inputs context checkpoint o hub).1.registry
      registering checkpoint (none, registry) h = Reached-refl hub.registry
      registering checkpoint (some p, registry) h = Reached-trans hub.registry registry _ h (
          requested-Reached checkpoint
            (request_intervention P (approval_request P coordinator id context) hub.manager)
            registry)

      go :
          (o : Option ReplayCheckpoint)
          → safe_checkpoint r capability context ≡ o
          → Reached hub.registry
              (suspend_for_intervention P coordinator id r capability inputs context hub).1.registry
      go none e = rw (suspend_for_intervention, e) (Reached-refl hub.registry)
      go (some checkpoint) e =
          rw (suspend_for_intervention, e)
            (registering checkpoint _ (register-Reached id _ hub.registry))

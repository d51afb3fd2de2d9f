-- ===== src/Coordination/Suspension.antt =====
-- application/run_coordinator.py: which replay results `suspend_for_intervention` takes, and what it
-- leaves behind.
use capability_runner.Prelude.{
  String, ◌≡◌, refl, sym, ap, Bool, true, false, Option, none, some, Dict, lookup-erase, ok, err,
  string_eq, nat_eq, arith,
}
use capability_runner.Contracts.Capabilities.{CapabilityDefinition}
use capability_runner.Contracts.Gateway.{GatewayExecutionContext}
use capability_runner.Contracts.Replay.{ReplayCheckpoint, ReplayResult}
use capability_runner.Contracts.Continuation.{
  ContinuationOutcome, intervention_required, failure, invalid_continuation,
  ReplayContinuationResult,
}
use capability_runner.Ports.{Ports, World}
use capability_runner.Replay.Checks.{validate_checkpoint_identity}
use capability_runner.Replay.Steps.{Engine}
use capability_runner.Replay.Engine.{replay, resume}
use capability_runner.Replay.Outcomes.{IsSound, Resumable}
use capability_runner.Replay.Guarantees.{replay_justified, resume_justified}
use capability_runner.Intervention.{Manager, Answer, request_intervention}
use capability_runner.Contracts.Intervention.{
  InterventionRecord, InterventionOutcome, intervention_requested,
}
use capability_runner.Coordination.{
  Coordinator, Hub, record_intervention_context, intervened, not_intervened, requested,
  approval_request, registered, suspend_for_intervention,
}
use capability_runner.Coordination.Registry.{
  Continuation, PendingReplayContinuation, ReplayContinuationRegistry, get, register, discard,
  pending_for,
}
use capability_runner.Coordination.Once.{register-pending_for, register-revealed_inputs}
use capability_runner.Coordination.Results.{safe_checkpoint}

resumable-safe :
    (definition : CapabilityDefinition) (inputs : Dict String) (context : GatewayExecutionContext)
    (r : ReplayResult) (checkpoint : ReplayCheckpoint)
    → IsSound definition inputs context r
    → r.checkpoint ≡ some checkpoint
    → safe_checkpoint r definition context ≡ some checkpoint
unfolding safe_checkpoint validate_checkpoint_identity
resumable-safe definition inputs context r checkpoint sound e =
    let (identity, generation, failing, reason, run) : Resumable definition inputs context
        (some checkpoint) r =
      rw (Resumable, e) at sound.1 in
    ground arith

module _ (P : Ports) (engine : Engine) (definition : CapabilityDefinition) (inputs : Dict String)
    (context : GatewayExecutionContext) where
  -- The engine and the coordinator agree: every checkpoint that a `replay` returns passes the guard of
  -- `suspend_for_intervention`, called with the same capability and context.
  pub replay-safe_checkpoint :
      (w : World P) (r : ReplayResult) (checkpoint : ReplayCheckpoint)
      → (replay P engine definition inputs context w).0 ≡ some r
      → r.checkpoint ≡ some checkpoint
      → safe_checkpoint r definition context ≡ some checkpoint
  replay-safe_checkpoint w r checkpoint h =
      resumable-safe definition inputs context r checkpoint
        (replay_justified P engine definition inputs context w r h)

  -- The same of every checkpoint that a `resume` returns: a replay can be blocked again and again.
  pub resume-safe_checkpoint :
      (from : ReplayCheckpoint) (w : World P) (r : ReplayResult) (checkpoint : ReplayCheckpoint)
      → (resume P engine definition inputs context from w).0 ≡ some r
      → r.checkpoint ≡ some checkpoint
      → safe_checkpoint r definition context ≡ some checkpoint
  resume-safe_checkpoint from w r checkpoint h =
      resumable-safe definition inputs context r checkpoint
        (resume_justified P engine definition inputs context from w r h)

module _ (P : Ports) (coordinator : Coordinator) (id : String) (r : ReplayResult)
    (capability : CapabilityDefinition) (inputs : Dict String) (context : GatewayExecutionContext)
    (hub : Hub P) where
  -- What waits under the identifier: the continuation of this result, at its checkpoint.
  abbrev pub Waits : Hub P → Type 0
  Waits after =
      (p : PendingReplayContinuation) × (get id after.registry ≡ some p)
      × (safe_checkpoint r capability context ≡ some p.continuation.checkpoint)
      × (p.continuation.capability ≡ capability)
      × (p.continuation.context ≡ context)

  -- What each outcome of a suspension tells of the state that it leaves.
  abbrev pub Left : ContinuationOutcome → Hub P → Type 0
  Left intervention_required after = Waits after
  Left failure after = get id after.registry ≡ none
  Left invalid_continuation after = after ≡ hub
  Left other after = ⊥

  abbrev pub Settled : Option ReplayContinuationResult × Hub P → Type 0
  Settled (none, after) = Waits after
  Settled (some answer, after) = Left answer.outcome after

  discard-get : (registry : ReplayContinuationRegistry) → get id (discard id registry) ≡ none
  unfolding get discard
  discard-get registry = ground (arith, lookup-erase id id registry.pending)

  waits :
      (registry : ReplayContinuationRegistry) (m : Manager P) (p : PendingReplayContinuation)
      → Waits (record { manager = m; registry = registry })
      → (w : World P) → Waits (record { manager = record m { world = w }; registry = registry })
  waits registry m p h w = h

  intervened-Settled :
      (checkpoint : ReplayCheckpoint) (subject : InterventionRecord) (before : Hub P)
      → Waits before
      → Settled (intervened P coordinator id r capability inputs context checkpoint subject before)
  unfolding intervened
  intervened-Settled checkpoint subject before h =
      go
        (record_intervention_context P coordinator id capability checkpoint inputs context
          subject.requested_generation before.manager.world).0
        refl
    where
      go :
          (b : Bool)
          → (record_intervention_context P coordinator id capability checkpoint inputs context
              subject.requested_generation before.manager.world).0
            ≡ b
          → Settled
              (intervened P coordinator id r capability inputs context checkpoint subject before)
      go true e = rw (intervened, e) h
      go false e = rw (intervened, e) h

  requested-Settled :
      (checkpoint : ReplayCheckpoint) (answer : Answer P) (registry : ReplayContinuationRegistry)
      → ((m : Manager P) → Waits (record { manager = m; registry = registry }))
      → Settled (requested P coordinator id r capability inputs context checkpoint answer registry)
  unfolding requested not_intervened
  requested-Settled checkpoint (err e, m) registry h = h m
  requested-Settled checkpoint (ok i, m) registry h = go i.outcome refl i.record_of refl
    where
      go :
          (o : InterventionOutcome)
          → i.outcome ≡ o
          → (s : Option InterventionRecord) → i.record_of ≡ s
          → Settled
              (requested P coordinator id r capability inputs context checkpoint (ok i, m) registry)
      go intervention_requested e none f = rw (requested, e, f) (discard-get registry)
      go intervention_requested e (some subject) f =
          rw (requested, e, f) (intervened-Settled checkpoint subject _ (h m))
      go other e s f = rw (requested, e) (discard-get registry)

  registered-Settled :
      (checkpoint : ReplayCheckpoint) (c : Continuation)
      (o : Option PendingReplayContinuation × ReplayContinuationRegistry)
      → register id c hub.registry ≡ o
      → c.checkpoint ≡ checkpoint
      → c.capability ≡ capability
      → c.context ≡ context
      → safe_checkpoint r capability context ≡ some checkpoint
      → Settled (registered P coordinator id r capability inputs context checkpoint o hub)
  unfolding registered
  registered-Settled checkpoint c (none, registry) f e1 e2 e3 safe = refl
  registered-Settled checkpoint c (some p, registry) f e1 e2 e3 safe =
      let first : (register id c hub.registry).0 ≡ some p = ap (λ o. o.0) f in
      let second : (register id c hub.registry).1 ≡ registry = ap (λ o. o.1) f in
      let same : pending_for c hub.registry ≡ p = register-pending_for id c hub.registry p first in
      let found : get id registry ≡ some p =
        rw second at (register-revealed_inputs id c hub.registry id p first).0 in
      requested-Settled checkpoint
        (request_intervention P (approval_request P coordinator id context) hub.manager) registry
        (λ m. (p, found, rw (sym same, e1) safe, rw (sym same) e2, rw (sym same) e3))

  -- Whatever `suspend_for_intervention` answers, it leaves the registry as the answer says. After
  -- INTERVENTION_REQUIRED the continuation waits under the identifier, at the result's checkpoint and
  -- with the given capability and context; after FAILURE nothing waits there; after
  -- INVALID_CONTINUATION nothing has changed, the sessions and the evidence included; and there is no
  -- other answer. Where it raises, the continuation waits as well.
  pub suspend-Settled :
      Settled (suspend_for_intervention P coordinator id r capability inputs context hub)
  unfolding suspend_for_intervention
  suspend-Settled = go (safe_checkpoint r capability context) refl
    where
      go :
          (o : Option ReplayCheckpoint)
          → safe_checkpoint r capability context ≡ o
          → Settled (suspend_for_intervention P coordinator id r capability inputs context hub)
      go none e = rw (suspend_for_intervention, e) refl
      go (some checkpoint) e =
          rw (suspend_for_intervention, e) (registered-Settled checkpoint _ _ refl refl refl refl e)

-- ===== src/Coordination/Resumption.antt =====
-- application/run_coordinator.py: when `resume` replays, and how often.
use capability_runner.Prelude.{
  String, ◌≡◌, refl, ◌⊎◌, inl, inr, if◌then◌else◌, ap, subst, Bool, true, false, Option, none, some,
  Result, ok, err, arith, string_eq, nat_eq,
}
use capability_runner.Contracts.Sessions.{SessionState}
use capability_runner.Contracts.Gateway.{GatewayExecutionContext}
use capability_runner.Contracts.Intervention.{InterventionOutcome, resumed, InterventionResult}
use capability_runner.Contracts.Replay.{ReplayCheckpoint, ReplayResult}
use capability_runner.Contracts.Continuation.{continuation_already_consumed}
use capability_runner.Ports.{Ports}
use capability_runner.Intervention.{ManagerError, complete_resume_validation}
use capability_runner.Intervention.Control.{outcome_of, Revalidated, resumed-Revalidated}
use capability_runner.Coordination.{
  Coordinator, Hub, locking, validating, replaying, Peers, in_world, validate, after_replay,
  resumed_context, replay_on, continue, not_resumed, transitioned, resume_locked, resume,
}
use capability_runner.Coordination.Registry.{
  PendingReplayContinuation, ReplayContinuationRegistry, new_registry, revealed_inputs, get,
  was_consumed, is_same, consume,
}
use capability_runner.Coordination.Results.{result, unavailable}
use capability_runner.Coordination.Reach.{
  Reached, Reached-refl, Reached-trans, consume-Reached, consumed-Reached, IsLawful,
  suspend-Reached,
}
use capability_runner.Replay.Engine as ReplayEngine

module _ (P : Ports) (coordinator : Coordinator) (peers : Peers P) (fresh_id id : String) where
  -- The other tasks, where they do something else while a replay runs.
  unfoldable pub replaced : (Hub P → Hub P) → Peers P
  replaced during locking hub = peers locking hub
  replaced during validating hub = peers validating hub
  replaced during replaying hub = during hub

  -- The other tasks, where they do something else while a replay runs of a continuation that has not
  -- been consumed.
  unfoldable pub strayed : (Hub P → Hub P) → Peers P
  strayed during locking hub = peers locking hub
  strayed during validating hub = peers validating hub
  strayed during replaying hub =
      if was_consumed id hub.registry then peers replaying hub else during hub

  -- The registry marked the identifier as consumed, on its way from one state to another.
  pub record Consumed (from after : ReplayContinuationRegistry) : Type 0 where
    pub then_registry : ReplayContinuationRegistry
    pub before_it : Reached from then_registry
    pub is_consumed : was_consumed id then_registry ≡ true
    pub after_it : Reached then_registry after

  consume-was_consumed :
      (p : PendingReplayContinuation) (r : ReplayContinuationRegistry)
      → (consume id p r).0 ≡ true
      → was_consumed id (consume id p r).1 ≡ true
  unfolding consume was_consumed
  consume-was_consumed p r h = ground arith

  module _ (lawful : IsLawful P peers) where
    after_replay-Reached :
        (p : PendingReplayContinuation) (context : GatewayExecutionContext)
        (o : Option ReplayResult) (hub : Hub P)
        → Reached hub.registry (after_replay P coordinator fresh_id p context o hub).1.registry
    unfolding after_replay
    after_replay-Reached p context none hub = Reached-refl hub.registry
    after_replay-Reached p context (some r) hub = go r.checkpoint refl
      where
        go :
            (c : Option ReplayCheckpoint)
            → r.checkpoint ≡ c
            → Reached hub.registry
                (after_replay P coordinator fresh_id p context (some r) hub).1.registry
        go none e = rw (after_replay, e) (Reached-refl hub.registry)
        go (some c) e =
            rw (after_replay, e)
              (suspend-Reached P coordinator fresh_id r p.continuation.capability
                (revealed_inputs p) context hub)

    replay_on-Reached :
        (p : PendingReplayContinuation) (state : SessionState) (hub : Hub P)
        → Reached hub.registry (replay_on P coordinator peers fresh_id id p state hub).1.registry
    unfolding replay_on
    replay_on-Reached p state hub =
        let out =
          ReplayEngine.resume P coordinator.replay_engine p.continuation.capability
            (revealed_inputs p) (resumed_context P coordinator p state) p.continuation.checkpoint
            hub.manager.world in
        let hub' : Hub P = record hub { manager = in_world P coordinator out.1 hub.manager } in
        Reached-trans hub.registry (peers replaying hub').registry _ (lawful.calls replaying hub') (
          after_replay-Reached p (resumed_context P coordinator p state) out.0
            (peers replaying hub'))

    Consumed-after :
        (a b c : ReplayContinuationRegistry) → Reached a b → Consumed b c → Consumed a c
    Consumed-after a b c h k = record {
      then_registry = k.then_registry;
      before_it = Reached-trans a b k.then_registry h k.before_it;
      is_consumed = k.is_consumed;
      after_it = k.after_it;
    }

    continue-cases :
        (during : Hub P → Hub P) (p : PendingReplayContinuation) (state : SessionState)
        (hub : Hub P) (o : Bool × ReplayContinuationRegistry)
        → consume id p hub.registry ≡ o
        → (continue P coordinator (replaced during) fresh_id id p state o hub
            ≡ continue P coordinator peers fresh_id id p state o hub)
          ⊎ Consumed hub.registry
              (continue P coordinator peers fresh_id id p state o hub).1.registry
    unfolding continue
    continue-cases during p state hub (false, registry) e = inl refl
    continue-cases during p state hub (true, registry) e =
        let at_end : (consume id p hub.registry).1 ≡ registry = ap (λ o. o.1) e in
        inr (record {
          then_registry = registry;
          before_it = subst (Reached hub.registry) at_end (consume-Reached id p hub.registry);
          is_consumed =
              subst (λ r. was_consumed id r ≡ true) at_end
                (consume-was_consumed p hub.registry (ap (λ o. o.0) e));
          after_it = replay_on-Reached p state (record hub { registry = registry });
        })

    continue-strayed :
        (during : Hub P → Hub P) (p : PendingReplayContinuation) (state : SessionState)
        (hub : Hub P) (o : Bool × ReplayContinuationRegistry)
        → consume id p hub.registry ≡ o
        → continue P coordinator (strayed during) fresh_id id p state o hub
          ≡ continue P coordinator peers fresh_id id p state o hub
    unfolding continue replay_on strayed
    continue-strayed during p state hub (false, registry) e = refl
    continue-strayed during p state hub (true, registry) e =
        let marked : was_consumed id registry ≡ true =
          subst (λ r. was_consumed id r ≡ true) (ap (λ o. o.1) e)
            (consume-was_consumed p hub.registry (ap (λ o. o.0) e)) in
        rw marked refl

    -- The manager gave the session back, and the continuation was consumed.
    abbrev pub Began :
        Result ManagerError InterventionResult
        → ReplayContinuationRegistry
        → ReplayContinuationRegistry
        → Type 0
    Began t from after =
        ((i : InterventionResult) × (t ≡ ok i) × (i.outcome ≡ resumed)) × Consumed from after

    transitioned-cases :
        (during : Hub P → Hub P) (p : PendingReplayContinuation)
        (t : Result ManagerError InterventionResult) (hub : Hub P)
        → (transitioned P coordinator (replaced during) fresh_id id p t hub
            ≡ transitioned P coordinator peers fresh_id id p t hub)
          ⊎ Began t hub.registry (transitioned P coordinator peers fresh_id id p t hub).1.registry
    unfolding transitioned not_resumed
    transitioned-cases during p (err e) hub = inl refl
    transitioned-cases during p (ok t) hub = go t.outcome refl t.session_state refl
      where
        go :
            (o : InterventionOutcome)
            → t.outcome ≡ o
            → (s : Option SessionState) → t.session_state ≡ s
            → (transitioned P coordinator (replaced during) fresh_id id p (ok t) hub
                ≡ transitioned P coordinator peers fresh_id id p (ok t) hub)
              ⊎ Began
                  (ok t)
                  hub.registry
                  (transitioned P coordinator peers fresh_id id p (ok t) hub).1.registry
        go resumed e none f = rw (transitioned, e, f) (inl refl)
        go resumed e (some state) f =
            elim (continue-cases during p state hub (consume id p hub.registry) refl) [
              | inl same ↦ inl (rw (transitioned, e, f) same)
              | inr c ↦ inr ((t, refl, e), rw (transitioned, e, f) c)
            ]
        go other e s f = rw (transitioned, e) (inl refl)

    transitioned-strayed :
        (during : Hub P → Hub P) (p : PendingReplayContinuation)
        (t : Result ManagerError InterventionResult) (hub : Hub P)
        → transitioned P coordinator (strayed during) fresh_id id p t hub
          ≡ transitioned P coordinator peers fresh_id id p t hub
    unfolding transitioned not_resumed
    transitioned-strayed during p (err e) hub = refl
    transitioned-strayed during p (ok t) hub = go t.outcome refl t.session_state refl
      where
        go :
            (o : InterventionOutcome)
            → t.outcome ≡ o
            → (s : Option SessionState) → t.session_state ≡ s
            → transitioned P coordinator (strayed during) fresh_id id p (ok t) hub
              ≡ transitioned P coordinator peers fresh_id id p (ok t) hub
        go resumed e none f = rw (transitioned, e, f) refl
        go resumed e (some state) f =
            rw (transitioned, e, f)
              (continue-strayed during p state hub (consume id p hub.registry) refl)
        go other e s f = rw (transitioned, e) refl

    -- What a replay that begins rests on.
    pub record Begun (hub : Hub P) : Type 0 where
      -- the manager gave the session back, after a fresh validation over the registry
      pub revalidated :
          Revalidated P
            (validate P coordinator (peers locking hub).registry)
            id
            (peers locking hub).manager
      -- and the continuation was consumed
      pub consumption :
          Consumed hub.registry (resume P coordinator peers fresh_id id hub).1.registry

    locked-cases :
        (during : Hub P → Hub P) (p : PendingReplayContinuation) (hub : Hub P)
        → (resume_locked P coordinator (replaced during) fresh_id id p hub
            ≡ resume_locked P coordinator peers fresh_id id p hub)
          ⊎ (Revalidated P (validate P coordinator hub.registry) id hub.manager
              × Consumed hub.registry
                  (resume_locked P coordinator peers fresh_id id p hub).1.registry)
    unfolding resume_locked replaced
    locked-cases during p hub = go (is_same (get id hub.registry) p) refl
      where
        go :
            (b : Bool)
            → is_same (get id hub.registry) p ≡ b
            → (resume_locked P coordinator (replaced during) fresh_id id p hub
                ≡ resume_locked P coordinator peers fresh_id id p hub)
              ⊎ (Revalidated P (validate P coordinator hub.registry) id hub.manager
                  × Consumed hub.registry
                      (resume_locked P coordinator peers fresh_id id p hub).1.registry)
        go false e = rw (resume_locked, e) (inl refl)
        go true e =
            let out =
              complete_resume_validation P (validate P coordinator hub.registry) id hub.manager in
            let hub' : Hub P = record hub { manager = out.1 } in
            elim (transitioned-cases during p out.0 (peers validating hub')) [
              | inl same ↦ inl (rw (resume_locked, e) same)
              | inr ((i, answered, outcome), c) ↦ inr (
                resumed-Revalidated P (validate P coordinator hub.registry) id hub.manager
                    (rw (outcome_of, answered) (ap some outcome)),
                rw (resume_locked, e)
                    (Consumed-after hub.registry (peers validating hub').registry _
                      (lawful.calls validating hub') c),
              )
            ]

    locked-strayed :
        (during : Hub P → Hub P) (p : PendingReplayContinuation) (hub : Hub P)
        → resume_locked P coordinator (strayed during) fresh_id id p hub
          ≡ resume_locked P coordinator peers fresh_id id p hub
    unfolding resume_locked strayed
    locked-strayed during p hub = go (is_same (get id hub.registry) p) refl
      where
        go :
            (b : Bool)
            → is_same (get id hub.registry) p ≡ b
            → resume_locked P coordinator (strayed during) fresh_id id p hub
              ≡ resume_locked P coordinator peers fresh_id id p hub
        go false e = rw (resume_locked, e) refl
        go true e = rw (resume_locked, e) (transitioned-strayed during p _ _)

    resume-cases :
        (during : Hub P → Hub P) (hub : Hub P)
        → (resume P coordinator (replaced during) fresh_id id hub
            ≡ resume P coordinator peers fresh_id id hub)
          ⊎ Begun hub
    unfolding resume replaced
    resume-cases during hub = go (get id hub.registry) refl
      where
        go :
            (o : Option PendingReplayContinuation)
            → get id hub.registry ≡ o
            → (resume P coordinator (replaced during) fresh_id id hub
                ≡ resume P coordinator peers fresh_id id hub)
              ⊎ Begun hub
        go none e = inl (rw (resume, e) refl)
        go (some p) e = elim (locked-cases during p (peers locking hub)) [
          | inl same ↦ inl (rw (resume, e) same)
          | inr (again, c) ↦ inr (record {
            revalidated = again;
            consumption =
                rw (resume, e)
                  (Consumed-after hub.registry (peers locking hub).registry _
                    (lawful.calls locking hub) c);
          })
        ]

    resume-strayed :
        (during : Hub P → Hub P) (hub : Hub P)
        → resume P coordinator (strayed during) fresh_id id hub
          ≡ resume P coordinator peers fresh_id id hub
    unfolding resume strayed
    resume-strayed during hub = go (get id hub.registry) refl
      where
        go :
            (o : Option PendingReplayContinuation)
            → get id hub.registry ≡ o
            → resume P coordinator (strayed during) fresh_id id hub
              ≡ resume P coordinator peers fresh_id id hub
        go none e = rw (resume, e) refl
        go (some p) e = rw (resume, e) (locked-strayed during p (peers locking hub))

    -- A replay begins only where it may, whether it then returns or raises. Other tasks that do
    -- something else while a replay of an unconsumed continuation runs make no difference to `resume`,
    -- since there is no such replay. And where it makes a difference what they do while a replay runs,
    -- the manager had given the session back after a fresh validation that came back VALID, and the
    -- continuation was consumed.
    pub resume-Begun :
        (during : Hub P → Hub P) (hub : Hub P)
        → (resume P coordinator (strayed during) fresh_id id hub
            ≡ resume P coordinator peers fresh_id id hub)
          × ((resume P coordinator (replaced during) fresh_id id hub
                ≡ resume P coordinator peers fresh_id id hub)
              ⊎ Begun hub)
    resume-Begun during hub = (resume-strayed during hub, resume-cases during hub)

    -- A continuation is replayed at most once, whether the replay returns or raises. Either `resume`
    -- begins no replay, so that it makes no difference what other tasks do while one runs; or,
    -- whatever calls of the registry follow, by this task or by others, a later `resume` of the same
    -- identifier answers CONTINUATION_ALREADY_CONSUMED and changes nothing.
    pub replayed_once :
        (during : Hub P → Hub P) (hub later : Hub P)
        → Reached new_registry hub.registry
        → Reached (resume P coordinator peers fresh_id id hub).1.registry later.registry
        → (resume P coordinator (replaced during) fresh_id id hub
            ≡ resume P coordinator peers fresh_id id hub)
          ⊎ (resume P coordinator peers fresh_id id later ≡ (
            some (
                result continuation_already_consumed "CONTINUATION_ALREADY_CONSUMED"
                  "Replay continuation was already consumed."),
            later,
          ))
    unfolding resume unavailable
    replayed_once during hub later start onward = elim (resume-cases during hub) [
      | inl same ↦ inl same
      | inr begun ↦ inr (
          let c = begun.consumption in
          let (gone, marked) =
            consumed-Reached id c.then_registry later.registry
              (Reached-trans new_registry hub.registry c.then_registry start c.before_it)
              (Reached-trans c.then_registry _ later.registry c.after_it onward) c.is_consumed in
          rw (resume, gone, unavailable, marked) refl)
    ]

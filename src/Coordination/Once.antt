-- ===== src/Coordination/Once.antt =====
-- application/run_coordinator.py: a continuation is consumed at most once, and keeps its inputs.
use capability_runner.Prelude.{
  String, ◌≡◌, ◌≢◌, refl, sym, ap, ◌∙◌, Bool, true, false, Option, none, some, List, [], ◌∷◌, ◌==◌,
  string_eq, nat_eq, ◌||◌, contains, if◌then◌else◌, Dict, lookup, has_key, lookup-insert, arith,
}
use mathlib.Core.Logic.{ite}
use mathlib.Core.Option.{some-injective}
use capability_runner.Replay.Checks.{text_le, place, sorted_items}
use capability_runner.Coordination.Registry.{
  Continuation, PendingReplayContinuation, ReplayContinuationRegistry, new_registry, was_consumed,
  get, register, consume, pending_for, revealed_inputs,
}
use capability_runner.Coordination.Ledger.{
  Status, unused, waiting, spent, Ledger, new_ledger, Call, call_register, call_discard,
  call_consume, set_status, ledger_step, ledger_run, registry_run, status_of, status_by, registered,
  discarded, consumed_by,
}
use capability_runner.Coordination.Refinement.{Reads, run-Reads, new-Reads}

other_status :
    (id j : String) (s t : Status) (l : Ledger)
    → l.status id ≡ spent
    → l.status j ≡ t
    → t ≢ spent
    → (set_status j s l).status id ≡ spent
unfolding set_status
other_status id j s t l h e n = go (string_eq.dec id j)
  where
    go : (d : Dec (id ≡ j)) → (if ite d true false then s else l.status id) ≡ spent
    go (yes p) = absurd (n (sym e ∙ ap l.status (sym p) ∙ h))
    go (no m) = h

-- In a ledger, what is spent stays spent.
step_spent :
    (id : String) (call : Call) (l : Ledger)
    → l.status id ≡ spent
    → (ledger_step call l).1.status id ≡ spent
unfolding ledger_step
step_spent id (call_register j c) l h = go (l.status j) refl
  where
    go : (s : Status) → l.status j ≡ s → (registered j c s l).1.status id ≡ spent
    go unused e = other_status id j _ unused l h e (λ p. ground arith)
    go (waiting p) e = h
    go spent e = h
step_spent id (call_discard j) l h = go (l.status j) refl
  where
    go : (s : Status) → l.status j ≡ s → (discarded j s l).1.status id ≡ spent
    go unused e = h
    go (waiting p) e = other_status id j _ (waiting p) l h e (λ q. ground arith)
    go spent e = h
step_spent id (call_consume j p) l h = go (l.status j) refl
  where
    matched :
        (b : Bool)
        → (set_status j spent l).status id ≡ spent
        → (if◌then◌else◌ {A = Bool × Ledger} b (true, set_status j spent l) (false, l)).1.status id
          ≡ spent
    matched true e = e
    matched false e = h

    go : (s : Status) → l.status j ≡ s → (consumed_by j p s l).1.status id ≡ spent
    go unused e = h
    go (waiting q) e =
        matched (q.token == p.token) (other_status id j _ (waiting q) l h e (λ m. ground arith))
    go spent e = h

run_spent :
    (id : String) (calls : List Call) (l : Ledger)
    → l.status id ≡ spent
    → (ledger_run calls l).1.status id ≡ spent
unfolding ledger_run
run_spent id [] l h = h
run_spent id (call ∷ calls) l h = run_spent id calls (ledger_step call l).1 (step_spent id call l h)

spent-closed :
    (id : String) (r : ReplayContinuationRegistry)
    → status_of id r ≡ spent
    → (get id r ≡ none) × (was_consumed id r ≡ true)
unfolding status_of
spent-closed id r h = go (get id r) (was_consumed id r) h
  where
    go :
        (p : Option PendingReplayContinuation) (gone : Bool)
        → status_by p gone ≡ spent
        → (p ≡ none) × (gone ≡ true)
    go none true e = (refl, refl)
    go none false e = absurd (ground arith)
    go (some p) gone e = absurd (ground arith)

closed :
    (id : String) (p : PendingReplayContinuation) (c : Continuation)
    (r : ReplayContinuationRegistry)
    → (get id r ≡ none) × (was_consumed id r ≡ true)
    → ((consume id p r).0 ≡ false) × ((register id c r).0 ≡ none) × (get id r ≡ none)
unfolding get was_consumed consume register
closed id p c r (e, f) = (rw (consume, e) refl, rw (register, e, f) refl, e)

pub consumed_stays :
    (id : String) (r : ReplayContinuationRegistry) (l : Ledger)
    → Reads r l
    → was_consumed id r ≡ true
    → (after : List Call)
    → (get id (registry_run after r).1 ≡ none) × (was_consumed id (registry_run after r).1 ≡ true)
unfolding status_of
consumed_stays id r l first h after =
    let spent_then : l.status id ≡ spent =
      sym (first.agrees id) ∙ (rw (status_of, first.apart id h, h) refl) in
    let last : Reads (registry_run after r).1 (ledger_run after l).1 =
      (run-Reads after r l first).1 in
    spent-closed id (registry_run after r).1 (last.agrees id ∙ run_spent id after l spent_then)

-- Once an identifier was consumed, no later calls of the registry bring it back: whatever they are,
-- nothing is pending under it, a second `consume` of it fails, and it cannot be registered again.
pub consumed_once :
    (id : String) (before after : List Call) (p : PendingReplayContinuation) (c : Continuation)
    → was_consumed id (registry_run before new_registry).1 ≡ true
    → ((consume id p (registry_run after (registry_run before new_registry).1).1).0 ≡ false)
      × ((register id c (registry_run after (registry_run before new_registry).1).1).0 ≡ none)
      × (get id (registry_run after (registry_run before new_registry).1).1 ≡ none)
unfolding consume register get was_consumed status_of
consumed_once id before after p c h =
    let r = (registry_run before new_registry).1 in
    closed id p c (registry_run after r).1 (
      consumed_stays id r (ledger_run before new_ledger).1
        (run-Reads before new_registry new_ledger new-Reads).1 h after)

text_le_refl : (s : String) → text_le s s ≡ true
unfolding text_le
text_le_refl String.[] = refl
text_le_refl (String.◌∷◌ c s) = ground (arith, text_le_refl s)

lookup-place {ℓ} :
    {V : Type ℓ} (key : String) (entry : String × V) (d : Dict V)
    → lookup key (place entry d) ≡ lookup key (entry ∷ d)
unfolding place lookup
lookup-place key entry [] = refl
lookup-place key entry (e ∷ d) = ground (arith, lookup-place key entry d, text_le_refl key)

lookup-sorted_items {ℓ} :
    {V : Type ℓ} (key : String) (d : Dict V) → lookup key (sorted_items d) ≡ lookup key d
unfolding sorted_items lookup
lookup-sorted_items key [] = refl
lookup-sorted_items key (e ∷ d) =
    lookup-place key e (sorted_items d) ∙ (rw (lookup-sorted_items key d) refl)

pub register-pending_for :
    (id : String) (c : Continuation) (r : ReplayContinuationRegistry)
    (p : PendingReplayContinuation)
    → (register id c r).0 ≡ some p
    → pending_for c r ≡ p
unfolding register
register-pending_for id c r p h = go (has_key id r.pending || contains r.consumed id) refl
  where
    go : (b : Bool) → (has_key id r.pending || contains r.consumed id) ≡ b → pending_for c r ≡ p
    go true e = absurd (ground arith)
    go false e = some-injective (pending_for c r) p (rw (register, e) at h)

-- What is registered can be fetched under its identifier, and `revealed_inputs` gives every runtime
-- input back as it was registered.
pub register-revealed_inputs :
    (id : String) (c : Continuation) (r : ReplayContinuationRegistry) (name : String)
    (p : PendingReplayContinuation)
    → (register id c r).0 ≡ some p
    → (get id (register id c r).1 ≡ some p)
      × (lookup name (revealed_inputs p) ≡ lookup name c.runtime_inputs)
unfolding register get
register-revealed_inputs id c r name p h = go (has_key id r.pending || contains r.consumed id) refl
  where
    go :
        (b : Bool)
        → (has_key id r.pending || contains r.consumed id) ≡ b
        → (get id (register id c r).1 ≡ some p)
          × (lookup name (revealed_inputs p) ≡ lookup name c.runtime_inputs)
    go true e = absurd (ground arith)
    go false e =
        let same : pending_for c r ≡ p = register-pending_for id c r p h in
        rw (get, register, e, lookup-insert)
          (ground (arith, ap some same), rw (sym same) (lookup-sorted_items name c.runtime_inputs))

-- ===== src/Coordination/Refinement.antt =====
-- application/run_coordinator.py: the registry implements its ledger.
use capability_runner.Prelude.{
  suc, String, ◌≡◌, refl, Bool, true, false, Option, none, some, List, [], ◌∷◌, ◌==◌, string_eq,
  sym, ◌∙◌, nat_eq, ◌||◌, contains, if◌then◌else◌, lookup, lookup-insert, lookup-erase, insert,
  erase, arith, ap,
}
use mathlib.Core.Logic.{ite}
use capability_runner.Coordination.Registry.{
  Continuation, PendingReplayContinuation, ReplayContinuationRegistry, new_registry, was_consumed,
  get, pending_for, register, discard, consume,
}
use capability_runner.Coordination.Ledger.{
  Status, unused, waiting, spent, Ledger, new_ledger, Call, call_register, call_discard,
  call_consume, set_status, consumed_by, ledger_step, registry_step, ledger_run, registry_run,
  status_by, status_of,
}

-- No identifier is both pending and consumed, and the ledger tells what the registry holds.
pub record Reads (r : ReplayContinuationRegistry) (l : Ledger) : Type 0 where
  pub apart : (id : String) → was_consumed id r ≡ true → get id r ≡ none
  pub agrees : (id : String) → status_of id r ≡ l.status id
  pub counts : r.next_token ≡ l.next

-- The same answer, and states that go on to agree.
abbrev Agree : Bool × ReplayContinuationRegistry → Bool × Ledger → Type 0
Agree a b = (a.0 ≡ b.0) × Reads a.1 b.1

insert-apart :
    (r : ReplayContinuationRegistry) (l : Ledger) (id : String) (p : PendingReplayContinuation)
    → Reads r l
    → was_consumed id r ≡ false
    → (j : String) → was_consumed j r ≡ true
    → lookup j (insert id p r.pending) ≡ none
unfolding get was_consumed
insert-apart r l id p h f j gone = go (string_eq.dec j id)
  where
    go : Dec (j ≡ id) → lookup j (insert id p r.pending) ≡ none
    go (yes e) = absurd (ground (arith, ap (contains r.consumed) e))
    go (no n) = ground (arith, lookup-insert j id p r.pending, h.apart j gone)

insert-agrees :
    (r : ReplayContinuationRegistry) (l : Ledger) (id : String) (p : PendingReplayContinuation)
    → Reads r l
    → (j : String)
    → status_by (lookup j (insert id p r.pending)) (contains r.consumed j)
      ≡ (if j == id then waiting p else l.status j)
unfolding status_of get was_consumed
insert-agrees r l id p h j = ground (arith, lookup-insert j id p r.pending, h.agrees j)

register-Reads :
    (id : String) (c : Continuation) (r : ReplayContinuationRegistry) (l : Ledger)
    → Reads r l
    → Agree (registry_step (call_register id c) r) (ledger_step (call_register id c) l)
unfolding registry_step ledger_step register set_status get was_consumed status_of
register-Reads id c r l h = go (get id r) (was_consumed id r) refl refl (h.agrees id)
  where
    go :
        (p : Option PendingReplayContinuation) (gone : Bool)
        → get id r ≡ p
        → was_consumed id r ≡ gone
        → status_of id r ≡ l.status id
        → Agree (registry_step (call_register id c) r) (ledger_step (call_register id c) l)
    go none false e f a =
        let s : l.status id ≡ unused = sym a ∙ (rw (status_of, e, f) refl) in
        rw (registry_step, ledger_step, e, f, s)
          (
            refl,
            record {
              apart = λ j gone. insert-apart r l id (pending_for c r) h f j gone;
              agrees = λ j. rw (sym h.counts) (insert-agrees r l id (pending_for c r) h j);
              counts = ap suc h.counts;
            },
          )
    go none true e f a =
        let s : l.status id ≡ spent = sym a ∙ (rw (status_of, e, f) refl) in
        rw (registry_step, ledger_step, e, f, s) (refl, h)
    go (some p) gone e f a =
        let s : l.status id ≡ waiting p = sym a ∙ (rw (status_of, e) refl) in
        rw (registry_step, ledger_step, e, s) (refl, h)

-- What is read of the registry once an identifier is gone from the pending ones.
erase-agrees :
    (r : ReplayContinuationRegistry) (l : Ledger) (id : String) (then_status : Status) (gone : Bool)
    → Reads r l
    → status_by none gone ≡ then_status
    → was_consumed id r ≡ gone
    → (j : String)
    → status_by (lookup j (erase id r.pending)) (contains r.consumed j)
      ≡ (if j == id then then_status else l.status j)
unfolding status_of get was_consumed
erase-agrees r l id s gone h e f j = rw lookup-erase (go (string_eq.dec j id))
  where
    go :
        (d : Dec (j ≡ id))
        → status_by (if ite d true false then none else lookup j r.pending) (contains r.consumed j)
          ≡ (if ite d true false then s else l.status j)
    go (yes p) = let g : contains r.consumed j ≡ gone = ap (contains r.consumed) p ∙ f in rw g e
    go (no n) = h.agrees j

-- An identifier whose status stays what it is.
same_status :
    (l : Ledger) (id : String) (s : Status)
    → l.status id ≡ s
    → (j : String) → (if j == id then s else l.status j) ≡ l.status j
same_status l id s e j = go (string_eq.dec j id)
  where
    go : (d : Dec (j ≡ id)) → (if ite d true false then s else l.status j) ≡ l.status j
    go (yes p) = sym e ∙ ap l.status (sym p)
    go (no n) = refl

discard-Reads :
    (id : String) (r : ReplayContinuationRegistry) (l : Ledger)
    → Reads r l
    → Agree (registry_step (call_discard id) r) (ledger_step (call_discard id) l)
unfolding registry_step ledger_step discard set_status get was_consumed status_of
discard-Reads id r l h = go (get id r) (was_consumed id r) refl refl (h.agrees id)
  where
    erased :
        (l' : Ledger)
        → l'.next ≡ l.next
        → ((j : String)
            → status_by (lookup j (erase id r.pending)) (contains r.consumed j) ≡ l'.status j)
        → Reads (discard id r) l'
    erased l' n a = record {
      apart = λ j gone. ground (arith, lookup-erase j id r.pending, h.apart j gone);
      agrees = a;
      counts = h.counts ∙ sym n;
    }

    go :
        (p : Option PendingReplayContinuation) (gone : Bool)
        → get id r ≡ p
        → was_consumed id r ≡ gone
        → status_of id r ≡ l.status id
        → Agree (registry_step (call_discard id) r) (ledger_step (call_discard id) l)
    go none false e f a =
        let s : l.status id ≡ unused = sym a ∙ (rw (status_of, e, f) refl) in
        rw (ledger_step, s)
          (
            refl,
            erased l refl
                (λ j. erase-agrees r l id unused false h refl f j ∙ same_status l id unused s j),
          )
    go none true e f a =
        let s : l.status id ≡ spent = sym a ∙ (rw (status_of, e, f) refl) in
        rw (ledger_step, s)
          (
            refl,
            erased l refl
                (λ j. erase-agrees r l id spent true h refl f j ∙ same_status l id spent s j),
          )
    go (some p) false e f a =
        let s : l.status id ≡ waiting p = sym a ∙ (rw (status_of, e) refl) in
        rw (ledger_step, s)
          (refl, erased (set_status id unused l) refl (erase-agrees r l id unused false h refl f))
    go (some p) true e f a = absurd (ground (arith, h.apart id f))

consume-Reads :
    (id : String) (p : PendingReplayContinuation) (r : ReplayContinuationRegistry) (l : Ledger)
    → Reads r l
    → Agree (registry_step (call_consume id p) r) (ledger_step (call_consume id p) l)
unfolding registry_step ledger_step consume set_status get was_consumed status_of
consume-Reads id p r l h = go (get id r) (was_consumed id r) refl refl (h.agrees id)
  where
    taken :
        Reads
          (record r { pending = erase id r.pending; consumed = id ∷ r.consumed })
          (set_status id spent l)
    taken = record {
      apart = λ j gone. rw (get, lookup-erase) (apart j (string_eq.dec j id) gone);
      agrees = λ j. rw (status_of, get, lookup-erase) (agrees j (string_eq.dec j id));
      counts = h.counts;
    }
      where
        apart :
            (j : String) (d : Dec (j ≡ id))
            → (ite d true false || contains r.consumed j) ≡ true
            → (if ite d true false then none else lookup j r.pending) ≡ none
        apart j (yes e) g = refl
        apart j (no n) g = h.apart j g

        agrees :
            (j : String) (d : Dec (j ≡ id))
            → status_by
                (if ite d true false then none else lookup j r.pending)
                (ite d true false || contains r.consumed j)
              ≡ (if ite d true false then spent else l.status j)
        agrees j (yes e) = refl
        agrees j (no n) = h.agrees j

    go :
        (q : Option PendingReplayContinuation) (gone : Bool)
        → get id r ≡ q
        → was_consumed id r ≡ gone
        → status_of id r ≡ l.status id
        → Agree (registry_step (call_consume id p) r) (ledger_step (call_consume id p) l)
    go none gone e f a =
        let s : l.status id ≡ status_by none gone = sym a ∙ (rw (status_of, e, f) refl) in
        rw (registry_step, ledger_step, e, s) (none_waits gone)
      where
        none_waits : (gone : Bool) → Agree (false, r) (consumed_by id p (status_by none gone) l)
        none_waits true = (refl, h)
        none_waits false = (refl, h)
    go (some q) gone e f a =
        let s : l.status id ≡ waiting q = sym a ∙ (rw (status_of, e) refl) in
        rw (registry_step, ledger_step, e, s) (matched (q.token == p.token))
      where
        matched :
            (b : Bool)
            → Agree
                (if b
                  then (true, record r { pending = erase id r.pending; consumed = id ∷ r.consumed })
                  else (false, r))
                (if b then (true, set_status id spent l) else (false, l))
        matched true = (refl, taken)
        matched false = (refl, h)

pub step-Reads :
    (call : Call) (r : ReplayContinuationRegistry) (l : Ledger)
    → Reads r l
    → Agree (registry_step call r) (ledger_step call l)
step-Reads (call_register id c) = register-Reads id c
step-Reads (call_discard id) = discard-Reads id
step-Reads (call_consume id p) = consume-Reads id p

pub run-Reads :
    (calls : List Call) (r : ReplayContinuationRegistry) (l : Ledger)
    → Reads r l
    → ((registry_run calls r).0 ≡ (ledger_run calls l).0)
      × Reads (registry_run calls r).1 (ledger_run calls l).1
unfolding registry_run ledger_run
run-Reads [] r l h = (refl, h)
run-Reads (call ∷ calls) r l h =
    let (same, h') = step-Reads call r l h in
    let (answers, end) = run-Reads calls (registry_step call r).1 (ledger_step call l).1 h' in
    (rw (same, answers) refl, end)

pub new-Reads : Reads new_registry new_ledger
unfolding was_consumed get status_of lookup
new-Reads = record { apart = λ id gone. refl; agrees = λ id. refl; counts = refl }

-- The registry implements the life of its identifiers: whatever calls are made of a new one, it gives
-- the answers that the ledger gives, and holds for every identifier what the ledger says of it.
pub registry_refines :
    (calls : List Call)
    → ((registry_run calls new_registry).0 ≡ (ledger_run calls new_ledger).0)
      × Reads (registry_run calls new_registry).1 (ledger_run calls new_ledger).1
registry_refines calls = run-Reads calls new_registry new_ledger new-Reads

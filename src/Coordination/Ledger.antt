-- ===== src/Coordination/Ledger.antt =====
-- application/run_coordinator.py: what a client of the registry sees of it, as a machine of its own.
use capability_runner.Prelude.{
  ℕ, suc, String, Bool, true, false, Option, none, some, List, [], ◌∷◌, ◌==◌, string_eq, nat_eq,
  if◌then◌else◌,
}
use capability_runner.Coordination.Registry.{
  Continuation, PendingReplayContinuation, ReplayContinuationRegistry, was_consumed, get, stored,
  register, discard, consume,
}

-- The life of an identifier.
pub data Status : Type 0 where
  unused : Status
  waiting : PendingReplayContinuation → Status
  spent : Status

-- What a client sees of the registry: the life of each identifier, and the token that comes next.
pub record Ledger : Type 0 where
  pub status : String → Status
  pub next : ℕ

abbrev pub new_ledger : Ledger
new_ledger = record { status = λ id. unused; next = 0 }

pub data Call : Type 0 where
  call_register : String → Continuation → Call
  call_discard : String → Call
  call_consume : String → PendingReplayContinuation → Call

-- A ledger with another value at one identifier
unfoldable pub set_status : String → Status → Ledger → Ledger
set_status id s l = record l { status = λ j. if j == id then s else l.status j }

abbrev pub registered : String → Continuation → Status → Ledger → Bool × Ledger
registered id c unused l = (
  true,
  record (set_status id (waiting (record { token = l.next; continuation = stored c })) l) {
    next = suc l.next;
  },
)
registered id c other l = (false, l)

abbrev pub discarded : String → Status → Ledger → Bool × Ledger
discarded id (waiting p) l = (true, set_status id unused l)
discarded id other l = (true, l)

abbrev pub consumed_by : String → PendingReplayContinuation → Status → Ledger → Bool × Ledger
consumed_by id p (waiting q) l =
    if q.token == p.token then (true, set_status id spent l) else (false, l)
consumed_by id p other l = (false, l)

-- The life of an identifier goes from unused to waiting, and from there back or on to spent; it says
-- what each call answers.
unfoldable pub ledger_step : Call → Ledger → Bool × Ledger
ledger_step (call_register id c) l = registered id c (l.status id) l
ledger_step (call_discard id) l = discarded id (l.status id) l
ledger_step (call_consume id p) l = consumed_by id p (l.status id) l

abbrev pub accepted :
    Option PendingReplayContinuation × ReplayContinuationRegistry
    → Bool × ReplayContinuationRegistry
accepted (none, r) = (false, r)
accepted (some p, r) = (true, r)

unfoldable pub registry_step : Call → ReplayContinuationRegistry → Bool × ReplayContinuationRegistry
unfolding register discard consume
registry_step (call_register id c) r = accepted (register id c r)
registry_step (call_discard id) r = (true, discard id r)
registry_step (call_consume id p) r = consume id p r

unfoldable pub ledger_run : List Call → Ledger → List Bool × Ledger
unfolding ledger_step
ledger_run [] l = ([], l)
ledger_run (call ∷ calls) l =
    let (answer, l') = ledger_step call l in
    let (answers, end) = ledger_run calls l' in (answer ∷ answers, end)

unfoldable pub registry_run :
    List Call → ReplayContinuationRegistry → List Bool × ReplayContinuationRegistry
unfolding registry_step
registry_run [] r = ([], r)
registry_run (call ∷ calls) r =
    let (answer, r') = registry_step call r in
    let (answers, end) = registry_run calls r' in (answer ∷ answers, end)

-- The status that the registry gives an identifier.
abbrev pub status_by : Option PendingReplayContinuation → Bool → Status
status_by (some p) gone = waiting p
status_by none true = spent
status_by none false = unused

unfoldable pub status_of : String → ReplayContinuationRegistry → Status
unfolding get was_consumed
status_of id r = status_by (get id r) (was_consumed id r)

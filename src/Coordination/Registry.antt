-- ===== src/Coordination/Registry.antt =====
-- application/run_coordinator.py: `_PendingReplayContinuation` and `ReplayContinuationRegistry`.
--
-- A continuation is a Python object, and `consume` compares objects: a token stands for the identity
-- of each, and the registry counts them. The lock of a continuation is the event loop's.
use capability_runner.Prelude.{
  ℕ, suc, String, Bool, true, false, Option, none, some, List, [], ◌∷◌, ◌==◌, string_eq, nat_eq,
  ◌||◌, contains, if◌then◌else◌, Dict, lookup, insert, erase, has_key,
}
use capability_runner.Contracts.Capabilities.{CapabilityDefinition}
use capability_runner.Contracts.Gateway.{GatewayExecutionContext}
use capability_runner.Contracts.Replay.{ReplayCheckpoint}
use capability_runner.Replay.Checks.{sorted_items}

-- What is registered under an identifier.
pub record Continuation : Type 0 where
  pub capability : CapabilityDefinition
  pub checkpoint : ReplayCheckpoint
  pub runtime_inputs : Dict String
  pub context : GatewayExecutionContext

pub record PendingReplayContinuation : Type 0 where
  pub token : ℕ
  pub continuation : Continuation

pub record ReplayContinuationRegistry : Type 0 where
  pub pending : Dict PendingReplayContinuation
  pub consumed : List String
  pub next_token : ℕ

abbrev pub new_registry : ReplayContinuationRegistry
new_registry = record { pending = []; consumed = []; next_token = 0 }

-- `revealed_inputs`: the values, in the order in which they were stored
abbrev pub revealed_inputs : PendingReplayContinuation → Dict String
revealed_inputs p = p.continuation.runtime_inputs

unfoldable pub was_consumed : String → ReplayContinuationRegistry → Bool
was_consumed id registry = contains registry.consumed id

unfoldable pub get : String → ReplayContinuationRegistry → Option PendingReplayContinuation
get id registry = lookup id registry.pending

abbrev pub stored : Continuation → Continuation
stored c = record c { runtime_inputs = sorted_items c.runtime_inputs }

abbrev pub pending_for : Continuation → ReplayContinuationRegistry → PendingReplayContinuation
pending_for c registry = record { token = registry.next_token; continuation = stored c }

-- `register`; nothing is returned where it raises `ValueError`.
unfoldable pub register :
    String
    → Continuation
    → ReplayContinuationRegistry
    → Option PendingReplayContinuation × ReplayContinuationRegistry
register id c registry =
    if has_key id registry.pending || contains registry.consumed id then (none, registry) else (
      some (pending_for c registry),
      record registry {
        pending = insert id (pending_for c registry) registry.pending;
        next_token = suc registry.next_token;
      },
    )

unfoldable pub discard : String → ReplayContinuationRegistry → ReplayContinuationRegistry
discard id registry = record registry { pending = erase id registry.pending }

-- `a is b`
abbrev pub is_same : Option PendingReplayContinuation → PendingReplayContinuation → Bool
is_same none p = false
is_same (some q) p = q.token == p.token

unfoldable pub consume :
    String
    → PendingReplayContinuation
    → ReplayContinuationRegistry
    → Bool × ReplayContinuationRegistry
consume id p registry =
    if is_same (lookup id registry.pending) p
    then (
      true,
      record registry { pending = erase id registry.pending; consumed = id ∷ registry.consumed },
    )
    else (false, registry)

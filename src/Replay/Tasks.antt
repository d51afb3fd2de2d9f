-- ===== src/Replay/Tasks.antt =====
-- replay/replay_engine.py: properties that every result of a task has, through its awaits.
use capability_runner.Prelude.{◌≡◌, refl, subst, Option, none, some, string_eq, arith}
use capability_runner.Ports.{Ports, World}
use capability_runner.Replay.Collection.{Task, and_then}

-- What every result of a task satisfies, whatever the world that it runs in.
abbrev pub Ensures : {A : Type 0} (P : Ports) → (A → Type 0) → Task P A → Type 0
Ensures P Q task = (w : World P) (a : _) → (task w).0 ≡ some a → Q a

pub and_then-Ensures :
    {A B : Type 0} (P : Ports) (R : A → Type 0) (Q : B → Type 0) (task : Task P A)
    (next : A → Task P B)
    → Ensures P R task
    → ((a : A) → R a → Ensures P Q (next a))
    → Ensures P Q (and_then P task next)
and_then-Ensures {A} {B} P R Q task next first onward w b e = go (task w).0 refl
  where
    go : (o : Option A) → (task w).0 ≡ o → Q b
    go none h = absurd (ground arith)
    go (some a) h = onward a (first w a h) (task w).1 b (ground arith)

pub done-Ensures :
    {A : Type 0} (P : Ports) (Q : A → Type 0) (a : A) → Q a → Ensures P Q (λ w. (some a, w))
done-Ensures P Q a q w b e = subst Q (ground arith) q

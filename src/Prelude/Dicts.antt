-- ===== src/Prelude/Dicts.antt =====
-- Python dicts with text keys, as association lists in insertion order.
use Prim.Native.String.{String}
use mathlib.Core.Path.{◌≡◌, refl, sym, subst}
use mathlib.Core.Logic.{ite}
use mathlib.Core.Bool.{Bool, true, false}
use mathlib.Core.Option.{Option, none, some, some-injective}
use mathlib.Core.List.{List, [], ◌∷◌}
use native.Mathlib.Omega.{arith}
use capability_runner.Prelude.Equality.{◌==◌, string_eq, if◌then◌else◌}

abbrev pub Dict {ℓ} : Type ℓ → Type ℓ
Dict V = List (String × V)

module _ {ℓ} {V : Type ℓ} where
  -- `d.get(key)`
  unfoldable pub lookup : String → Dict V → Option V
  lookup key [] = none
  lookup key ((k, v) ∷ d) = if key == k then some v else lookup key d

  -- `d[key] = value`
  unfoldable pub insert : String → V → Dict V → Dict V
  insert key value [] = (key, value) ∷ []
  insert key value ((k, v) ∷ d) = if key == k then (key, value) ∷ d else (k, v) ∷ insert key value d

  -- `d.pop(key, None)`. Every entry of the key goes; a real dict has at most one.
  unfoldable pub erase : String → Dict V → Dict V
  erase key [] = []
  erase key ((k, v) ∷ d) = let rest = erase key d in if key == k then rest else (k, v) ∷ rest

  abbrev pub is_some : Option V → Bool
  is_some none = false
  is_some (some v) = true

  -- `key in d`
  abbrev pub has_key : String → Dict V → Bool
  has_key key d = is_some (lookup key d)

  pub lookup-nil : (key : String) → lookup key [] ≡ none
  unfolding lookup
  lookup-nil key = refl

  pub lookup-insert :
      (j k : String) (v : V) (d : Dict V)
      → lookup j (insert k v d) ≡ (if j == k then some v else lookup j d)
  unfolding insert lookup
  lookup-insert j k v [] = refl
  lookup-insert j k v (_ ∷ d) = ground (arith, lookup-insert j k v d)

  pub lookup-erase :
      (j k : String) (d : Dict V) → lookup j (erase k d) ≡ (if j == k then none else lookup j d)
  unfolding erase lookup
  lookup-erase j k [] = ground arith
  lookup-erase j k (_ ∷ d) = ground (arith, lookup-erase j k d)

  -- What holds of every entry holds of every entry after an insertion that meets it.
  pub insert-All {κ} :
      (P : String → V → Type κ) (key : String) (value : V) (d : Dict V)
      → ((k : String) (v : V) → lookup k d ≡ some v → P k v)
      → P key value
      → (k : String) (v : V) → lookup k (insert key value d) ≡ some v
      → P k v
  insert-All P key value d all new k v found =
      pick (string_eq.dec k key) (rw lookup-insert at found)
    where
      pick :
          (same : Dec (k ≡ key))
          → (if ite same true false then some value else lookup k d) ≡ some v
          → P k v
      pick (yes p) e = subst (P k) (some-injective value v e) (subst (λ j. P j value) (sym p) new)
      pick (no n) e = all k v e

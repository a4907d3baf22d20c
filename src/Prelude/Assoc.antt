-- ===== src/Prelude/Assoc.antt =====
-- Keyed tables: a `HashMap`, or the rows of a table with a primary key. The list is the order in
-- which an iteration visits the entries; no law below depends on it.
use Prim.Native.Nat.{◌+◌, ◌≤◌, ◌<◌}
use mathlib.Core.Path.{◌≡◌, refl}
use mathlib.Core.Option.{Option, none, some}
use mathlib.Core.List.{List, [], ◌∷◌}
use native.Mathlib.Omega.{arith}
use radix_relay.Prelude.Tests.{Eq, ◌==◌, if◌then◌else◌, is_some}
use radix_relay.Prelude.Lists.{length}

abbrev pub Assoc {ℓ κ} : Type ℓ → Type κ → Type (ℓ ⊔ κ)
Assoc K V = List (K × V)

module _ {ℓ κ} {K : Type ℓ} {V : Type κ} ⦃e : Eq K⦄ where
  unfoldable pub lookup : K → Assoc K V → Option V
  lookup k [] = none
  lookup k ((j, v) ∷ m) = if j == k then some v else lookup k m

  -- `HashMap::insert`: the value of a present key is replaced.
  unfoldable pub insert : K → V → Assoc K V → Assoc K V
  insert k v [] = (k, v) ∷ []
  insert k v ((j, w) ∷ m) = if j == k then (k, v) ∷ m else (j, w) ∷ insert k v m

  unfoldable pub erase : K → Assoc K V → Assoc K V
  erase k [] = []
  erase k ((j, w) ∷ m) = let rest = erase k m in if j == k then rest else (j, w) ∷ rest

  -- No key is listed twice.
  abbrev pub Distinct : Assoc K V → Type (κ)
  Distinct [] = Unit
  Distinct ((k, v) ∷ m) = (lookup k m ≡ none) × Distinct m

  pub lookup-insert :
      (key other : K) (value : V) (m : Assoc K V)
      → lookup other (insert key value m) ≡ (if key == other then some value else lookup other m)
  unfolding lookup insert
  lookup-insert k j v [] = refl
  lookup-insert k j v ((i, w) ∷ m) =
      ground
        (arith, e.is_equal_iff k j, e.is_equal_iff i k, e.is_equal_iff i j, lookup-insert k j v m)

  pub lookup-erase :
      (k j : K) (m : Assoc K V) → lookup j (erase k m) ≡ (if k == j then none else lookup j m)
  unfolding lookup erase
  lookup-erase k j [] = ground arith
  lookup-erase k j ((i, w) ∷ m) =
      ground (arith, e.is_equal_iff k j, e.is_equal_iff i k, e.is_equal_iff i j, lookup-erase k j m)

  pub length-insert :
      (k : K) (v : V) (m : Assoc K V)
      → length (insert k v m) ≡ (if is_some (lookup k m) then length m else length m + 1)
  unfolding lookup insert
  length-insert k v [] = omega arith
  length-insert k v ((i, w) ∷ m) = ground (arith, length-insert k v m)

  length-erase_absent : (k : K) (m : Assoc K V) → lookup k m ≡ none → length (erase k m) ≡ length m
  unfolding lookup erase
  length-erase_absent k [] h = refl
  length-erase_absent k ((i, w) ∷ m) h = ground (arith, length-erase_absent k m)

  pub length-erase :
      (k : K) (m : Assoc K V)
      → Distinct m
      → length (erase k m) + (if is_some (lookup k m) then 1 else 0) ≡ length m
  unfolding lookup erase
  length-erase k [] h = omega arith
  length-erase k ((i, w) ∷ m) h =
      ground (arith, length-erase k m h.1, length-erase_absent k m, e.is_equal_iff i k)

  pub insert-Distinct : (k : K) (v : V) (m : Assoc K V) → Distinct m → Distinct (insert k v m)
  unfolding lookup insert
  insert-Distinct k v [] h = (refl, tt)
  insert-Distinct k v ((i, w) ∷ m) h = ground (
    arith,
    insert-Distinct k v m h.1,
    e.is_equal_iff i k,
    e.is_equal_iff k i,
    lookup-insert k i v m,
  )

  pub erase-Distinct : (k : K) (m : Assoc K V) → Distinct m → Distinct (erase k m)
  unfolding lookup erase
  erase-Distinct k [] h = tt
  erase-Distinct k ((i, w) ∷ m) h =
      ground (arith, erase-Distinct k m h.1, e.is_equal_iff i k, lookup-erase k i m)

  pub lookup-length : (k : K) (m : Assoc K V) {v : V} → lookup k m ≡ some v → 0 < length m
  unfolding lookup
  lookup-length k [] h = cc
  lookup-length k (x ∷ m) h = omega arith

  pub length_one :
      (i j : K) (m : Assoc K V) {v w : V}
      → length m ≤ 1
      → lookup i m ≡ some v
      → lookup j m ≡ some w
      → i ≡ j
  unfolding lookup
  length_one i j [] h p q = cc
  length_one i j ((k, v) ∷ []) h p q = ground (arith, e.is_equal_iff k i, e.is_equal_iff k j)
  length_one i j (x ∷ y ∷ m) h p q = absurd (omega arith)

-- ===== src/Prelude/MaxKey.antt =====
-- The highest key of a table: `keys().max()`, or `MAX(id)`.
use Prim.Native.Nat.{ℕ, ◌<◌}
use mathlib.Core.Path.{◌≡◌, refl}
use mathlib.Core.Logic.{inl, inr}
use mathlib.Core.Option.{Option, none, some}
use mathlib.Core.List.{[], ◌∷◌}
use native.Mathlib.Omega.{arith}
use radix_relay.Prelude.Tests.{nat_eq, ltb, if◌then◌else◌, Option-cases}
use radix_relay.Prelude.Assoc.{Assoc, lookup}

abbrev higher : ℕ → Option ℕ → ℕ
higher i none = i
higher i (some j) = if ltb i j then j else i

module _ {ℓ} {V : Type ℓ} where
  unfoldable pub max_key : Assoc ℕ V → Option ℕ
  max_key [] = none
  max_key ((i, v) ∷ m) = some (higher i (max_key m))

  pub max_key-none : (m : Assoc ℕ V) (i : ℕ) → max_key m ≡ none → lookup i m ≡ none
  unfolding max_key lookup
  max_key-none [] i h = refl
  max_key-none (x ∷ m) i h = cc

  pub max_key-above : (m : Assoc ℕ V) (t i : ℕ) → max_key m ≡ some t → t < i → lookup i m ≡ none
  unfolding max_key lookup
  max_key-above [] t i e h = refl
  max_key-above ((j, v) ∷ m) t i e h = elim (Option-cases (max_key m)) [
    | inl empty ↦ ground (arith, max_key-none m i empty)
    | inr (t', e') ↦ ground (arith, max_key-above m t' i e')
  ]

  pub max_key-found : (m : Assoc ℕ V) (t : ℕ) → max_key m ≡ some t → (v : V) × (lookup t m ≡ some v)
  unfolding max_key lookup
  max_key-found [] t e = cc
  max_key-found ((j, v) ∷ m) t e = elim (Option-cases (max_key m)) [
    | inl empty ↦ (v, ground arith)
    | inr (t', e') ↦
        let (w, found) = max_key-found m t' e' in
        (if ltb j t' then w else v, ground (arith, max_key-above m t' j e'))
  ]

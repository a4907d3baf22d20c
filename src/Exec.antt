-- ===== src/Exec.antt =====
-- Results of Rust code, and methods on `&mut self`: what was written before an early return stays
-- written, so the state comes back beside an error or a panic too.
use Prim.Native.Nat.{ℕ, ◌+◌, ◌-◌, ◌%◌, ◌^◌}
use mathlib.Core.Bool.{Bool}
use radix_relay.Prelude.{ltb, leb, if◌then◌else◌}

-- The errors of `SignalProtocolError`, `SignalBridgeError` and `MessageHistoryError`, by kind and
-- without their texts, and those that only the functions for C++ box: of the system, of serde_json,
-- and of a member that is missing.
pub data Error : Type 0 where
  invalid_state invalid_pre_key_id invalid_signed_pre_key_id invalid_kyber_pre_key_id : Error
  storage protocol serialization invalid_input session_not_found key_derivation : Error
  schema_version_too_old key_storage database clock : Error
  io json missing_field : Error
  message_not_found : ℕ → Error

pub data Outcome {ℓ} (A : Type ℓ) : Type ℓ where
  ok : A → Outcome A
  err : Error → Outcome A
  panic : Outcome A

abbrev pub Exec : Type 0 → Type 0 → Type 0
Exec S A = S → Outcome A × S

module _ {S A : Type 0} where
  abbrev pub pure : A → Exec S A
  pure a s = (ok a, s)

  abbrev pub raise : Error → Exec S A
  raise e s = (err e, s)

  abbrev pub lift : Outcome A → Exec S A
  lift r s = (r, s)

  abbrev pub gets : (S → A) → Exec S A
  gets f s = (ok (f s), s)

  -- A call on `&self` that may fail.
  abbrev pub reads : (S → Outcome A) → Exec S A
  reads f s = (f s, s)

module _ {S A B : Type 0} where
  abbrev pub continue : Outcome A → (A → Exec S B) → Exec S B
  continue (ok a) f s = f a s
  continue (err e) f s = (err e, s)
  continue panic f s = (panic, s)

  infixl 5 ◌>>=◌ ◌>>◌
  abbrev pub ◌>>=◌ : Exec S A → (A → Exec S B) → Exec S B
  ◌>>=◌ m f s = let (r, s') = m s in continue r f s'

  abbrev pub ◌>>◌ : Exec S A → Exec S B → Exec S B
  m >> k = m >>= λ _. k

-- Rust integers. With overflow checks (debug builds) an overflow panics; without, it wraps.
abbrev pub u32_mod : ℕ
u32_mod = 2 ^ 32

abbrev pub u64_mod : ℕ
u64_mod = 2 ^ 64

module _ (overflow_checks : Bool) where
  unfoldable pub add_u32 : ℕ → ℕ → Outcome ℕ
  add_u32 a b =
      if ltb (a + b) u32_mod
      then ok (a + b)
      else if overflow_checks
      then panic
      else ok ((a + b) % u32_mod)

  unfoldable pub sub_u64 : ℕ → ℕ → Outcome ℕ
  sub_u64 a b =
      if leb b a
      then ok (a - b)
      else if overflow_checks
      then panic
      else ok ((a + u64_mod - b) % u64_mod)

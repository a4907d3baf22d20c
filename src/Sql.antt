-- ===== src/Sql.antt =====
-- The SQL that the statements of the program use, over a table as the list of its rows. Where a
-- query has no ORDER BY, its rows come in the order of the list; the sort of an ORDER BY is a
-- parameter, since its order among equal keys is undefined. Statements do not fail for want of disk
-- or by corruption; constraints are checked.
pub mod Tables
pub mod Sorting
pub mod Unique
use radix_relay.Prelude.{ℕ, ◌-◌, ◌<◌, ◌^◌, ◌≡◌, refl, Bool, ◌==◌, nat_eq, ltb, if◌then◌else◌, arith}

-- A signed 64-bit column; `negsuc n` is -(n + 1).
pub data ℤ : Type 0 where
  pos : ℕ → ℤ
  negsuc : ℕ → ℤ

-- `x as i64` of a `u64`, and `x as u64` of an `i64`.
unfoldable pub as_i64 : ℕ → ℤ
as_i64 n = if ltb n (2 ^ 63) then pos n else negsuc (2 ^ 64 - 1 - n)

unfoldable pub as_u64 : ℤ → ℕ
as_u64 (pos n) = n
as_u64 (negsuc n) = 2 ^ 64 - 1 - n

pub as_u64-as_i64 : (n : ℕ) → n < 2 ^ 64 → as_u64 (as_i64 n) ≡ n
unfolding as_u64 as_i64
as_u64-as_i64 n h = ground arith

-- `a > b`
unfoldable pub gtb : ℤ → ℤ → Bool
gtb (pos a) (pos b) = ltb b a
gtb (pos a) (negsuc b) = Bool.true
gtb (negsuc a) (pos b) = Bool.false
gtb (negsuc a) (negsuc b) = ltb a b

-- `= 0`
abbrev pub is_zero : ℤ → Bool
is_zero (pos n) = n == 0
is_zero (negsuc n) = Bool.false

pub gtb_asym : (a b : ℤ) → gtb a b ≡ Bool.true → gtb b a ≡ Bool.false
unfolding gtb
gtb_asym (pos a) (pos b) h = ground arith
gtb_asym (pos a) (negsuc b) h = refl
gtb_asym (negsuc a) (pos b) h = cc
gtb_asym (negsuc a) (negsuc b) h = ground arith

pub gtb_tran : (a b c : ℤ) → gtb b a ≡ Bool.false → gtb c b ≡ Bool.false → gtb c a ≡ Bool.false
unfolding gtb
gtb_tran (pos a) (pos b) (pos c) h k = ground arith
gtb_tran (negsuc a) (negsuc b) (negsuc c) h k = ground arith
gtb_tran _ _ _ h k = ground arith

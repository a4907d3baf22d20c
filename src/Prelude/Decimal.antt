-- ===== src/Prelude/Decimal.antt =====
-- Decimal numerals as lists of character codes, as `format!` prints an unsigned integer, and
-- equality of such lists.
use Prim.Native.Nat.{ℕ, zero, suc, ◌+◌, ◌-◌, ◌*◌, ◌/◌, ◌%◌, ◌^◌, ◌≤◌, ◌<◌}
use mathlib.Core.Path.{◌≡◌, refl, sym, ap, ◌∙◌}
use mathlib.Core.Logic.{◌≢◌, ◌↔◌, inl, inr}
use mathlib.Core.Bool.{Bool, true, false, ◌&&◌}
use mathlib.Core.List.{List, [], ◌∷◌, ◌++◌}
use mathlib.Core.Option.{Option, none, some}
use native.Mathlib.Omega.{arith}
use radix_relay.Prelude.Tests.{Eq, nat_eqb, ltb, leb, if◌then◌else◌, Bool-cases}

abbrev pub list_eqb : List ℕ → List ℕ → Bool
list_eqb [] [] = true
list_eqb [] (y ∷ ys) = false
list_eqb (x ∷ xs) [] = false
list_eqb (x ∷ xs) (y ∷ ys) = nat_eqb x y && list_eqb xs ys

pub list_eqb_iff : (xs ys : List ℕ) → (list_eqb xs ys ≡ true) ↔ (xs ≡ ys)
list_eqb_iff [] [] = (λ h. refl, λ h. refl)
list_eqb_iff [] (y ∷ ys) = (λ h. cc, λ h. cc)
list_eqb_iff (x ∷ xs) [] = (λ h. cc, λ h. cc)
list_eqb_iff (x ∷ xs) (y ∷ ys) =
    (λ h. ground (arith, list_eqb_iff xs ys), λ h. ground (arith, list_eqb_iff xs ys))

instance abbrev pub codes_eq : Eq (List ℕ)
codes_eq = record { is_equal = list_eqb; is_equal_iff = list_eqb_iff }

-- With more fuel than the value the numeral is complete.
unfoldable pub decimal_from : ℕ → ℕ → List ℕ
decimal_from zero n = []
decimal_from (suc fuel) n =
    let rest = decimal_from fuel (n / 10) in
    if ltb n 10 then (b'0' + n) ∷ [] else rest ++ (b'0' + n % 10) ∷ []

unfoldable pub decimal : ℕ → List ℕ
unfolding decimal_from
decimal n = decimal_from (suc n) n

value_from : ℕ → List ℕ → ℕ
value_from acc [] = acc
value_from acc (d ∷ ds) = value_from (acc * 10 + (d - b'0')) ds

value_from-append :
    (acc : ℕ) (xs ys : List ℕ) → value_from acc (xs ++ ys) ≡ value_from (value_from acc xs) ys
unfolding value_from
value_from-append acc [] ys = refl
value_from-append acc (x ∷ xs) ys = value_from-append (acc * 10 + (x - b'0')) xs ys

value_from-decimal_from : (fuel n : ℕ) → n < fuel → value_from 0 (decimal_from fuel n) ≡ n
unfolding decimal_from value_from
value_from-decimal_from zero n h = absurd (omega arith)
value_from-decimal_from (suc fuel) n h = elim (Bool-cases (ltb n 10)) [
  | inl small ↦ rw small (omega arith)
  | inr large ↦
      let ih = value_from-decimal_from fuel (n / 10) (ground arith) in
      rw (large, value_from-append 0 (decimal_from fuel (n / 10)) ((b'0' + n % 10) ∷ []), ih)
        (omega arith)
]

-- Two numbers with one numeral are one number.
pub decimal-injective : (m n : ℕ) → decimal m ≡ decimal n → m ≡ n
unfolding decimal
decimal-injective m n h =
    sym (value_from-decimal_from (suc m) m (omega arith))
    ∙ ap (value_from 0) h
    ∙ value_from-decimal_from (suc n) n (omega arith)

abbrev pub AllDigits : List ℕ → Type 0
AllDigits [] = Unit
AllDigits (d ∷ ds) = (b'0' ≤ d) × (d ≤ b'9') × AllDigits ds

AllDigits-append : (xs ys : List ℕ) → AllDigits xs → AllDigits ys → AllDigits (xs ++ ys)
AllDigits-append [] ys h k = k
AllDigits-append (x ∷ xs) ys h k = (h.0, h.1, AllDigits-append xs ys h.2 k)

decimal_from-AllDigits : (fuel n : ℕ) → AllDigits (decimal_from fuel n)
unfolding decimal_from
decimal_from-AllDigits zero n = tt
decimal_from-AllDigits (suc fuel) n = elim (Bool-cases (ltb n 10)) [
  | inl small ↦ rw small (omega arith, ground arith, tt)
  | inr large ↦ rw large (
      AllDigits-append (decimal_from fuel (n / 10)) ((b'0' + n % 10) ∷ [])
        (decimal_from-AllDigits fuel (n / 10)) (omega arith, omega arith, tt))
]

pub decimal-AllDigits : (n : ℕ) → AllDigits (decimal n)
unfolding decimal
decimal-AllDigits n = decimal_from-AllDigits (suc n) n

-- `str::parse::<u64>`: an optional sign, then one digit at least, and no overflow.
parse_digits : ℕ → List ℕ → Option ℕ
parse_digits acc [] = some acc
parse_digits acc (d ∷ ds) =
    let value = acc * 10 + (d - b'0') in
    let rest = parse_digits value ds in
    if leb b'0' d && leb d b'9' && ltb value (2 ^ 64) then rest else none

abbrev parse_nonempty : List ℕ → Option ℕ
parse_nonempty [] = none
parse_nonempty (d ∷ ds) = parse_digits 0 (d ∷ ds)

unfoldable pub parse_u64 : List ℕ → Option ℕ
unfolding parse_digits
parse_u64 [] = none
parse_u64 (c ∷ cs) = if nat_eqb c b'+' then parse_nonempty cs else parse_digits 0 (c ∷ cs)

value_from-above : (acc : ℕ) (ds : List ℕ) → acc ≤ value_from acc ds
unfolding value_from
value_from-above acc [] = omega arith
value_from-above acc (d ∷ ds) = omega (arith, value_from-above (acc * 10 + (d - b'0')) ds)

parse_digits-value :
    (acc : ℕ) (ds : List ℕ)
    → AllDigits ds
    → value_from acc ds < 2 ^ 64
    → parse_digits acc ds ≡ some (value_from acc ds)
unfolding value_from parse_digits
parse_digits-value acc [] h l = refl
parse_digits-value acc (d ∷ ds) h l =
    let value = acc * 10 + (d - b'0') in
    let ih = parse_digits-value value ds h.2 l in
    let above = value_from-above value ds in ground arith

parse_u64-value :
    (ds : List ℕ)
    → ds ≢ []
    → AllDigits ds
    → value_from 0 ds < 2 ^ 64
    → parse_u64 ds ≡ some (value_from 0 ds)
unfolding parse_u64
parse_u64-value [] h a l = absurd (h refl)
parse_u64-value (c ∷ cs) h a l =
    let e : nat_eqb c b'+' ≡ false = ground arith in rw e (parse_digits-value 0 (c ∷ cs) a l)

append-nonempty : (xs : List ℕ) (y : ℕ) → (xs ++ (y ∷ [])) ≢ []
append-nonempty [] y h = cc
append-nonempty (x ∷ xs) y h = cc

decimal-nonempty : (n : ℕ) → decimal n ≢ []
unfolding decimal decimal_from
decimal-nonempty n h = elim (Bool-cases (ltb n 10)) [
  | inl small ↦ absurd (ground arith)
  | inr large ↦ append-nonempty (decimal_from n (n / 10)) (b'0' + n % 10) (ground arith)
]

-- A number of 64 bits is parsed back from its numeral.
pub parse_u64-decimal : (n : ℕ) → n < 2 ^ 64 → parse_u64 (decimal n) ≡ some n
unfolding decimal
parse_u64-decimal n h =
    let e = value_from-decimal_from (suc n) n (omega arith) in
    parse_u64-value (decimal n) (decimal-nonempty n) (decimal-AllDigits n) (rw e h)
    ∙ ap (λ m. some m) e

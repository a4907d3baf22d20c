-- ===== src/Prelude/Numerals.antt =====
-- `u64::to_string`, as a text.
use package.Prim.Native.String.{◌++◌ as str_append}
use Prim.Native.Char.{code}
use Prim.Native.Nat.{ℕ, zero, suc, ◌+◌, ◌/◌, ◌%◌, ◌<◌}
use package.text.Mathlib.TextLemmas.{nil-append, cons-append}
use mathlib.Core.Path.{◌≡◌, refl, ap, ap₂, ◌∙◌}
use mathlib.Core.Logic.{inl, inr}
use mathlib.Core.List.{List, [], ◌∷◌, ◌++◌}
use native.Mathlib.Omega.{arith}
use radix_relay.Prelude.Tests.{String, ltb, if◌then◌else◌, Bool-cases}
use radix_relay.Prelude.Decimal.{decimal, decimal_from}

-- The code points of a text: its bytes, if it is ASCII.
abbrev pub codes : String → List ℕ
codes String.[] = []
codes (String.◌∷◌ c s) = code c ∷ codes s

-- The digit of a number below 10.
abbrev digit : ℕ → String
digit zero = "0"
digit (suc zero) = "1"
digit (suc (suc zero)) = "2"
digit (suc (suc (suc zero))) = "3"
digit (suc (suc (suc (suc zero)))) = "4"
digit (suc (suc (suc (suc (suc zero))))) = "5"
digit (suc (suc (suc (suc (suc (suc zero)))))) = "6"
digit (suc (suc (suc (suc (suc (suc (suc zero))))))) = "7"
digit (suc (suc (suc (suc (suc (suc (suc (suc zero)))))))) = "8"
digit (suc (suc (suc (suc (suc (suc (suc (suc (suc n))))))))) = "9"

text_from : ℕ → ℕ → String
text_from zero n = ""
text_from (suc fuel) n =
    let rest = text_from fuel (n / 10) in
    if ltb n 10 then digit n else str_append rest (digit (n % 10))

unfoldable pub to_text : ℕ → String
unfolding text_from
to_text n = text_from (suc n) n

codes-append : (s t : String) → codes (str_append s t) ≡ codes s ++ codes t
codes-append String.[] t = ap codes (nil-append t)
codes-append (String.◌∷◌ c s) t =
    ap codes (cons-append c s t) ∙ ap (λ l. code c ∷ l) (codes-append s t)

digit-codes : (n : ℕ) → n < 10 → codes (digit n) ≡ (b'0' + n) ∷ []
digit-codes zero h = refl
digit-codes (suc zero) h = refl
digit-codes (suc (suc zero)) h = refl
digit-codes (suc (suc (suc zero))) h = refl
digit-codes (suc (suc (suc (suc zero)))) h = refl
digit-codes (suc (suc (suc (suc (suc zero))))) h = refl
digit-codes (suc (suc (suc (suc (suc (suc zero)))))) h = refl
digit-codes (suc (suc (suc (suc (suc (suc (suc zero))))))) h = refl
digit-codes (suc (suc (suc (suc (suc (suc (suc (suc zero)))))))) h = refl
digit-codes (suc (suc (suc (suc (suc (suc (suc (suc (suc n))))))))) h =
    let e : n ≡ 0 = omega arith in rw e

codes-text_from : (fuel n : ℕ) → codes (text_from fuel n) ≡ decimal_from fuel n
unfolding text_from decimal_from
codes-text_from zero n = refl
codes-text_from (suc fuel) n = elim (Bool-cases (ltb n 10)) [
  | inl small ↦ rw small (digit-codes n (ground arith))
  | inr large ↦ rw large (
      codes-append (text_from fuel (n / 10)) (digit (n % 10))
      ∙ ap₂ (λ a b. a ++ b) (codes-text_from fuel (n / 10)) (digit-codes (n % 10) (omega arith)))
]

-- The text of a number is its decimal numeral.
pub codes-to_text : (n : ℕ) → codes (to_text n) ≡ decimal n
unfolding to_text decimal
codes-to_text n = codes-text_from (suc n) n

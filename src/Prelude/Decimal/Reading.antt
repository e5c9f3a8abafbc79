-- ===== src/Prelude/Decimal/Reading.antt =====
-- A number that is written out reads back.
use Prim.Native.Nat.{ℕ, zero, suc, ◌+◌, ◌-◌, ◌*◌, ◌/◌, ◌%◌, ◌^◌, ◌<◌}
use mathlib.Core.Path.{◌≡◌, refl, ap, ◌∙◌}
use mathlib.Core.Logic.{inl, inr}
use mathlib.Core.Bool.{true, false}
use mathlib.Core.Option.{some}
use mathlib.Core.List.{List, [], ◌∷◌}
use native.Mathlib.Omega.{arith}
use novaque.Prelude.Tests.{ltb, ◌==◌, Bool-cases}
use novaque.Prelude.Lists.{All, is_empty}
use novaque.Prelude.Int.{pos}
use novaque.Prelude.Decimal.{
  is_digit, digits_value, unsigned, within_pos, parse_int, decimal_onto, decimal,
}

abbrev pub IsDigits : List ℕ → Type 0
IsDigits = All (λ c. is_digit c ≡ true)

low_digit : (n : ℕ) → n < 10 → is_digit (48 + n) ≡ true
low_digit n h = ground arith

digits_value-onto :
    (fuel n : ℕ) (tail : List ℕ)
    → n < fuel
    → digits_value 0 (decimal_onto fuel n tail) ≡ digits_value n tail
unfolding digits_value decimal_onto
digits_value-onto zero n tail h = absurd (omega arith)
digits_value-onto (suc fuel) n tail h = elim (Bool-cases (ltb n 10)) [
  | inl e ↦
      let small : n < 10 = ground arith in
      rw (e, low_digit n small) (ap (λ (v : ℕ). digits_value v tail) (omega arith))
  | inr e ↦
      let big : 9 < n = ground arith in
      let digit : n % 10 < 10 = omega arith in
      let same : n / 10 * 10 + (48 + n % 10 - 48) ≡ n = omega arith in
      rw e (
        digits_value-onto fuel (n / 10) ((48 + n % 10) ∷ tail) (omega (arith, h, big))
        ∙ rw (low_digit (n % 10) digit) (ap (λ (v : ℕ). digits_value v tail) same))
]

decimal_onto-IsDigits :
    (fuel n : ℕ) (tail : List ℕ)
    → n < fuel
    → IsDigits tail
    → IsDigits (decimal_onto fuel n tail) × (is_empty (decimal_onto fuel n tail) ≡ false)
unfolding decimal_onto
decimal_onto-IsDigits zero n tail h d = absurd (omega arith)
decimal_onto-IsDigits (suc fuel) n tail h d = elim (Bool-cases (ltb n 10)) [
  | inl e ↦ rw e ((low_digit n (ground arith), d), refl)
  | inr e ↦
      let big : 9 < n = ground arith in
      rw e (
        decimal_onto-IsDigits fuel (n / 10) ((48 + n % 10) ∷ tail) (omega (arith, h, big))
          (low_digit (n % 10) (omega arith), d))
]

pub decimal-IsDigits : (n : ℕ) → IsDigits (decimal n) × (is_empty (decimal n) ≡ false)
unfolding decimal
decimal-IsDigits n = decimal_onto-IsDigits (n + 1) n [] (omega arith) tt

parse_int-digits :
    (cs : List ℕ)
    → is_empty cs ≡ false
    → IsDigits cs
    → parse_int cs ≡ within_pos (digits_value 0 cs)
unfolding parse_int unsigned
parse_int-digits [] h d = absurd (cc)
parse_int-digits (c ∷ cs) h d =
    let no_plus : (c == 43) ≡ false = ground (arith, d.0) in
    let no_minus : (c == 45) ≡ false = ground (arith, d.0) in rw (no_plus, no_minus) refl

-- A number below 2 ^ 63 that is written in base 10 is parsed as itself.
pub parse_int-decimal : (n : ℕ) → n < 2 ^ 63 → parse_int (decimal n) ≡ some (pos n)
unfolding decimal digits_value
parse_int-decimal n h =
    let small : ltb n (2 ^ 63) ≡ true = ground arith in
    let digits = decimal-IsDigits n in
    parse_int-digits (decimal n) digits.1 digits.0
    ∙ rw (digits_value-onto (n + 1) n [] (omega arith), small) refl

-- ===== src/Prelude/Decimal.antt =====
-- Decimal texts as lists of characters: strconv.FormatInt and strconv.ParseInt in base 10.
pub mod Reading
use Prim.Native.Nat.{ℕ, zero, suc, ◌+◌, ◌-◌, ◌*◌, ◌/◌, ◌%◌, ◌^◌}
use mathlib.Core.Bool.{Bool, ◌&&◌}
use mathlib.Core.Option.{Option, none, some}
use mathlib.Core.List.{List, [], ◌∷◌}
use novaque.Prelude.Tests.{if◌then◌else◌, ltb, leb, ◌==◌}
use novaque.Prelude.Int.{ℤ, pos, negsuc}

abbrev pub is_digit : ℕ → Bool
is_digit c = leb 48 c && leb c 57

-- The number that digits write, after `acc`.
unfoldable pub digits_value : ℕ → List ℕ → Option ℕ
digits_value acc [] = some acc
digits_value acc (c ∷ cs) = if is_digit c then digits_value (acc * 10 + (c - 48)) cs else none

unfoldable pub unsigned : List ℕ → Option ℕ
unfolding digits_value
unsigned [] = none
unsigned (c ∷ cs) = digits_value 0 (c ∷ cs)

-- A value out of the range of int64 is an error.
abbrev pub within_pos : Option ℕ → Option ℤ
within_pos none = none
within_pos (some v) = if ltb v (2 ^ 63) then some (pos v) else none

abbrev negated : ℕ → ℤ
negated zero = pos 0
negated (suc v) = negsuc v

abbrev pub within_neg : Option ℕ → Option ℤ
within_neg none = none
within_neg (some v) = if leb v (2 ^ 63) then some (negated v) else none

-- A sign may stand in front.
unfoldable pub parse_int : List ℕ → Option ℤ
unfolding unsigned
parse_int [] = none
parse_int (c ∷ cs) =
    if c == 43
    then within_pos (unsigned cs)
    else if c == 45
    then within_neg (unsigned cs)
    else within_pos (unsigned (c ∷ cs))

-- The digits of a number in front of `tail`. A number has no more digits than its value and one.
unfoldable pub decimal_onto : ℕ → ℕ → List ℕ → List ℕ
decimal_onto zero n tail = tail
decimal_onto (suc fuel) n tail =
    if ltb n 10 then (48 + n) ∷ tail else decimal_onto fuel (n / 10) ((48 + n % 10) ∷ tail)

unfoldable pub decimal : ℕ → List ℕ
unfolding decimal_onto
decimal n = decimal_onto (n + 1) n []

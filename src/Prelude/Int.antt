-- ===== src/Prelude/Int.antt =====
-- The signed values that callers pass (durations, ids, limits); the code only tests their sign.
use Prim.Native.Nat.{ℕ, zero, suc}
use mathlib.Core.Option.{Option, none, some}

-- `negsuc n` is -(n + 1).
pub data ℤ : Type 0 where
  pos : ℕ → ℤ
  negsuc : ℕ → ℤ

-- The value, if it is above zero.
abbrev pub positive? : ℤ → Option ℕ
positive? (pos zero) = none
positive? (pos (suc n)) = some (suc n)
positive? (negsuc n) = none

-- The value if it is above zero, and the default otherwise.
abbrev pub positive_or : ℕ → ℤ → ℕ
positive_or d (pos zero) = d
positive_or d (pos (suc n)) = suc n
positive_or d (negsuc n) = d

-- `v` if it is above zero, else the default `d`.
abbrev pub above_or : ℤ → ℤ → ℤ
above_or d (pos zero) = d
above_or d (pos (suc n)) = pos (suc n)
above_or d (negsuc n) = d

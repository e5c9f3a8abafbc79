-- ===== src/Admin/Heatmap/Levels.antt =====
-- The range and the order of heat levels.
use novaque.Prelude.{
  ℕ, ◌+◌, ◌-◌, ◌*◌, ◌/◌, ◌^◌, ◌≤◌, ◌<◌, ◌≡◌, arith, ltb, ◌==◌, if◌then◌else◌, inl, inr, Bool-cases,
}
use native.Mathlib.Nat.{le-div_iff_mul-le, div-mul-le_self, le_trans}
use novaque.Admin.Heatmap.{
  at_least, at_most, quartile, counter_level, dead_counter_level, heatmap_scale_floor,
}

-- A day with at least one event of a row shows: its level is from 1 to 4, and from 2 to 4 for dead
-- deliveries.
pub levels-range :
    (value max : ℕ)
    → 0 < value
    → value ≤ max
    → (1 ≤ counter_level value max)
      × (counter_level value max ≤ 4)
      × (2 ≤ dead_counter_level value max)
      × (dead_counter_level value max ≤ 4)
unfolding counter_level dead_counter_level
levels-range value max h k = ground arith

-- A quotient rises with its numerator.
div_mono : (a b s : ℕ) → 0 < s → a ≤ b → a / s ≤ b / s
div_mono a b s h k = (le-div_iff_mul-le h).1 (le_trans (div-mul-le_self a s) k)

-- Below the bound nothing wraps.
quartile-div : (v s : ℕ) → v * 4 + s ≤ 2 ^ 63 → 0 < s → quartile v s ≡ (v * 4 + s - 1) / s
unfolding quartile
quartile-div v s h k = ground arith

quartile_mono : (v w s : ℕ) → v ≤ w → w * 4 + s ≤ 2 ^ 63 → 0 < s → quartile v s ≤ quartile w s
quartile_mono v w s h bound k =
    rw (quartile-div v s (omega arith) k, quartile-div w s bound k)
      (div_mono (v * 4 + s - 1) (w * 4 + s - 1) s k (omega arith))

clamp_mono :
    (a b : ℕ)
    → a ≤ b
    → (if ltb a 1 then 1 else if ltb 4 a then 4 else a)
      ≤ (if ltb b 1 then 1 else if ltb 4 b then 4 else b)
clamp_mono a b h = ground arith

dead_clamp_mono :
    (a b : ℕ)
    → a ≤ b
    → at_least 2 (at_most 4 (at_least 1 a)) ≤ at_least 2 (at_most 4 (at_least 1 b))
dead_clamp_mono a b h = ground arith

-- Among counts with one row maximum, of which four times the larger and the scale make up at most 2 ^ 63,
-- levels rise with counts, for dead deliveries too.
pub counter_level_mono :
    (v w max : ℕ)
    → v ≤ w
    → w * 4 + at_least heatmap_scale_floor max ≤ 2 ^ 63
    → (counter_level v max ≤ counter_level w max)
      × (dead_counter_level v max ≤ dead_counter_level w max)
unfolding counter_level dead_counter_level
counter_level_mono v w max h bound =
    let s = at_least heatmap_scale_floor max in
    let q = quartile_mono v w s h bound (ground arith) in
    (
      ground (arith, clamp_mono (quartile v s) (quartile w s) q),
      elim (Bool-cases (max == 0)) [
        | inl e ↦ rw e (ground arith)
        | inr e ↦
            let d = quartile_mono v w max h (ground (arith, bound)) (ground (arith, e)) in
            ground (arith, e, dead_clamp_mono (quartile v max) (quartile w max) d)
      ],
    )

-- ===== src/Admin/Views/Window.antt =====
-- The window of day buckets.
use novaque.Prelude.{
  ℕ, zero, suc, ◌+◌, ◌-◌, ◌<◌, ◌≡◌, refl, ap, subst, ◌∙◌, inl, inr, false, Option, none, some, List,
  [], ◌∷◌, ◌==◌, arith, Bool-cases, Option-cases,
}
use novaque.Prelude.Lists.{length, first}
use novaque.Prelude.Rows.{Asc}
use novaque.Store.Types.{DailyCounters}
use novaque.Admin.Views.{by_day, zero_day, or_zero_day, fill_from, zero_fill_daily}

abbrev pub get_elem? : {A : Type 0} → List A → ℕ → Option A
get_elem? [] i = none
get_elem? (x ∷ xs) zero = some x
get_elem? (x ∷ xs) (suc i) = get_elem? xs i

fill_from-length :
    (rows : List DailyCounters) (today i n : ℕ) → length (fill_from rows today i n) ≡ n
unfolding fill_from
fill_from-length rows today i zero = refl
fill_from-length rows today i (suc n) = ap suc (fill_from-length rows today (suc i) n)

fill_from-entry :
    (rows : List DailyCounters) (today i n k : ℕ)
    → k < n
    → get_elem? (fill_from rows today i n) k
      ≡ some (or_zero_day (today - (i + k)) (by_day rows (today - (i + k))))
unfolding fill_from
fill_from-entry rows today i zero k h = absurd (omega arith)
fill_from-entry rows today i (suc n) zero h = let same : i + 0 ≡ i = omega arith in rw same refl
fill_from-entry rows today i (suc n) (suc k) h =
    let same : i + suc k ≡ suc i + k = omega arith in
    rw same (fill_from-entry rows today (suc i) n k (omega (arith, h)))

by_day-below :
    (lo day : ℕ) (rows : List DailyCounters) (hi : ℕ)
    → Asc (λ r. r.day) lo rows hi
    → day < lo
    → by_day rows day ≡ none
unfolding by_day
by_day-below lo day [] hi a h = refl
by_day-below lo day (r ∷ rs) hi a h =
    let other : (r.day == day) ≡ false = ground (arith, a.0, h) in
    rw (by_day-below (suc r.day) day rs hi a.1 (omega (arith, a.0, h)), other) refl

-- In rows by day, the last row of a day is the only one.
by_day-first :
    (lo day : ℕ) (rows : List DailyCounters) (hi : ℕ)
    → Asc (λ r. r.day) lo rows hi
    → or_zero_day day (by_day rows day)
      ≡ elim (first (λ r. r.day == day) rows) [ none ↦ zero_day day | some r ↦ r ]
unfolding by_day
by_day-first lo day [] hi a = refl
by_day-first lo day (r ∷ rs) hi a = elim (Bool-cases (r.day == day)) [
  | inl e ↦
      let same : day ≡ r.day = ground (arith, e) in
      rw (by_day-below (suc r.day) day rs hi a.1 (omega (arith, same)), e)
        (ap (λ d. record r { day = d }) same)
  | inr e ↦
      let rest = by_day-first (suc r.day) day rs hi a.1 in
      elim (Option-cases (by_day rs day)) [
        | inl n ↦ rw (n, e) (rw n at rest)
        | inr (d, n) ↦ rw (n, e) (rw n at rest)
      ]
]

-- The trend has one bucket for each day of the window, from today back: the bucket of a day is the row
-- of that day if the rows, which are in the order of their days, have one, and a row of zeros if not.
pub zero_fill_daily-window :
    (lo hi : ℕ) (rows : List DailyCounters) (days today : ℕ)
    → Asc (λ r. r.day) lo rows hi
    → (length (zero_fill_daily rows days today) ≡ days)
      × ((k : ℕ)
          → k < days
          → get_elem? (zero_fill_daily rows days today) k
            ≡ some (elim (first (λ r. r.day == today - k) rows) [
              | none ↦ zero_day (today - k)
              | some r ↦ r
            ]))
unfolding zero_fill_daily
zero_fill_daily-window lo hi rows days today a = (
  fill_from-length rows today 0 days,
  λ k h.
      let start : 0 + k ≡ k = omega arith in
      let entry : get_elem? (fill_from rows today 0 days) k
          ≡ some (or_zero_day (today - k) (by_day rows (today - k))) =
        subst
          (λ (i : ℕ).
            get_elem? (fill_from rows today 0 days) k
            ≡ some (or_zero_day (today - i) (by_day rows (today - i))))
          start (fill_from-entry rows today 0 days k h) in
      entry ∙ ap some (by_day-first lo (today - k) rows hi a),
)

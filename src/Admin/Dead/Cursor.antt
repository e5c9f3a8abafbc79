-- ===== src/Admin/Dead/Cursor.antt =====
-- The cursor of a page in a list of rows from the highest id down.
use novaque.Prelude.{
  ℕ, zero, suc, ◌+◌, ◌≤◌, ◌<◌, ◌≡◌, refl, ap, inl, inr, Bool, true, false, List, [], ◌∷◌, ◌++◌, ltb,
  arith, Bool-cases,
}
use novaque.Prelude.Lists.{All, length, take, drop, select}
use novaque.Prelude.Rows.{All-select}
use novaque.Store.Types.{DeadDelivery}
use novaque.Sqlite.Admin.Dead.Pages.{Desc}
use novaque.Admin.Dead.{new_dead_row_view, row_views, last_id}

-- A cursor above all ids takes all.
pub whole_below :
    (xs : List DeadDelivery) (l : ℕ) → All (λ e. e.id < l) xs → select (λ r. ltb r.id l) xs ≡ xs
whole_below [] l h = refl
whole_below (x ∷ xs) l h =
    let below : ltb x.id l ≡ true = ground (arith, h.0) in rw (below, whole_below xs l h.1) refl

pub last-below :
    (n i b : ℕ) (xs : List DeadDelivery)
    → All (λ e. e.id < b) xs
    → n < length xs
    → last_id i (take (suc n) xs) < b
unfolding last_id
last-below n i b [] h k = absurd (omega arith)
last-below zero i b (x ∷ xs) h k = h.0
last-below (suc n) i b (x ∷ xs) h k = last-below n x.id b xs h.1 (omega arith)

pub last-positive :
    (n i : ℕ) (xs : List DeadDelivery)
    → Desc xs
    → suc n < length xs
    → 0 < last_id i (take (suc n) xs)
unfolding last_id
last-positive n i [] h k = absurd (omega arith)
last-positive zero i (x ∷ []) h k = absurd (omega arith)
last-positive zero i (x ∷ y ∷ ys) h k = omega (arith, h.0.0)
last-positive (suc n) i (x ∷ xs) h k = last-positive n x.id xs h.1 (omega arith)

-- The cursor of the last row of a page takes what comes after the page.
pub select-rest :
    (n i : ℕ) (xs : List DeadDelivery)
    → Desc xs
    → n < length xs
    → select (λ r. ltb r.id (last_id i (take (suc n) xs))) xs ≡ drop (suc n) xs
unfolding last_id
select-rest n i [] h k = absurd (omega arith)
select-rest zero i (x ∷ xs) h k =
    let itself : ltb x.id x.id ≡ false = ground arith in rw itself (whole_below xs x.id h.0)
select-rest (suc n) i (x ∷ xs) h k =
    let last = last_id x.id (take (suc n) xs) in
    let above : ltb x.id last ≡ false =
      ground (arith, last-below n x.id x.id xs h.0 (omega arith)) in
    rw above (select-rest n x.id xs h.1 (omega arith))

pub select-twice :
    (p q : DeadDelivery → Bool) (xs : List DeadDelivery)
    → ((x : DeadDelivery) → q x ≡ true → p x ≡ true)
    → select q (select p xs) ≡ select q xs
select-twice p q [] h = refl
select-twice p q (x ∷ xs) h = elim (Bool-cases (p x)) [
  | inl e ↦ rw (e, select-twice p q xs h) refl
  | inr e ↦ elim (Bool-cases (q x)) [
    | inl t ↦ absurd (clash (h x t) e)
    | inr t ↦ rw (e, t) (select-twice p q xs h)
  ]
]
  where
    clash : {b : Bool} → b ≡ true → b ≡ false → ⊥
    clash h k = cc

pub Desc-select : (p : DeadDelivery → Bool) (xs : List DeadDelivery) → Desc xs → Desc (select p xs)
Desc-select p [] h = tt
Desc-select p (x ∷ xs) h = elim (Bool-cases (p x)) [
  | inl e ↦ rw e (All-select _ p xs h.0, Desc-select p xs h.1)
  | inr e ↦ rw e (Desc-select p xs h.1)
]

pub take-short : (n : ℕ) (xs : List DeadDelivery) → length xs ≤ n → take n xs ≡ xs
take-short zero [] h = refl
take-short zero (x ∷ xs) h = absurd (omega arith)
take-short (suc n) [] h = refl
take-short (suc n) (x ∷ xs) h = ap (λ ys. x ∷ ys) (take-short n xs (omega arith))

pub take-take : (n : ℕ) (xs : List DeadDelivery) → take n (take (suc n) xs) ≡ take n xs
take-take zero xs = refl
take-take (suc n) [] = refl
take-take (suc n) (x ∷ xs) = ap (λ ys. x ∷ ys) (take-take n xs)

pub length-take : (n : ℕ) (xs : List DeadDelivery) → n ≤ length xs → length (take n xs) ≡ n
length-take zero xs h = refl
length-take (suc n) [] h = absurd (omega arith)
length-take (suc n) (x ∷ xs) h = ap suc (length-take n xs (omega arith))

pub length-drop :
    (n : ℕ) (xs : List DeadDelivery) → n ≤ length xs → length (drop n xs) + n ≡ length xs
length-drop zero xs h = omega arith
length-drop (suc n) [] h = absurd (omega arith)
length-drop (suc n) (x ∷ xs) h = omega (arith, length-drop n xs (omega arith))

pub row_views-split :
    (now n : ℕ) (xs : List DeadDelivery)
    → row_views now (take n xs) ++ row_views now (drop n xs) ≡ row_views now xs
unfolding row_views
row_views-split now zero xs = refl
row_views-split now (suc n) [] = refl
row_views-split now (suc n) (x ∷ xs) =
    ap (λ ys. new_dead_row_view now x ∷ ys) (row_views-split now n xs)

pub take-whole : (n : ℕ) (xs : List DeadDelivery) → length (take n xs) < n → take n xs ≡ xs
take-whole zero xs h = absurd (omega arith)
take-whole (suc n) [] h = refl
take-whole (suc n) (x ∷ xs) h = ap (λ ys. x ∷ ys) (take-whole n xs (omega arith))

-- ===== src/Sqlite/Evolution/Rows.antt =====
-- The row of an id in a changed table.
use novaque.Prelude.{
  ℕ, suc, ◌≤◌, ◌<◌, ◌≡◌, refl, inl, inr, Bool, true, false, Option, none, some, List, [], ◌∷◌, ◌++◌,
  ◌==◌, arith, Bool-cases, if◌then◌else◌,
}
use novaque.Prelude.Lists.{select, modify}
use novaque.Prelude.Rows.{Asc}
use novaque.Prelude.Keys.{first_below}
use novaque.Sqlite.Schema.{DeliveryRow}
use novaque.Sqlite.Lifecycle.{row_of}

pub Asc-le : (lo : ℕ) (ds : List DeliveryRow) (hi : ℕ) → Asc (λ d. d.id) lo ds hi → lo ≤ hi
Asc-le lo [] hi a = a
Asc-le lo (d ∷ ds) hi a = omega (arith, a.0, Asc-le (suc d.id) ds hi a.1)

-- An id with a row is below the sequence.
pub row_below :
    (lo i : ℕ) (ds : List DeliveryRow) (hi : ℕ) (d : DeliveryRow)
    → Asc (λ r. r.id) lo ds hi
    → row_of ds i ≡ some d
    → i < hi
row_below lo i [] hi d a h = absurd (cc)
row_below lo i (x ∷ xs) hi d a h = elim (Bool-cases (x.id == i)) [
  | inl e ↦ ground (arith, Asc-le (suc x.id) xs hi a.1)
  | inr e ↦ row_below (suc x.id) i xs hi d a.1 (rw e at h)
]

kept_id :
    (p : Bool) (f : DeliveryRow → DeliveryRow) (x : DeliveryRow)
    → (f x).id ≡ x.id
    → (if p then f x else x).id ≡ x.id
kept_id true f x h = h
kept_id false f x h = refl

pub row-modify :
    (i : ℕ) (p : DeliveryRow → Bool) (f : DeliveryRow → DeliveryRow) (ds : List DeliveryRow)
    (d : DeliveryRow)
    → ((x : DeliveryRow) → (f x).id ≡ x.id)
    → row_of ds i ≡ some d
    → row_of (modify p f ds) i ≡ some (if p d then f d else d)
row-modify i p f [] d same h = absurd (cc)
row-modify i p f (x ∷ xs) d same h = elim (Bool-cases (x.id == i)) [
  | inl e ↦
      let here : some x ≡ some d = rw e at h in
      let here' : x ≡ d = cc in rw (kept_id (p x) f x (same x), e, here') refl
  | inr e ↦ rw (kept_id (p x) f x (same x), e) (row-modify i p f xs d same (rw e at h))
]

pub row-modify-none :
    (i : ℕ) (p : DeliveryRow → Bool) (f : DeliveryRow → DeliveryRow) (ds : List DeliveryRow)
    → ((x : DeliveryRow) → (f x).id ≡ x.id)
    → row_of ds i ≡ none
    → row_of (modify p f ds) i ≡ none
row-modify-none i p f [] same h = refl
row-modify-none i p f (x ∷ xs) same h = elim (Bool-cases (x.id == i)) [
  | inl e ↦ let here : some x ≡ none = rw e at h in absurd (cc)
  | inr e ↦ rw (kept_id (p x) f x (same x), e) (row-modify-none i p f xs same (rw e at h))
]

-- Ids are unique, so that a row that is left is the row that was there.
pub row-select :
    (lo i : ℕ) (p : DeliveryRow → Bool) (ds : List DeliveryRow) (hi : ℕ) (d : DeliveryRow)
    → Asc (λ r. r.id) lo ds hi
    → row_of (select p ds) i ≡ some d
    → row_of ds i ≡ some d
row-select lo i p [] hi d a h = h
row-select lo i p (x ∷ xs) hi d a h = elim (Bool-cases (p x)) [
  | inl e ↦
      let h' : (if x.id == i then some x else row_of (select p xs) i) ≡ some d = rw e at h in
      elim (Bool-cases (x.id == i)) [
        | inl s ↦ rw s (rw s at h')
        | inr s ↦ rw s (row-select (suc x.id) i p xs hi d a.1 (rw s at h'))
      ]
  | inr e ↦
      let later = row-select (suc x.id) i p xs hi d a.1 (rw e at h) in
      elim (Bool-cases (x.id == i)) [
        | inl s ↦
            absurd (clash (first_below (λ r. r.id) (suc x.id) i xs hi a.1 (ground arith)) later)
        | inr s ↦ rw s later
      ]
]
  where
    clash : {o : Option DeliveryRow} {d : DeliveryRow} → o ≡ none → o ≡ some d → ⊥
    clash n y = cc

-- The row of an id in a longer table.
pub row-append :
    (i : ℕ) (ds es : List DeliveryRow) (d : DeliveryRow)
    → row_of ds i ≡ some d
    → row_of (ds ++ es) i ≡ some d
row-append i [] es d h = absurd (cc)
row-append i (x ∷ xs) es d h = ground (arith, row-append i xs es d)

pub row-append-none :
    (i : ℕ) (ds es : List DeliveryRow) → row_of ds i ≡ none → row_of (ds ++ es) i ≡ row_of es i
row-append-none i [] es h = refl
row-append-none i (x ∷ xs) es h = ground (arith, row-append-none i xs es)

-- ===== src/Prelude/Keys.antt =====
-- Lemmas on tables whose keys rise: a key names one row, and a list of keys its rows.
use Prim.Native.Nat.{ℕ, zero, suc, ◌≤◌, ◌<◌}
use mathlib.Core.Path.{◌≡◌, refl, ap}
use mathlib.Core.Logic.{inl, inr}
use mathlib.Core.Bool.{Bool, true, false, ◌||◌, ◌&&◌}
use mathlib.Core.List.{List, [], ◌∷◌, map}
use mathlib.Core.Option.{none, some}
use native.Mathlib.Omega.{arith}
use novaque.Prelude.Tests.{◌==◌, Bool-cases}
use novaque.Prelude.Lists.{
  list_eq, select, first, elem, All, length, take, count, insert_by, sort_by,
}
use novaque.Prelude.Rows.{Asc, Asc-select, All-mono}

pub list_eq_sound : (xs ys : List ℕ) → list_eq xs ys ≡ true → xs ≡ ys
list_eq_sound [] [] h = refl
list_eq_sound [] (y ∷ ys) h = absurd (cc)
list_eq_sound (x ∷ xs) [] h = absurd (cc)
list_eq_sound (x ∷ xs) (y ∷ ys) h = ground (arith, list_eq_sound xs ys)

pub and_left : (a b : Bool) → (a && b) ≡ true → a ≡ true
and_left a b h = ground arith

pub and_right : (a b : Bool) → (a && b) ≡ true → b ≡ true
and_right a b h = ground arith

module _ {ℓ} {A : Type ℓ} (key : A → ℕ) where
  -- No row of a rising list has a key below its start.
  pub first_below :
      (lo i : ℕ) (xs : List A) (hi : ℕ)
      → Asc key lo xs hi
      → i < lo
      → first (λ r. key r == i) xs ≡ none
  first_below lo i [] hi a h = refl
  first_below lo i (x ∷ xs) hi a h = ground (arith, first_below (suc (key x)) i xs hi a.1)

  pub elem_below :
      (lo i : ℕ) (xs : List A) (hi : ℕ) → Asc key lo xs hi → i < lo → elem i (map key xs) ≡ false
  elem_below lo i [] hi a h = refl
  elem_below lo i (x ∷ xs) hi a h = ground (arith, elem_below (suc (key x)) i xs hi a.1)

  -- A row is the one that its key names.
  first_self_from :
      (lo : ℕ) (xs : List A) (hi : ℕ)
      → Asc key lo xs hi
      → All (λ d. (lo ≤ key d) × (first (λ r. key r == key d) xs ≡ some d)) xs
  first_self_from lo [] hi a = tt
  first_self_from lo (x ∷ xs) hi a = (
    (a.0, ground arith),
    All-mono xs (λ d h. (omega arith, ground (arith, h))) (first_self_from (suc (key x)) xs hi a.1),
  )

  pub first_self :
      (lo : ℕ) (xs : List A) (hi : ℕ)
      → Asc key lo xs hi
      → All (λ d. first (λ r. key r == key d) xs ≡ some d) xs
  first_self lo xs hi a = All-mono xs (λ d h. h.1) (first_self_from lo xs hi a)

  -- A key among those of the selected rows belongs to a row that passes the test.
  pub selected_test :
      (p : A → Bool) (lo : ℕ) (xs : List A) (hi : ℕ)
      → Asc key lo xs hi
      → All (λ d. (lo ≤ key d) × (elem (key d) (map key (select p xs)) ≡ true → p d ≡ true)) xs
  selected_test p lo [] hi a = tt
  selected_test p lo (x ∷ xs) hi a = elim (Bool-cases (p x)) [
    | inl e ↦ (
      (a.0, λ _. e),
      All-mono xs (λ d h. (omega arith, λ k. h.1 (ground (arith, e))))
          (selected_test p (suc (key x)) xs hi a.1),
    )
    | inr e ↦ (
      (a.0, λ k. absurd (never e k)),
      All-mono xs (λ d h. (omega arith, λ k. h.1 (ground (arith, e))))
          (selected_test p (suc (key x)) xs hi a.1),
    )
  ]
    where
      never : p x ≡ false → elem (key x) (map key (select p (x ∷ xs))) ≡ true → ⊥
      never e k = ground (
        arith,
        e,
        elem_below (suc (key x)) (key x) (select p xs) hi
            (Asc-select key p (suc (key x)) xs hi a.1),
      )

  pub elem-take :
      (i n : ℕ) (xs : List A) → elem i (map key (take n xs)) ≡ true → elem i (map key xs) ≡ true
  elem-take i zero xs h = absurd (cc)
  elem-take i (suc n) [] h = absurd (cc)
  elem-take i (suc n) (x ∷ xs) h = ground (arith, elem-take i n xs)

  elem-insert_by :
      (le : A → A → Bool) (i : ℕ) (a : A) (xs : List A)
      → elem i (map key (insert_by le a xs)) ≡ (i == key a || elem i (map key xs))
  unfolding insert_by
  elem-insert_by le i a [] = refl
  elem-insert_by le i a (x ∷ xs) = ground (arith, elem-insert_by le i a xs)

  pub elem-sort_by :
      (le : A → A → Bool) (i : ℕ) (xs : List A)
      → elem i (map key (sort_by le xs)) ≡ elem i (map key xs)
  unfolding sort_by
  elem-sort_by le i [] = refl
  elem-sort_by le i (x ∷ xs) =
      ground (arith, elem-insert_by le i x (sort_by le xs), elem-sort_by le i xs)

pub elem-select :
    (i : ℕ) (p : ℕ → Bool) (is : List ℕ)
    → elem i (select p is) ≡ true
    → (elem i is ≡ true) × (p i ≡ true)
elem-select i p [] h = absurd (cc)
elem-select i p (j ∷ js) h = ground (arith, elem-select i p js)

module _ {ℓ} {A : Type ℓ} where
  pub length-take-le : (n : ℕ) (xs : List A) → length (take n xs) ≤ n
  length-take-le zero xs = omega arith
  length-take-le (suc n) [] = omega arith
  length-take-le (suc n) (x ∷ xs) = omega (arith, length-take-le n xs)

  pub length-select-le : (p : A → Bool) (xs : List A) → length (select p xs) ≤ length xs
  length-select-le p [] = omega arith
  length-select-le p (x ∷ xs) = ground (arith, length-select-le p xs)

  pub length-map {κ} : {B : Type κ} (f : A → B) (xs : List A) → length (map f xs) ≡ length xs
  length-map f [] = refl
  length-map f (x ∷ xs) = ap suc (length-map f xs)

  pub length-insert_by :
      (le : A → A → Bool) (a : A) (xs : List A) → length (insert_by le a xs) ≡ suc (length xs)
  unfolding insert_by
  length-insert_by le a [] = refl
  length-insert_by le a (x ∷ xs) = ground (arith, length-insert_by le a xs)

  pub length-sort_by : (le : A → A → Bool) (xs : List A) → length (sort_by le xs) ≡ length xs
  unfolding sort_by
  length-sort_by le [] = refl
  length-sort_by le (x ∷ xs) =
      omega (arith, length-insert_by le x (sort_by le xs), length-sort_by le xs)

  pub count-eq-length-select : (p : A → Bool) (xs : List A) → count p xs ≡ length (select p xs)
  count-eq-length-select p [] = refl
  count-eq-length-select p (x ∷ xs) = ground (arith, count-eq-length-select p xs)

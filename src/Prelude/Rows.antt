-- ===== src/Prelude/Rows.antt =====
-- Lemmas on tables: what selection, change and insertion of rows keep.
use Prim.Native.Nat.{ℕ, suc, ◌≤◌}
use mathlib.Core.Path.{◌≡◌, refl, subst}
use mathlib.Core.Logic.{inl, inr}
use mathlib.Core.Bool.{Bool, true, false, ◌&&◌, not}
use mathlib.Core.List.{List, [], ◌∷◌, ◌++◌}
use mathlib.Core.Option.{some}
use native.Mathlib.Omega.{arith}
use novaque.Prelude.Tests.{◌==◌, Bool-cases}
use novaque.Prelude.Lists.{select, modify, exists, first, All}

module _ {ℓ} {A : Type ℓ} where
  pub All-select {κ} :
      (P : A → Type κ) (p : A → Bool) (xs : List A) → All P xs → All P (select p xs)
  All-select P p [] h = tt
  All-select P p (x ∷ xs) h = elim (Bool-cases (p x)) [
    | inl e ↦ rw e (h.0, All-select P p xs h.1)
    | inr e ↦ rw e (All-select P p xs h.1)
  ]

  -- The rows that are left pass the test.
  pub All-select_test : (p : A → Bool) (xs : List A) → All (λ x. p x ≡ true) (select p xs)
  All-select_test p [] = tt
  All-select_test p (x ∷ xs) = elim (Bool-cases (p x)) [
    | inl e ↦ rw e (e, All-select_test p xs)
    | inr e ↦ rw e (All-select_test p xs)
  ]

  pub All-append {κ} : (P : A → Type κ) (xs ys : List A) → All P xs → All P ys → All P (xs ++ ys)
  All-append P [] ys h k = k
  All-append P (x ∷ xs) ys h k = (h.0, All-append P xs ys h.1 k)

  pub All-mono {κ} : {P Q : A → Type κ} (xs : List A) → ((x : A) → P x → Q x) → All P xs → All Q xs
  All-mono [] f h = tt
  All-mono (x ∷ xs) f h = (f x h.0, All-mono xs f h.1)

  pub All-mono₂ {κ} :
      {P Q R : A → Type κ} (xs : List A)
      → ((x : A) → P x → Q x → R x)
      → All P xs
      → All Q xs
      → All R xs
  All-mono₂ [] f h k = tt
  All-mono₂ (x ∷ xs) f h k = (f x h.0 k.0, All-mono₂ xs f h.1 k.1)

  -- A change of the rows that pass a test.
  pub All-modify {κ} :
      {P Q : A → Type κ} (p : A → Bool) (f : A → A) (xs : List A)
      → ((x : A) → p x ≡ true → P x → Q (f x))
      → ((x : A) → p x ≡ false → P x → Q x)
      → All P xs
      → All Q (modify p f xs)
  All-modify p f [] hit miss h = tt
  All-modify p f (x ∷ xs) hit miss h = elim (Bool-cases (p x)) [
    | inl e ↦ rw e (hit x e h.0, All-modify p f xs hit miss h.1)
    | inr e ↦ rw e (miss x e h.0, All-modify p f xs hit miss h.1)
  ]

  pub exists-append_left :
      (q : A → Bool) (xs ys : List A) → exists q xs ≡ true → exists q (xs ++ ys) ≡ true
  exists-append_left q [] ys h = absurd (cc)
  exists-append_left q (x ∷ xs) ys h = ground (arith, exists-append_left q xs ys)

  pub exists-append_right :
      (q : A → Bool) (xs ys : List A) → exists q ys ≡ true → exists q (xs ++ ys) ≡ true
  exists-append_right q [] ys h = h
  exists-append_right q (x ∷ xs) ys h = ground (arith, exists-append_right q xs ys)

  -- A row that no deletion hits stays.
  pub exists-select_keep :
      (p q : A → Bool) (xs : List A)
      → exists q xs ≡ true
      → exists (λ x. p x && q x) xs ≡ false
      → exists q (select (λ x. not (p x)) xs) ≡ true
  exists-select_keep p q [] h k = absurd (cc)
  exists-select_keep p q (x ∷ xs) h k = ground (arith, exists-select_keep p q xs)

  pub exists-modify :
      (q p : A → Bool) (f : A → A) (xs : List A)
      → ((x : A) → q (f x) ≡ q x)
      → exists q (modify p f xs) ≡ exists q xs
  exists-modify q p f [] same = refl
  exists-modify q p f (x ∷ xs) same = ground (arith, same x, exists-modify q p f xs same)

  pub exists-false : (q : A → Bool) (xs : List A) → exists q xs ≡ false → All (λ x. q x ≡ false) xs
  exists-false q [] h = tt
  exists-false q (x ∷ xs) h = (ground arith, exists-false q xs (ground arith))

  -- The keys rise along the list, from `lo` and below `hi`.
  abbrev pub Asc : (A → ℕ) → ℕ → List A → ℕ → Type 0
  Asc key lo [] hi = lo ≤ hi
  Asc key lo (x ∷ xs) hi = (lo ≤ key x) × Asc key (suc (key x)) xs hi

  pub Asc-lower :
      (key : A → ℕ) (lo lo' : ℕ) (xs : List A) (hi : ℕ)
      → lo' ≤ lo
      → Asc key lo xs hi
      → Asc key lo' xs hi
  Asc-lower key lo lo' [] hi h k = omega arith
  Asc-lower key lo lo' (x ∷ xs) hi h k = (omega arith, k.1)

  pub Asc-select :
      (key : A → ℕ) (p : A → Bool) (lo : ℕ) (xs : List A) (hi : ℕ)
      → Asc key lo xs hi
      → Asc key lo (select p xs) hi
  Asc-select key p lo [] hi k = k
  Asc-select key p lo (x ∷ xs) hi k = elim (Bool-cases (p x)) [
    | inl e ↦ rw e (k.0, Asc-select key p (suc (key x)) xs hi k.1)
    | inr e ↦ rw e (Asc-select key p lo xs hi (Asc-lower key _ lo xs hi (omega arith) k.1))
  ]

  pub Asc-modify :
      (key : A → ℕ) (p : A → Bool) (f : A → A) (lo : ℕ) (xs : List A) (hi : ℕ)
      → ((x : A) → key (f x) ≡ key x)
      → Asc key lo xs hi
      → Asc key lo (modify p f xs) hi
  Asc-modify key p f lo [] hi same k = k
  Asc-modify key p f lo (x ∷ xs) hi same k = elim (Bool-cases (p x)) [
    | inl e ↦ rw (e, same x) (k.0, Asc-modify key p f (suc (key x)) xs hi same k.1)
    | inr e ↦ rw e (k.0, Asc-modify key p f (suc (key x)) xs hi same k.1)
  ]

  pub Asc-append :
      (key : A → ℕ) (lo : ℕ) (xs ys : List A) (mid hi : ℕ)
      → Asc key lo xs mid
      → Asc key mid ys hi
      → Asc key lo (xs ++ ys) hi
  Asc-append key lo [] ys mid hi k l = Asc-lower key mid lo ys hi k l
  Asc-append key lo (x ∷ xs) ys mid hi k l = (k.0, Asc-append key (suc (key x)) xs ys mid hi k.1 l)

module _ {ℓ} {A : Type ℓ} where
  pub first-test : (p : A → Bool) (xs : List A) (x : A) → first p xs ≡ some x → p x ≡ true
  first-test p [] x h = absurd (cc)
  first-test p (y ∷ ys) x h = ground (arith, first-test p ys x)

  -- What holds of the row that is found holds of some row.
  pub exists_of_first :
      (q p : A → Bool) (xs : List A) (x : A) → first p xs ≡ some x → q x ≡ true → exists q xs ≡ true
  exists_of_first q p [] x h k = absurd (cc)
  exists_of_first q p (y ∷ ys) x h k = ground (arith, exists_of_first q p ys x)

  -- Every row is among the rows, by its key.
  pub All-has : (key : A → ℕ) (xs : List A) → All (λ x. exists (λ r. key r == key x) xs ≡ true) xs
  All-has key [] = tt
  All-has key (x ∷ xs) = (ground arith, All-mono xs (λ y h. ground arith) (All-has key xs))

  pub All-first {κ} :
      (P : A → Type κ) (p : A → Bool) (xs : List A) (x : A) → All P xs → first p xs ≡ some x → P x
  All-first P p [] x h e = absurd (cc)
  All-first P p (y ∷ ys) x h e = elim (Bool-cases (p y)) [
    | inl t ↦ let found : some y ≡ some x = rw t at e in let same : y ≡ x = cc in subst P same h.0
    | inr t ↦ All-first P p ys x h.1 (rw t at e)
  ]

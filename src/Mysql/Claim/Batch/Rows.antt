-- ===== src/Mysql/Claim/Batch/Rows.antt =====
-- The rows that are leased one by one, beside those that are leased at once.
use novaque.Prelude.{
  ℕ, String, ◌≡◌, refl, sym, ap, ◌∙◌, inl, inr, Bool, true, false, ◌&&◌, ◌||◌, not, List, [], ◌∷◌,
  map, ◌==◌, if◌then◌else◌, arith, Bool-cases,
}
use novaque.Prelude.Lists.{length, select, modify, elem, exists}
use novaque.Sqlite.Schema.{DeliveryRow, is_pending}
use novaque.Sqlite.Claim.{lease_row}
use novaque.Server.Claim.{Leases}
use novaque.Mysql.Claim.{leasable}
use novaque.Postgres.Claim

abbrev has : ℕ → List DeliveryRow → Bool
has i ds = elem i (map (λ d. d.id) ds)

pass_over : {A : Type 0} (b : Bool) (x y : A) → (if b && false then x else y) ≡ y
pass_over true x y = refl
pass_over false x y = refl

has-select :
    (j : ℕ) (p : DeliveryRow → Bool) (ds : List DeliveryRow)
    → has j (select p ds) ≡ exists (λ d. j == d.id && p d) ds
has-select j p [] = refl
has-select j p (d ∷ ds) = ground (arith, has-select j p ds)

module _ (owner : String) (sec now : ℕ) (token : ℕ → String) where
  abbrev leased : DeliveryRow → DeliveryRow
  leased = lease_row owner sec now token

  -- A row that has been leased is pending no more, so the rest of the batch passes it over.
  pub lease_rows-split :
      (i : ℕ) (is : List ℕ) (ds : List DeliveryRow)
      → modify (Claim.leasable is) leased (modify (leasable i) leased ds)
        ≡ modify (Claim.leasable (i ∷ is)) leased ds
  lease_rows-split i is [] = refl
  lease_rows-split i is (d ∷ ds) = elim (Bool-cases (d.id == i)) [
    | inl e ↦ elim (Bool-cases (is_pending d.status)) [
      | inl p ↦
          rw (e, p, lease_rows-split i is ds)
            (ap (λ r. r ∷ modify (Claim.leasable (i ∷ is)) leased ds) (pass_over _ _ _))
      | inr p ↦
          rw (e, p, lease_rows-split i is ds)
            (rw p (ap (λ r. r ∷ modify (Claim.leasable (i ∷ is)) leased ds) (pass_over _ _ _)))
    ]
    | inr e ↦ rw (e, lease_rows-split i is ds) refl
  ]

  first-Leased :
      (i : ℕ) (is : List ℕ) (ds : List DeliveryRow)
      → has i (select (Claim.leasable (i ∷ is)) ds) ≡ not (length (select (leasable i) ds) == 0)
  first-Leased i is [] = refl
  first-Leased i is (d ∷ ds) = elim (Bool-cases (d.id == i)) [
    | inl e ↦ ground (arith, e, first-Leased i is ds)
    | inr e ↦ ground (arith, e, first-Leased i is ds)
  ]

  later-Leased :
      (i j : ℕ) (is : List ℕ) (ds : List DeliveryRow)
      → (j == i) ≡ false
      → exists (λ d. j == d.id && Claim.leasable (i ∷ is) d) ds
        ≡ exists (λ d. j == d.id && Claim.leasable is d) (modify (leasable i) leased ds)
  later-Leased i j is [] h = refl
  later-Leased i j is (d ∷ ds) h = elim (Bool-cases (d.id == i)) [
    | inl e ↦
        let other : (j == d.id) ≡ false = ground (arith, e, h) in
        elim (Bool-cases (is_pending d.status)) [
          | inl p ↦ rw (e, p, other) (later-Leased i j is ds h)
          | inr p ↦ rw (e, p, other) (later-Leased i j is ds h)
        ]
    | inr e ↦ rw e (ap (λ b. (j == d.id && Claim.leasable is d) || b) (later-Leased i j is ds h))
  ]

  abbrev pub answer : List ℕ → List DeliveryRow → Leases
  answer ids ds = map (λ i. (i, token i)) (select (λ i. has i (select (Claim.leasable ids) ds)) ids)

  same-Leased :
      (i : ℕ) (is js : List ℕ) (ds : List DeliveryRow)
      → elem i js ≡ false
      → select (λ j. has j (select (Claim.leasable is) (modify (leasable i) leased ds))) js
        ≡ select (λ j. has j (select (Claim.leasable (i ∷ is)) ds)) js
  same-Leased i is [] ds h = refl
  same-Leased i is (j ∷ js) ds h =
      let one =
        has-select j (Claim.leasable is) (modify (leasable i) leased ds)
        ∙ sym (later-Leased i j is ds (ground (arith, h)))
        ∙ sym (has-select j (Claim.leasable (i ∷ is)) ds) in
      rw (one, same-Leased i is js ds (ground (arith, h))) refl

  -- Unless it was affected, the first is left out of the answer.
  pub answer-split :
      (i : ℕ) (is : List ℕ) (ds : List DeliveryRow)
      → elem i is ≡ false
      → let rest = answer is (modify (leasable i) leased ds) in
        (if length (select (leasable i) ds) == 0 then rest else (i, token i) ∷ rest)
        ≡ answer (i ∷ is) ds
  answer-split i is ds h =
      rw (same-Leased i is is ds h, first-Leased i is ds)
        (branches (length (select (leasable i) ds) == 0)
          (select (λ j. has j (select (Claim.leasable (i ∷ is)) ds)) is))
    where
      branches :
          (b : Bool) (ks : List ℕ)
          → (if b
              then map {B = ℕ × String} (λ j. (j, token j)) ks
              else (i, token i) ∷ map {B = ℕ × String} (λ j. (j, token j)) ks)
            ≡ map {B = ℕ × String} (λ j. (j, token j)) (if not b then i ∷ ks else ks)
      branches true ks = refl
      branches false ks = refl

  pub lease_rows-none : (ds : List DeliveryRow) → modify (Claim.leasable []) leased ds ≡ ds
  lease_rows-none [] = refl
  lease_rows-none (d ∷ ds) = ap (λ r. d ∷ r) (lease_rows-none ds)

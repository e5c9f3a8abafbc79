-- ===== src/Sqlite/Admin/Dead/Pages.antt =====
-- The rows of ListDead: the dead rows of a channel from the highest id down, and a cursor's part of them.
use novaque.Prelude.{
  ℕ, zero, suc, ◌≤◌, ◌<◌, ◌≡◌, refl, sym, ap, ◌∙◌, inl, inr, Bool, true, false, ◌&&◌, some, List,
  [], ◌∷◌, ◌++◌, leb, ◌==◌, arith, Bool-cases, Option-cases, if◌then◌else◌,
}
use novaque.Prelude.Int.{pos, negsuc}
use novaque.Prelude.Lists.{All, take, select, insert_by, sort_by}
use novaque.Prelude.Rows.{Asc, Asc-select, All-append, All-mono}
use novaque.Store.Errors.{ok}
use novaque.Store.Types.{DeadDelivery}
use novaque.Sqlite.Schema.{Db, DeliveryRow, is_dead}
use novaque.Sqlite.Engine.{Tick}
use novaque.Sqlite.Claim.{keep_some}
use novaque.Sqlite.Invariant.{IsValid}
use novaque.Sqlite.Admin.Dead.{later_id, before_key, dead_row, dead_rows, select_dead}

backwards : List DeliveryRow → List DeliveryRow
backwards [] = []
backwards (d ∷ ds) = backwards ds ++ d ∷ []

insert-last :
    (a : DeliveryRow) (bs : List DeliveryRow)
    → All (λ b. a.id < b.id) bs
    → insert_by later_id a bs ≡ bs ++ a ∷ []
unfolding insert_by
insert-last a [] h = refl
insert-last a (b ∷ bs) h =
    let later : leb b.id a.id ≡ false = ground (arith, h.0) in rw (later, insert-last a bs h.1) refl

backwards-from :
    (lo : ℕ) (ds : List DeliveryRow) (hi : ℕ)
    → Asc (λ d. d.id) lo ds hi
    → All (λ d. lo ≤ d.id) (backwards ds)
unfolding backwards
backwards-from lo [] hi a = tt
backwards-from lo (d ∷ ds) hi a =
    All-append _ (backwards ds) _
      (All-mono (backwards ds) (λ e h. omega (arith, h, a.0)) (backwards-from (suc d.id) ds hi a.1))
      (a.0, tt)

sort_by-backwards :
    (lo : ℕ) (ds : List DeliveryRow) (hi : ℕ)
    → Asc (λ d. d.id) lo ds hi
    → sort_by later_id ds ≡ backwards ds
unfolding sort_by backwards
sort_by-backwards lo [] hi a = refl
sort_by-backwards lo (d ∷ ds) hi a =
    rw (sort_by-backwards (suc d.id) ds hi a.1)
      (insert-last d (backwards ds) (backwards-from (suc d.id) ds hi a.1))

-- From the highest id down.
abbrev pub Desc : List DeadDelivery → Type 0
Desc [] = Unit
Desc (d ∷ ds) = All (λ e. e.id < d.id) ds × Desc ds

Desc-last :
    (ds : List DeadDelivery) (e : DeadDelivery)
    → Desc ds
    → All (λ d. e.id < d.id) ds
    → Desc (ds ++ e ∷ [])
Desc-last [] e h k = (tt, tt)
Desc-last (d ∷ ds) e h k = (All-append _ ds _ h.0 (k.0, tt), Desc-last ds e h.1 k.1)

select-append :
    (p : DeadDelivery → Bool) (xs ys : List DeadDelivery)
    → select p (xs ++ ys) ≡ select p xs ++ select p ys
select-append p [] ys = refl
select-append p (x ∷ xs) ys = elim (Bool-cases (p x)) [
  | inl e ↦ rw (e, select-append p xs ys) refl
  | inr e ↦ rw (e, select-append p xs ys) refl
]

append_nil : (xs : List DeadDelivery) → xs ++ [] ≡ xs
append_nil [] = refl
append_nil (x ∷ xs) = ap (λ ys. x ∷ ys) (append_nil xs)

module _ (db : Db) (prefix : ℕ) where
  dead_row-id : (d : DeliveryRow) (r : DeadDelivery) → dead_row db prefix d ≡ some r → r.id ≡ d.id
  unfolding dead_row
  dead_row-id d r h = ground arith

  dead_rows-append :
      (xs ys : List DeliveryRow)
      → dead_rows db prefix (xs ++ ys) ≡ dead_rows db prefix xs ++ dead_rows db prefix ys
  unfolding dead_rows
  dead_rows-append [] ys = refl
  dead_rows-append (x ∷ xs) ys = elim (Option-cases (dead_row db prefix x)) [
    | inl e ↦ rw (e, dead_rows-append xs ys) refl
    | inr (r, e) ↦ rw (e, dead_rows-append xs ys) refl
  ]

  newest : List DeliveryRow → List DeadDelivery
  newest ds = dead_rows db prefix (backwards ds)

  newest-step :
      (d : DeliveryRow) (ds : List DeliveryRow)
      → newest (d ∷ ds) ≡ newest ds ++ keep_some (dead_row db prefix d) []
  unfolding newest backwards dead_rows
  newest-step d ds = dead_rows-append (backwards ds) (d ∷ [])

  -- The rows are in order, and none is below the first id.
  newest-Desc :
      (lo : ℕ) (ds : List DeliveryRow) (hi : ℕ)
      → Asc (λ d. d.id) lo ds hi
      → Desc (newest ds) × All (λ r. lo ≤ r.id) (newest ds)
  unfolding newest backwards dead_rows
  newest-Desc lo [] hi a = (tt, tt)
  newest-Desc lo (d ∷ ds) hi a =
      let (desc, above) = newest-Desc (suc d.id) ds hi a.1 in
      let above' : All (λ r. lo ≤ r.id) (newest ds) =
        All-mono (newest ds) (λ e h. omega (arith, h, a.0)) above in
      elim (Option-cases (dead_row db prefix d)) [
        | inl e ↦ rw (newest-step d ds, e, append_nil (newest ds)) (desc, above')
        | inr (r, e) ↦
            let same = dead_row-id d r e in
            rw (newest-step d ds, e)
              (
                Desc-last (newest ds) r desc
                    (All-mono (newest ds) (λ x h. omega (arith, h, same)) above),
                All-append _ (newest ds) _ above' (omega (arith, same, a.0), tt),
              )
      ]

  kept :
      (q : ℕ → Bool) (d : DeliveryRow)
      → select (λ r. q r.id) (keep_some (dead_row db prefix d) [])
        ≡ (if q d.id then keep_some (dead_row db prefix d) [] else [])
  kept q d = elim (Option-cases (dead_row db prefix d)) [
    | inl e ↦ rw e (none_kept (q d.id))
    | inr (r, e) ↦ rw (e, dead_row-id d r e) refl
  ]
    where
      none_kept : (b : Bool) → ◌≡◌ {A = List DeadDelivery} [] (if b then [] else [])
      none_kept true = refl
      none_kept false = refl

  -- A cursor in the query takes the rows that it takes of all.
  newest-select :
      (p : DeliveryRow → Bool) (q : ℕ → Bool) (ds : List DeliveryRow)
      → newest (select (λ d. p d && q d.id) ds) ≡ select (λ r. q r.id) (newest (select p ds))
  unfolding newest backwards dead_rows
  newest-select p q [] = refl
  newest-select p q (d ∷ ds) = elim (Bool-cases (p d)) [
    | inr e ↦ rw e (newest-select p q ds)
    | inl e ↦
        let after = newest (select p ds) in
        let split : select (λ r. q r.id) (newest (d ∷ select p ds))
            ≡ newest (select (λ d. p d && q d.id) ds)
              ++ (if q d.id then keep_some (dead_row db prefix d) [] else []) =
          rw
            (
              newest-step d (select p ds),
              select-append (λ r. q r.id) after (keep_some (dead_row db prefix d) []),
              kept q d,
              newest-select p q ds,
            )
            refl in
        elim (Bool-cases (q d.id)) [
          | inl t ↦
              rw e (rw t (newest-step d (select (λ d. p d && q d.id) ds) ∙ sym (rw t at split)))
          | inr t ↦ rw e (rw t (sym (rw t at split ∙ append_nil _)))
        ]
  ]

  -- The dead rows of the channel, the newest first.
  pub dead_letters : ℕ → List DeadDelivery
  unfolding newest
  dead_letters channel =
      newest (select (λ d. d.channel_id == channel && is_dead d.status) db.deliveries)

  pub dead_letters-Desc : (channel : ℕ) → IsValid db → Desc (dead_letters channel)
  unfolding dead_letters
  dead_letters-Desc channel v =
      (newest-Desc 1 _ db.next_delivery (Asc-select _ _ 1 db.deliveries _ v.delivery_ids)).0

  -- What ListDead reads: the first rows below the cursor.
  pub select_dead-reads :
      (channel before limit : ℕ) (t : Tick)
      → IsValid db
      → (select_dead channel (pos before) limit prefix t db).0
        ≡ ok (take limit (select (λ r. before_key (pos before) r.id) (dead_letters channel)))
  unfolding select_dead dead_letters newest
  select_dead-reads channel before limit t v =
      let q = before_key (pos before) in
      let of_channel = λ (d : DeliveryRow). d.channel_id == channel && is_dead d.status in
      let rows =
        select (λ d. d.channel_id == channel && is_dead d.status && q d.id) db.deliveries in
      let sorted = sort_by-backwards 1 rows _ (Asc-select _ _ 1 db.deliveries _ v.delivery_ids) in
      ap (λ (ds : List DeliveryRow). ok (take limit (dead_rows db prefix ds))) sorted
      ∙ ap (λ (rs : List DeadDelivery). ok (take limit rs))
          (newest-select of_channel q db.deliveries)

  select-none :
      (p : DeliveryRow → Bool) (ds : List DeliveryRow)
      → ((d : DeliveryRow) → p d ≡ false)
      → select p ds ≡ []
  select-none p [] h = refl
  select-none p (d ∷ ds) h = rw (h d) (select-none p ds h)

  take-none : (n : ℕ) → ◌≡◌ {A = List DeadDelivery} (take n []) []
  take-none zero = refl
  take-none (suc n) = refl

  -- A negative cursor reads no row.
  pub select_dead-negative :
      (channel b limit : ℕ) (t : Tick)
      → (select_dead channel (negsuc b) limit prefix t db).0 ≡ ok []
  unfolding select_dead dead_rows sort_by
  select_dead-negative channel b limit t =
      let none_below =
        select-none (λ d. d.channel_id == channel && is_dead d.status && before_key (negsuc b) d.id)
          db.deliveries (λ d. ground arith) in
      rw none_below (ap ok (take-none limit))

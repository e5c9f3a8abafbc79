-- ===== src/Admin/Dead/Point.antt =====
-- The page of one dead delivery.
use novaque.Prelude.{
  ℕ, suc, ◌+◌, ◌-◌, ◌^◌, ◌<◌, ◌≡◌, ◌≢◌, refl, ap, ◌∙◌, inl, inr, Bool, true, false, ◌||◌, Option,
  none, some, List, [], ◌∷◌, ltb, ◌==◌, arith, Bool-cases,
}
use novaque.Prelude.Lists.{All, take, select, first}
use novaque.Store.Errors.{Result, ok, err, id_not_found}
use novaque.Store.Types.{DeadDelivery}
use novaque.Sqlite.Schema.{Db}
use novaque.Sqlite.Engine.{Tick}
use novaque.Sqlite.Invariant.{IsValid}
use novaque.Sqlite.Admin.Dead.{select_dead}
use novaque.Sqlite.Admin.Dead.Pages.{
  Desc, dead_letters, dead_letters-Desc, select_dead-reads, select_dead-negative,
}
use novaque.Admin.Replies.{ChannelMeta}
use novaque.Admin.Dead.{after_id, exactly}
use novaque.Admin.Dead.Browse.{or_none}

abbrev pub found_or_missing :
    ChannelMeta → Option DeadDelivery → Result (ChannelMeta × DeadDelivery)
found_or_missing meta none = err id_not_found
found_or_missing meta (some d) = ok (meta, d)

first-below :
    (i b : ℕ) (xs : List DeadDelivery)
    → All (λ e. e.id < b) xs
    → b < suc i
    → first (λ r. r.id == i) xs ≡ none
first-below i b [] h k = refl
first-below i b (x ∷ xs) h k =
    let other : (x.id == i) ≡ false = ground (arith, h.0, k) in rw other (first-below i b xs h.1 k)

-- Below the next id, the first row is the row of the id, if there is one.
exactly-first :
    (meta : ChannelMeta) (i : ℕ) (xs : List DeadDelivery)
    → Desc xs
    → exactly meta i (take 1 (select (λ r. ltb r.id (i + 1)) xs))
      ≡ found_or_missing meta (first (λ r. r.id == i) xs)
unfolding exactly
exactly-first meta i [] h = refl
exactly-first meta i (x ∷ xs) h = elim (Bool-cases (ltb x.id (i + 1))) [
  | inl e ↦ elim (Bool-cases (x.id == i)) [
    | inl s ↦ rw (e, s) refl
    | inr s ↦ rw (e, s, first-below i x.id xs h.0 (ground (arith, e, s))) refl
  ]
  | inr e ↦
      let later : (x.id == i) ≡ false = ground (arith, e) in
      rw (e, later) (exactly-first meta i xs h.1)
]

-- What loadDeadDelivery makes of the rows that the database reads for the id.
abbrev pub delivery_read : ChannelMeta → Tick → Db → ℕ → ℕ → Result (ChannelMeta × DeadDelivery)
delivery_read meta t db channel i =
    exactly meta i (or_none (select_dead channel (after_id i) 1 0 t db).0)

-- On a well-formed database the read for an id other than 2 ^ 63 - 1 gives the dead row of the channel with that id,
-- with its whole body, and reports that the id is not found if there is none; for the id 2 ^ 63 - 1
-- it reports that always.
pub delivery_read-exact :
    (meta : ChannelMeta) (t : Tick) (db : Db) (channel i : ℕ)
    → IsValid db
    → (i ≢ 2 ^ 63 - 1
        → delivery_read meta t db channel i
          ≡ found_or_missing meta (first (λ r. r.id == i) (dead_letters db 0 channel)))
      × (i ≡ 2 ^ 63 - 1 → delivery_read meta t db channel i ≡ err id_not_found)
unfolding exactly
delivery_read-exact meta t db channel i v = (
  λ h.
      let inside : (i == 2 ^ 63 - 1) ≡ false = ground arith in
      let next : (i + 1 == 0) ≡ false = ground arith in
      rw inside (
        ap (λ r. exactly meta i (or_none r)) (select_dead-reads db 0 channel (i + 1) 1 t v)
        ∙ ap
            (λ (b : Bool).
              exactly meta i
                (take 1 (select (λ r. b || ltb r.id (i + 1)) (dead_letters db 0 channel))))
            next
        ∙ exactly-first meta i (dead_letters db 0 channel) (dead_letters-Desc db 0 channel v)),
  λ h.
      let last : (i == 2 ^ 63 - 1) ≡ true = ground arith in
      rw last
        (ap (λ r. exactly meta i (or_none r)) (select_dead-negative db 0 channel (2 ^ 63 - 1) 1 t)),
)

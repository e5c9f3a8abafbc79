-- ===== src/Server/Claim/Bury.antt =====
-- A claim buries only rows over their cap: they stay as they were read, under their locks.
use novaque.Prelude.{
  ℕ, ◌≡◌, refl, sym, ap, subst, inl, inr, Bool, true, false, List, [], ◌∷◌, ltb, ◌==◌, ==_iff,
  if◌then◌else◌, arith, Bool-cases,
}
use novaque.Prelude.Lists.{All, select, elem}
use novaque.Prelude.Rows.{All-select_test, first-test}
use novaque.Store.Errors.{ok}
use novaque.Action.Follows.{bind-follows}
use novaque.Sqlite.Schema.{Db, DeliveryRow}
use novaque.Sqlite.Engine.{tick_at}
use novaque.Sqlite.Invariant.{IsValid, IsValid-modify_deliveries}
use novaque.Sqlite.Lifecycle.{Tracing, buried}
use novaque.Sqlite.Evolution.{Evolves, Evolves-Preorder, Evolves-modify, Safe-read}
use novaque.Sqlite.Claim.{Joined, join_rows, load_claimed, poisoned, mark_dead, bury_row, dead_ids}
use novaque.Sqlite.Claim.Bury.{dead_ids-over, loaded-Carries}
use novaque.Sqlite.Claim.Lease.Rows.{join_rows-All, join_row-copies}
use novaque.Server.Engine.{Server, Session, meet_others, query}
use novaque.Server.Engine.Rules.{
  OthersKeep, OnSession, OnSession-Preorder, meet_others-follows, query-follows, IsLawfulTx-pure,
  IsLawfulTx-query,
}
use novaque.Server.Claim.{Leases, lease_ids, bury_each, load_and_bury}
use novaque.Server.Claim.Locks.{
  Guards, Guards-same, Guards-tail, Guards-modify, Guards-meet_others, query-eq-ok,
}

abbrev Over : DeliveryRow → Type 0
Over d = ltb d.max_attempts d.attempts ≡ true

still-Over : (b : Bool) (d : DeliveryRow) → Over d → Over (if b then bury_row d else d)
still-Over true d h = h
still-Over false d h = h

-- Of the rows that were loaded by their ids, the poisoned ones are among these.
among :
    (ids : List ℕ) (rows : List Joined) (i : ℕ)
    → All (λ j. elem j.1.id ids ≡ true) rows
    → elem i (dead_ids rows) ≡ true
    → elem i ids ≡ true
among ids [] i h m = absurd (cc)
among ids (j ∷ js) i h m = elim (Bool-cases (poisoned j)) [
  | inl e ↦ elim (Bool-cases (i == j.1.id)) [
    | inl s ↦ subst (λ n. elem n ids ≡ true) (sym ((==_iff i j.1.id).0 s)) h.0
    | inr s ↦ among ids js i h.1 (rw (e, s) at m)
  ]
  | inr e ↦ among ids js i h.1 (rw e at m)
]

pub loaded_among :
    (db : Db) (ids : List ℕ)
    → All (λ j. elem j.1.id ids ≡ true) (join_rows db (select (λ d. elem d.id ids) db.deliveries))
loaded_among db ids =
    join_rows-All (λ d. elem d.id ids ≡ true) _ db _
      (λ d j e h. subst (λ n. elem n ids ≡ true) (sym (join_row-copies db d j e).0) h)
      (All-select_test (λ d. elem d.id ids) db.deliveries)

module _ {traced : Tracing} (server : Server) (keeps : OthersKeep traced server) where
  mark_dead-Evolves :
      (i : ℕ) (is : List ℕ) (n : ℕ) (s : Session)
      → Guards Over (i ∷ is) s
      → Evolves traced s.world.db (mark_dead (i ∷ []) (tick_at server.env n) s.world.db).1
  unfolding mark_dead
  mark_dead-Evolves i is n s g =
      Evolves-modify s.world.db _
        (IsValid-modify_deliveries _ _ s.world.db (λ d. refl) (λ d. refl) (λ d. refl)
          (λ d h. (refl, refl, refl)))
        _ _ refl refl (λ d. refl)
        (λ v j d found h.
          let named : d.id ≡ j =
            (==_iff d.id j).0 (first-test (λ r. r.id == j) s.world.db.deliveries d found) in
          buried d (g.holds j d (first_of d.id j i is named h) found))
    where
      first_of : (m n i : ℕ) (is : List ℕ) → m ≡ n → elem m (i ∷ []) ≡ true → elem n (i ∷ is) ≡ true
      first_of m n i is same h = ground arith

  -- The row that was buried is over its cap as before, and the others are as they were.
  rest-Over :
      (i : ℕ) (is : List ℕ) (s : Session) (u : Unit {0})
      → (query server (mark_dead (i ∷ [])) s).0 ≡ ok u
      → Guards Over (i ∷ is) (meet_others server s)
      → Guards Over is (query server (mark_dead (i ∷ [])) s).1
  unfolding mark_dead
  rest-Over i is s u ran g =
      let done = query-eq-ok server (mark_dead (i ∷ [])) s u ran in
      Guards-modify Over is (λ d. elem d.id (i ∷ [])) bury_row (meet_others server s)
        (query server (mark_dead (i ∷ [])) s).1 (λ d. refl) (ap (λ x. x.world.db.deliveries) done.1)
        (ap (λ x. x.locked) done.1) (λ d h. still-Over (elem d.id (i ∷ [])) d h)
        (Guards-tail Over i is (meet_others server s) g)

  bury_each-follows :
      (ids : List ℕ) (s : Session)
      → Guards Over ids s
      → OnSession (Evolves traced) s (bury_each server ids s).1
  unfolding bury_each
  bury_each-follows [] s g = (IsLawfulTx-pure tt).at s
  bury_each-follows (i ∷ is) s g =
      let g' = Guards-meet_others Over (i ∷ is) server keeps s g in
      bind-follows (OnSession-Preorder (Evolves-Preorder traced))
        (query server (mark_dead (i ∷ []))) _ s
        (query-follows server keeps (mark_dead (i ∷ [])) s
          (mark_dead-Evolves i is s.world.calls (meet_others server s) g'))
        (λ u ran.
          bury_each-follows is (query server (mark_dead (i ∷ [])) s).1 (rest-Over i is s u ran g'))

  -- What was read is over its cap where it is poisoned.
  loaded-Over :
      (ids : List ℕ) (s : Session) (rows : List Joined)
      → IsValid s.world.db
      → ((i : ℕ) → elem i ids ≡ true → elem i s.locked ≡ true)
      → (query server (load_claimed ids) s).0 ≡ ok rows
      → Guards Over (dead_ids rows) (query server (load_claimed ids) s).1
  unfolding load_claimed meet_others
  loaded-Over ids s rows v locked ran =
      let met = meet_others server s in
      let done = query-eq-ok server (load_claimed ids) s rows ran in
      let p = λ (d : DeliveryRow). elem d.id ids in
      let read : ok (join_rows met.world.db (select p met.world.db.deliveries)) ≡ ok rows =
        done.0 in
      let same : join_rows met.world.db (select p met.world.db.deliveries) ≡ rows = cc in
      let valid = ((meet_others-follows server keeps s).view.from v).0 in
      Guards-same Over (dead_ids rows) met (query server (load_claimed ids) s).1
        (ap (λ x. x.world.db.deliveries) done.1) (ap (λ x. x.locked) done.1)
        (record {
          locked = λ i m. locked i (
              among ids rows i
                (subst (All (λ j. elem j.1.id ids ≡ true)) same (loaded_among met.world.db ids)) m);
          holds = λ i d m h.
              dead_ids-over met.world.db.deliveries rows i d
                (subst (All _) same (loaded-Carries met.world.db p valid)) h m;
        })

  pub load_and_bury-follows :
      (leases : Leases) (s : Session)
      → IsValid s.world.db
      → ((i : ℕ) → elem i (lease_ids leases) ≡ true → elem i s.locked ≡ true)
      → OnSession (Evolves traced) s (load_and_bury server leases s).1
  unfolding load_and_bury load_claimed
  load_and_bury-follows leases s v locked =
      let o = OnSession-Preorder (Evolves-Preorder traced) in
      let load = query server (load_claimed (lease_ids leases)) in
      bind-follows o load _ s
        ((IsLawfulTx-query server keeps (load_claimed (lease_ids leases))
            (Safe-read _ (λ t db. refl))).at
          s)
        (λ rows ran.
          bind-follows o (bury_each server (dead_ids rows)) _ (load s).1
            (bury_each-follows (dead_ids rows) (load s).1
              (loaded-Over (lease_ids leases) s rows v locked ran))
            (λ _ _. (IsLawfulTx-pure _).at _))

-- ===== src/Sqlite/Claim/Lease/Rows.antt =====
-- The rows that a claim transaction leases, and the deliveries that are read from them.
use novaque.Prelude.{
  ℕ, ◌+◌, ◌≤◌, String, ◌≡◌, subst, inl, inr, true, false, not, some, List, [], ◌∷◌, map, ◌==◌,
  arith, Option-cases,
}
use novaque.Prelude.Lists.{All, length, select, first, elem}
use novaque.Prelude.Rows.{All-select, All-mono₂, All-select_test, All-first}
use novaque.Store.Errors.{ok}
use novaque.Store.Types.{Delivery}
use novaque.Action.{pure, >>=-eq-ok}
use novaque.Sqlite.Schema.{Db, DeliveryRow}
use novaque.Sqlite.Engine.{Env, World, statement}
use novaque.Sqlite.Engine.Rules.{statement-eq-ok}
use novaque.Sqlite.Lifecycle.{row_of}
use novaque.Sqlite.Claim.{
  due, leasable, Joined, join_row, join_rows, load_claimed, poisoned, in_claim_order, ClaimTx,
  dead_ids, claim_result, bury, load_and_bury,
}

-- A delivery that was leased at `now` from the table `ds`: its row was a claimable one of the channel, and
-- its claims stay within the cap.
pub record Leased (ds : List DeliveryRow) (channel now : ℕ) (d : Delivery) : Type 0 where
  pub row : DeliveryRow
  pub was : row_of ds d.id ≡ some row
  pub of_channel : row.channel_id ≡ channel
  pub claimable : due now row ≡ true
  pub counted : d.attempts ≡ row.attempts + 1
  pub capped : d.attempts ≤ d.max_attempts

pub in_claim_order-All :
    (P : Delivery → Type 0) (is : List ℕ) (live : List Joined)
    → All (λ j. P j.1) live
    → All P (in_claim_order is live)
unfolding in_claim_order
in_claim_order-All P [] live h = tt
in_claim_order-All P (i ∷ is) live h = elim (Option-cases (first (λ j. j.1.id == i) live)) [
  | inl e ↦ rw (e, in_claim_order) (in_claim_order-All P is live h)
  | inr (j, e) ↦
      rw (e, in_claim_order) (All-first (λ j. P j.1) _ live j h e, in_claim_order-All P is live h)
]

pub in_claim_order-length :
    (is : List ℕ) (live : List Joined) → length (in_claim_order is live) ≤ length is
unfolding in_claim_order
in_claim_order-length [] live = omega arith
in_claim_order-length (i ∷ is) live = elim (Option-cases (first (λ j. j.1.id == i) live)) [
  | inl e ↦ rw (e, in_claim_order) (omega (arith, in_claim_order-length is live))
  | inr (j, e) ↦ rw (e, in_claim_order) (omega (arith, in_claim_order-length is live))
]

-- The join copies the id and the counts of the row.
pub join_row-copies :
    (db : Db) (d : DeliveryRow) (j : Joined)
    → join_row db d ≡ some j
    → (j.1.id ≡ d.id) × (j.1.attempts ≡ d.attempts) × (j.1.max_attempts ≡ d.max_attempts)
unfolding join_row
join_row-copies db d j h = ground arith

pub join_rows-All :
    (P : DeliveryRow → Type 0) (Q : Joined → Type 0) (db : Db) (ds : List DeliveryRow)
    → ((d : DeliveryRow) (j : Joined) → join_row db d ≡ some j → P d → Q j)
    → All P ds
    → All Q (join_rows db ds)
unfolding join_rows
join_rows-All P Q db [] f h = tt
join_rows-All P Q db (d ∷ ds) f h = elim (Option-cases (join_row db d)) [
  | inl e ↦ rw e (join_rows-All P Q db ds f h.1)
  | inr (j, e) ↦ rw e (f d j e h.0, join_rows-All P Q db ds f h.1)
]

-- A leased row carries what the delivery needs to know of the row before.
pub record WasReady (ds : List DeliveryRow) (channel now : ℕ) (d : DeliveryRow) : Type 0 where
  pub row : DeliveryRow
  pub was : row_of ds d.id ≡ some row
  pub of_channel : row.channel_id ≡ channel
  pub claimable : due now row ≡ true
  pub counted : d.attempts ≡ row.attempts + 1

pub All-live :
    (P : Delivery → Type 0) (rows : List Joined)
    → All (λ j. poisoned j ≡ false → P j.1) rows
    → All (λ j. P j.1) (select (λ j. not (poisoned j)) rows)
All-live P rows h =
    All-mono₂ (select (λ j. not (poisoned j)) rows) (λ j f e. f (ground arith))
      (All-select _ _ rows h) (All-select_test (λ j. not (poisoned j)) rows)

module _ (env : Env) (channel : ℕ) (owner : String) (sec limit : ℕ) where
  -- What holds of each live joined row holds of each delivery that is handed out.
  pub bury-All :
      (P : Delivery → Type 0) (claimed : List ℕ) (w : World) (c : ClaimTx)
      → All
          (λ d. (j : Joined) → join_row w.db d ≡ some j → poisoned j ≡ false → P j.1)
          (select (λ d. elem d.id claimed) w.db.deliveries)
      → (load_and_bury env channel owner sec limit claimed w).0 ≡ ok c
      → All P c.out × (length c.out ≤ length claimed)
  unfolding load_and_bury load_claimed claim_result pure
  bury-All P claimed w c each h =
      let (rows, loaded, h', _) = >>=-eq-ok (statement env (load_claimed claimed)) _ w h in
      let (_, _, h'', _) = >>=-eq-ok (bury env channel owner sec limit (dead_ids rows)) _ _ h' in
      let ran : ok (join_rows w.db (select (λ d. elem d.id claimed) w.db.deliveries)) ≡ ok rows =
        (statement-eq-ok env (load_claimed claimed) w rows loaded).0 in
      let read : join_rows w.db (select (λ d. elem d.id claimed) w.db.deliveries) ≡ rows = cc in
      let result : ok (claim_result claimed rows) ≡ ok c = h'' in
      let same : claim_result claimed rows ≡ c = cc in
      let live : All (λ j. poisoned j ≡ false → P j.1) rows =
        subst (All (λ j. poisoned j ≡ false → P j.1)) read
          (join_rows-All _ _ w.db _ (λ d j e k. k j e) each) in
      subst (λ (r : ClaimTx). All P r.out × (length r.out ≤ length claimed)) same
        (in_claim_order-All P claimed _ (All-live P rows live), in_claim_order-length claimed _)

-- What the table says of a row before the lease.
pub record Known (ds : List DeliveryRow) (ids : List ℕ) (channel now : ℕ) (d : DeliveryRow)
    : Type 0 where
  pub named : row_of ds d.id ≡ some d
  pub fits :
      elem d.id (map (λ r. r.id) (select (leasable ids now) ds)) ≡ true → leasable ids now d ≡ true
  pub within : elem d.id ids ≡ true → d.channel_id ≡ channel

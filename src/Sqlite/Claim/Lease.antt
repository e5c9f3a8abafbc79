-- ===== src/Sqlite/Claim/Lease.antt =====
-- What one claim transaction leases.
pub mod Rows
use novaque.Prelude.{
  ℕ, suc, ◌+◌, ◌≤◌, ◌<◌, String, ◌≡◌, refl, ap, subst, sym, ◌∙◌, inl, inr, Bool, true, false, ◌&&◌,
  not, Option, none, some, List, [], ◌∷◌, map, ltb, leb, ◌==◌, if◌then◌else◌, arith, Bool-cases,
  Option-cases,
}
use novaque.Prelude.Lists.{
  All, length, take, is_empty, select, modify, first, exists, elem, sort_by,
}
use novaque.Prelude.Rows.{
  Asc, All-select, All-modify, All-mono, All-mono₂, All-select_test, All-first, first-test,
}
use novaque.Prelude.Keys.{
  and_left, and_right, first_self, selected_test, elem-take, elem-sort_by, elem-select,
  length-take-le, length-select-le, length-map,
}
use novaque.Store.Errors.{Result, ok, err}
use novaque.Store.Types.{Delivery, pending, in_flight, dead}
use novaque.Action.{Action, pure, >>=-eq-ok, ◌>>=◌}
use novaque.Sqlite.Schema.{Db, DeliveryRow, is_pending, message_by_id, channel_by_id, topic_by_id}
use novaque.Sqlite.Engine.{Env, World, Tick, tick_at, statement, others_commit, transaction}
use novaque.Sqlite.Engine.Rules.{statement-eq-ok, transaction-eq-ok}
use novaque.Sqlite.Invariant.{IsValid}
use novaque.Sqlite.Claim.{
  due, earlier, poll_ready, leasable, lease_row, lease_ready, Joined, join_row, join_rows,
  keep_some, load_claimed, poisoned, mark_dead, in_claim_order, ClaimTx, no_claim, dead_ids,
  claim_result, bury, load_and_bury, claim_leased, claim_body, run_claim_tx,
}
use novaque.Sqlite.Lifecycle.{row_of}
use novaque.Sqlite.Claim.Lease.Rows.{
  Leased, in_claim_order-All, in_claim_order-length, join_row-copies, join_rows-All, WasReady,
  All-live, bury-All, Known,
}

pub claim_cases :
    {S : Type 0} (P : ClaimTx → Type 0) (empty : Bool) (k : Action S ClaimTx) (w : S) (c : ClaimTx)
    → P no_claim
    → ((k w).0 ≡ ok c → P c)
    → ((if empty then pure no_claim else k) w).0 ≡ ok c
    → P c
unfolding pure
claim_cases P true k w c none_claimed some_claimed h =
    let same : no_claim ≡ c = cc in subst P same none_claimed
claim_cases P false k w c none_claimed some_claimed h = some_claimed h

module _ (env : Env) (channel : ℕ) (owner : String) (sec limit : ℕ) where
  abbrev claimed_of : List ℕ → ℕ → List DeliveryRow → List ℕ
  claimed_of ids now ds = select (λ i. elem i (map (λ r. r.id) (select (leasable ids now) ds))) ids

  leased-WasReady :
      (ids : List ℕ) (t : Tick) (ds rows : List DeliveryRow)
      → All (Known ds ids channel t.now) rows
      → All
          (λ d. elem d.id (claimed_of ids t.now ds) ≡ true → WasReady ds channel t.now d)
          (modify (leasable ids t.now) (lease_row owner sec t.now t.blob) rows)
  leased-WasReady ids t ds rows known =
      All-modify (leasable ids t.now) (lease_row owner sec t.now t.blob) rows
        (λ d e k _. record {
          row = d;
          was = k.named;
          of_channel = k.within (and_left _ _ e);
          claimable = and_right _ _ e;
          counted = refl;
        })
        (λ d e k m. absurd (clash (k.fits (elem-select d.id _ ids m).1) e)) known
    where
      clash : {b : Bool} → b ≡ true → b ≡ false → ⊥
      clash p q = cc

  handed_out :
      (ds : List DeliveryRow) (db : Db) (now : ℕ) (d : DeliveryRow) (j : Joined)
      → WasReady ds channel now d
      → join_row db d ≡ some j
      → poisoned j ≡ false
      → Leased ds channel now j.1
  handed_out ds db now d j r e live =
      let same = join_row-copies db d j e in
      record {
        row = r.row;
        was = subst (λ (i : ℕ). row_of ds i ≡ some r.row) (sym same.0) r.was;
        of_channel = r.of_channel;
        claimable = r.claimable;
        counted = same.1 ∙ r.counted;
        capped = ground arith;
      }

  lease_each :
      (ids : List ℕ) (w : World)
      → All (Known w.db.deliveries ids channel (env.clock w.calls)) w.db.deliveries
      → All
          (λ d.
            (j : Joined)
            → join_row (lease_ready owner sec ids (tick_at env w.calls) w.db).1 d ≡ some j
            → poisoned j ≡ false
            → Leased w.db.deliveries channel (env.clock w.calls) j.1)
          (select
            (λ d. elem d.id (claimed_of ids (env.clock w.calls) w.db.deliveries))
            (lease_ready owner sec ids (tick_at env w.calls) w.db).1.deliveries)
  unfolding lease_ready
  lease_each ids w known =
      let after =
        modify (leasable ids (env.clock w.calls))
          (lease_row owner sec (env.clock w.calls) (env.blob w.calls)) w.db.deliveries in
      let p = λ (d : DeliveryRow). elem d.id (claimed_of ids (env.clock w.calls) w.db.deliveries) in
      All-mono₂ (select p after)
        (λ d f m j e live.
          handed_out w.db.deliveries (lease_ready owner sec ids (tick_at env w.calls) w.db).1
            (env.clock w.calls) d j (f m) e live)
        (All-select _ p after
          (leased-WasReady ids (tick_at env w.calls) w.db.deliveries w.db.deliveries known))
        (All-select_test p after)

  lease-All :
      (ids : List ℕ) (w : World) (c : ClaimTx)
      → All (Known w.db.deliveries ids channel (env.clock w.calls)) w.db.deliveries
      → (claim_leased env channel owner sec limit ids w).0 ≡ ok c
      → All (Leased w.db.deliveries channel (env.clock w.calls)) c.out × (length c.out ≤ length ids)
  unfolding claim_leased lease_ready pure
  lease-All ids w c known h =
      let now = env.clock w.calls in
      let ds = w.db.deliveries in
      let (leased, ran, h', _) = >>=-eq-ok (statement env (lease_ready owner sec ids)) _ w h in
      let ran' = statement-eq-ok env (lease_ready owner sec ids) w leased ran in
      let exact : map (λ r. r.id) (select (leasable ids now) ds) ≡ leased = cc in
      let claimed = claimed_of ids now ds in
      let w' = record w {
        db = (lease_ready owner sec ids (tick_at env w.calls) w.db).1;
        calls = suc w.calls;
      } in
      let h'' : ((if is_empty claimed
              then pure no_claim
              else load_and_bury env channel owner sec limit claimed)
            w').0
          ≡ ok c =
        rw (exact, ← ran'.1) h' in
      claim_cases (λ r. All (Leased ds channel now) r.out × (length r.out ≤ length ids))
        (is_empty claimed) (load_and_bury env channel owner sec limit claimed) w' c
        (tt, omega arith)
        (λ k.
          let done =
            bury-All env channel owner sec limit (Leased ds channel now) claimed w' c
              (lease_each ids w known) k in
          (
            done.0,
            omega (
              arith,
              done.1,
              length-select-le (λ i. elem i (map (λ r. r.id) (select (leasable ids now) ds))) ids,
            ),
          ))
        h''

abbrev ready_ids : ℕ → ℕ → ℕ → List DeliveryRow → List ℕ
ready_ids channel limit now ds =
    map (λ d. d.id)
      (take limit (sort_by earlier (select (λ d. d.channel_id == channel && due now d) ds)))

table_Known :
    (channel limit polled now : ℕ) (db : Db)
    → IsValid db
    → All
        (Known db.deliveries (ready_ids channel limit polled db.deliveries) channel now)
        db.deliveries
table_Known channel limit polled now db v =
    let ds = db.deliveries in
    let ready = λ (d : DeliveryRow). d.channel_id == channel && due polled d in
    let ids = ready_ids channel limit polled ds in
    All-mono₂ {Q = λ d. row_of ds d.id ≡ some d → Known ds ids channel now d} ds (λ d n k. k n)
      (first_self _ 1 ds _ v.delivery_ids)
      (All-mono₂ ds
        (λ d f g n. record {
          named = n;
          fits = f.1;
          within = λ m. same_channel d (
              g.1
                (sym (elem-sort_by _ earlier d.id (select ready ds)) ∙ elem-take _ d.id limit _ m));
        })
        (selected_test _ (leasable ids now) 1 ds _ v.delivery_ids)
        (selected_test _ ready 1 ds _ v.delivery_ids))
  where
    same_channel :
        (d : DeliveryRow)
        → (d.channel_id == channel && due polled d) ≡ true
        → d.channel_id ≡ channel
    same_channel d h = ground (arith, and_left (d.channel_id == channel) (due polled d) h)

module _ (env : Env) (channel : ℕ) (owner : String) (sec limit : ℕ) where
  body-Leased :
      (w : World) (c : ClaimTx)
      → IsValid w.db
      → (claim_body env channel owner sec limit w).0 ≡ ok c
      → All (Leased w.db.deliveries channel (env.clock (suc w.calls))) c.out
        × (length c.out ≤ limit)
  unfolding claim_body poll_ready pure
  body-Leased w c v h =
      let (ids, ran, h', _) = >>=-eq-ok (statement env (poll_ready channel limit)) _ w h in
      let ran' = statement-eq-ok env (poll_ready channel limit) w ids ran in
      let polled = ready_ids channel limit (env.clock w.calls) w.db.deliveries in
      let exact : polled ≡ ids = cc in
      let w' = record w { calls = suc w.calls } in
      let h'' : ((if is_empty polled
              then pure no_claim
              else claim_leased env channel owner sec limit polled)
            w').0
          ≡ ok c =
        rw (exact, ← ran'.1) h' in
      claim_cases
        (λ r.
          All (Leased w.db.deliveries channel (env.clock (suc w.calls))) r.out
          × (length r.out ≤ limit))
        (is_empty polled) (claim_leased env channel owner sec limit polled) w' c (tt, omega arith)
        (λ k.
          let done =
            lease-All env channel owner sec limit polled w' c
              (table_Known channel limit (env.clock w.calls) (env.clock (suc w.calls)) w.db v) k in
          (
            done.0,
            omega (
              arith,
              done.1,
              length-map (λ (d : DeliveryRow). d.id)
                  (take limit (
                    sort_by earlier (
                      select (λ d. d.channel_id == channel && due (env.clock w.calls) d)
                        w.db.deliveries))),
              length-take-le limit (
                  sort_by earlier (
                    select (λ d. d.channel_id == channel && due (env.clock w.calls) d)
                      w.db.deliveries)),
            ),
          ))
        h''

  -- A claim transaction that succeeds hands out at most `limit` deliveries. Each had, in the table that
  -- the transaction began with, a pending row of the channel that was due and not expired at the clock of
  -- the guarded UPDATE; its count of claims is one more than that row's and within the row's cap.
  pub run_claim_tx-Leased :
      (w : World) (c : ClaimTx)
      → IsValid (env.others w.calls w.db)
      → (run_claim_tx env channel owner sec limit w).0 ≡ ok c
      → All
          (Leased (env.others w.calls w.db).deliveries channel (env.clock (suc (suc w.calls))))
          c.out
        × (length c.out ≤ limit)
  unfolding run_claim_tx others_commit
  run_claim_tx-Leased w c v h =
      body-Leased (record (others_commit env w) { calls = suc w.calls }) c v
        (transaction-eq-ok env (claim_body env channel owner sec limit) w c h).0

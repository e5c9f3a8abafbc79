-- ===== src/Server/Claim/Valid.antt =====
-- A claim moves deliveries along their life cycle, if its way of leasing does.
use novaque.Prelude.{
  ℕ, zero, suc, ◌≤◌, ◌≡◌, refl, sym, ap, subst, ◌∙◌, Bool, true, false, ◌&&◌, not, some, List, ◌++◌,
  map, ◌==◌, ==_iff, if◌then◌else◌, arith,
}
use novaque.Prelude.Int.{ℤ, pos, negsuc}
use novaque.Prelude.Lists.{length, take, is_empty, select, elem, sort_by}
use novaque.Prelude.Rows.{All-first, first-test, exists-append_left}
use novaque.Prelude.Keys.{selected_test, elem-take, elem-sort_by}
use novaque.Store.Errors.{Result, ok}
use novaque.Action.{Action, pure}
use novaque.Action.Follows.{Preorder, bind-follows}
use novaque.Sqlite.Schema.{Db, DeliveryRow, is_pending}
use novaque.Sqlite.Invariant.{IsValid}
use novaque.Sqlite.Lifecycle.{Tracing, row_of}
use novaque.Sqlite.Evolution.{Evolves, Evolves-Preorder, IsLawful, Safe-read, lawful_rules}
use novaque.Sqlite.Sink.Valid.{record_stat-IsLawful}
use novaque.Sqlite.Claim.{due, earlier, ClaimTx, no_claim}
use novaque.Server.Engine.{
  Server, Dialect, Session, begin, meet_others, query, query_for_update, transaction, ids_of,
  set_timeouts,
}
use novaque.Server.Engine.Rules.{
  OthersKeep, OnSession, OnSession-Preorder, meet_others-follows, IsLawfulTx, IsLawfulTx-pure,
  IsLawfulTx-query_for_update, set_timeouts-IsLawfulTx, transaction-follows,
}
use novaque.Server.Claim.{
  Leases, lease_ids, poll_free, poll, load_and_bury, claim_leased, claim_body, record_claim,
  claim_with,
}
use novaque.Server.Claim.Locks.{Guards, query-eq-ok}
use novaque.Server.Claim.Bury.{load_and_bury-follows}

-- A row that was polled at `polled` and is still pending was due then.
abbrev pub Due : ℕ → DeliveryRow → Type 0
Due polled d = is_pending d.status ≡ true → due polled d ≡ true

-- A way to lease polled rows: it moves them along their life cycle, keeps the locks, and leases no
-- row that was not polled, and no more rows than were polled.
pub record Leasing (traced : Tracing) (server : Server) (lease : ℕ → List ℕ → Action Session Leases)
    : Type 0 where
  pub follows :
      (polled sec : ℕ) (ids : List ℕ) (s : Session)
      → polled ≤ server.env.clock s.world.calls
      → Guards (Due polled) ids s
      → OnSession (Evolves traced) s (lease sec ids s).1
  pub locks : (sec : ℕ) (ids : List ℕ) (s : Session) → (lease sec ids s).1.locked ≡ s.locked
  pub among :
      (sec : ℕ) (ids : List ℕ) (s : Session) (leases : Leases) (i : ℕ)
      → (lease sec ids s).0 ≡ ok leases
      → elem i (lease_ids leases) ≡ true
      → elem i ids ≡ true
  pub fewer :
      (sec : ℕ) (ids : List ℕ) (s : Session) (leases : Leases)
      → (lease sec ids s).0 ≡ ok leases
      → length leases ≤ length ids

if-follows :
    {A : Type 0} (R : Session → Session → Type 0) (b : Bool) (m n : Action Session A) (s : Session)
    → R s (m s).1
    → R s (n s).1
    → R s ((if b then m else n) s).1
if-follows R true m n s h k = h
if-follows R false m n s h k = k

-- The rows of the poll are due.
polled-due :
    (held : ℕ → Bool) (channel limit now i : ℕ) (db : Db) (d : DeliveryRow)
    → IsValid db
    → let ready =
        select (λ r. r.channel_id == channel && due now r && not (held r.id)) db.deliveries in
      elem i (map (λ r. r.id) (take limit (sort_by earlier ready))) ≡ true
      → row_of db.deliveries i ≡ some d
      → due now d ≡ true
polled-due held channel limit now i db d v m h =
    let p = λ (r : DeliveryRow). r.channel_id == channel && due now r && not (held r.id) in
    let named : d.id ≡ i = (==_iff d.id i).0 (first-test (λ r. r.id == i) db.deliveries d h) in
    let m' =
      subst
        (λ n.
          elem n (
            map (λ (r : DeliveryRow). r.id) (take limit (sort_by earlier (select p db.deliveries))))
          ≡ true)
        (sym named) m in
    middle d (
      (All-first _ (λ r. r.id == i) db.deliveries d
          (selected_test (λ r. r.id) p 1 db.deliveries _ v.delivery_ids) h).1
        (sym (elem-sort_by (λ r. r.id) earlier d.id (select p db.deliveries))
          ∙ elem-take (λ r. r.id) d.id limit (sort_by earlier (select p db.deliveries)) m'))
  where
    middle :
        (d : DeliveryRow)
        → (d.channel_id == channel && due now d && not (held d.id)) ≡ true
        → due now d ≡ true
    middle d h = three (d.channel_id == channel) (due now d) (not (held d.id)) h
      where
        three : (a b c : Bool) → (a && b && c) ≡ true → b ≡ true
        three a b c h = ground arith

module _ {traced : Tracing} (server : Server) (keeps : OthersKeep traced server) where
  o : Preorder (OnSession (Evolves traced))
  o = OnSession-Preorder (Evolves-Preorder traced)

  poll-IsLawfulTx : (channel limit : ℕ) → IsLawfulTx traced (poll server channel limit)
  unfolding poll poll_free
  poll-IsLawfulTx channel limit = record {
    at = λ s.
        (IsLawfulTx-query_for_update server keeps
            (poll_free (server.held_elsewhere s.world.calls) channel limit)
            (Safe-read _ (λ t db. refl))).at
          s;
  }

  -- The polled rows are locked and due, and the clock may have gone on.
  poll-Guards :
      (channel limit : ℕ) (s : Session) (ids : List ℕ)
      → IsValid s.world.db
      → (poll server channel limit s).0 ≡ ok ids
      → Guards (Due (server.env.clock s.world.calls)) ids (poll server channel limit s).1
        × (server.env.clock s.world.calls
            ≤ server.env.clock (poll server channel limit s).1.world.calls)
  unfolding poll poll_free query_for_update meet_others
  poll-Guards channel limit s ids v ran =
      let f = poll_free (server.held_elsewhere s.world.calls) channel limit in
      let met = meet_others server s in
      let done = query-eq-ok server f s ids ran in
      let valid = ((meet_others-follows server keeps s).view.from v).0 in
      let t = (poll server channel limit s).1 in
      let rows : t.world.db.deliveries ≡ met.world.db.deliveries =
        ap (λ x. x.world.db.deliveries) done.1 in
      let calls : t.world.calls ≡ suc s.world.calls = ap (λ x. x.world.calls) done.1 in
      (
        record {
          locked = λ i m. mine ids (query server f s).0 (query server f s).1.locked i ran m;
          holds = λ i d m h _.
              polled-due (server.held_elsewhere s.world.calls) channel limit
                (server.env.clock s.world.calls) i met.world.db d valid
                (subst (λ is. elem i is ≡ true) (sym (given done.0)) m)
                (sym (ap (λ ds. row_of ds i) rows) ∙ h);
        },
        keeps.clock s.world.calls t.world.calls (omega (arith, calls)),
      )
    where
      mine :
          (ids : List ℕ) (r : Result (List ℕ)) (old : List ℕ) (i : ℕ)
          → r ≡ ok ids
          → elem i ids ≡ true
          → elem i (ids_of r ++ old) ≡ true
      mine ids r old i h m =
          subst (λ q. elem i (ids_of q ++ old) ≡ true) (sym h) (exists-append_left _ ids old m)

      given : {a b : List ℕ} → ok a ≡ ok b → a ≡ b
      given h = cc

  module _ (dialect : Dialect) (lease : ℕ → List ℕ → Action Session Leases)
      (sound : Leasing traced server lease) where
    claim_leased-follows :
        (polled sec : ℕ) (ids : List ℕ) (s : Session)
        → IsValid s.world.db
        → polled ≤ server.env.clock s.world.calls
        → Guards (Due polled) ids s
        → OnSession (Evolves traced) s (claim_leased dialect server lease sec ids s).1
    unfolding claim_leased
    claim_leased-follows polled sec ids s v time g =
        let first = sound.follows polled sec ids s time g in
        bind-follows o (lease sec ids) _ s first (λ leases ran.
          if-follows (OnSession (Evolves traced)) (is_empty leases) (pure no_claim)
            (load_and_bury server leases) (lease sec ids s).1 ((IsLawfulTx-pure no_claim).at _)
            (load_and_bury-follows server keeps leases (lease sec ids s).1 (first.view.from v).0
              (λ i m.
                ap (elem i) (sound.locks sec ids s)
                ∙ g.locked i (sound.among sec ids s leases i ran m))))

    -- From the start of a transaction on a well-formed database.
    claim_body-follows :
        (channel sec limit : ℕ) (s : Session)
        → IsValid s.world.db
        → OnSession (Evolves traced) s (claim_body dialect server lease channel sec limit s).1
    unfolding claim_body
    claim_body-follows channel sec limit s v =
        let timed = (set_timeouts-IsLawfulTx server keeps dialect.timeouts).at s in
        bind-follows o (set_timeouts server dialect.timeouts) _ s timed (λ u ran.
          let s' = (set_timeouts server dialect.timeouts s).1 in
          let v' = (timed.view.from v).0 in
          let read = (poll-IsLawfulTx channel limit).at s' in
          bind-follows o (poll server channel limit) _ s' read (λ ids got.
            let s'' = (poll server channel limit s').1 in
            let (g, time) = poll-Guards channel limit s' ids v' got in
            if-follows (OnSession (Evolves traced)) (is_empty ids) (pure no_claim)
              (claim_leased dialect server lease sec ids) s'' ((IsLawfulTx-pure no_claim).at _)
              (claim_leased-follows (server.env.clock s'.world.calls) sec ids s''
                (read.view.from v').0 time g)))

    claim_tx-IsLawful :
        (channel sec limit : ℕ)
        → IsLawful traced (transaction server (claim_body dialect server lease channel sec limit))
    claim_tx-IsLawful channel sec limit = record {
      at = λ w.
          let all = λ (v : IsValid w.db). claim_body-follows channel sec limit (begin server w) v in
          transaction-follows server keeps (claim_body dialect server lease channel sec limit) w
            (record {
              view = record { from = λ v. (all v).view.from v };
              base = record { from = λ v. (all v).base.from v };
            });
    }

    record_claim-IsLawful :
        (channel : ℕ) (c : ClaimTx) → IsLawful traced (record_claim dialect server lease channel c)
    unfolding record_claim
    record_claim-IsLawful channel c = search (lawful_rules, record_stat-IsLawful) depth 10

    pub claim_with-IsLawful :
        (channel lease_for limit : ℤ)
        → IsLawful traced (claim_with dialect server lease channel lease_for limit)
    unfolding claim_with
    claim_with-IsLawful (pos zero) l n = search lawful_rules
    claim_with-IsLawful (pos (suc c)) l n =
        search (lawful_rules, claim_tx-IsLawful, record_claim-IsLawful)
    claim_with-IsLawful (negsuc c) l n = search lawful_rules

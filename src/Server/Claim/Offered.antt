-- ===== src/Server/Claim/Offered.antt =====
-- What a claim on the two servers hands out, for any way of leasing that is sound.
mod Loaded
use novaque.Prelude.{
  zero, ◌+◌, ℕ, suc, ◌≤◌, ◌≡◌, refl, sym, ap, subst, ◌∙◌, inl, inr, Bool, true, false, ◌&&◌, not,
  some, List, [], ◌∷◌, map, ◌==◌, ==_iff, arith, Bool-cases, Option-cases,
}
use novaque.Prelude.Int.{ℤ, pos, positive_or}
use novaque.Prelude.Lists.{All, length, take, is_empty, select, first, elem, sort_by}
use novaque.Prelude.Rows.{Asc, All-mono}
use novaque.Prelude.Keys.{selected_test, elem-take, elem-sort_by, length-map, length-take-le}
use novaque.Store.Errors.{Result, ok}
use novaque.Store.Types.{Delivery}
use novaque.Store.Delay.{duration_sec}
use novaque.Action.{Action, pure, >>=-eq-ok}
use novaque.Sqlite.Schema.{Db, DeliveryRow}
use novaque.Sqlite.Engine.{World}
use novaque.Sqlite.Invariant.{IsValid}
use novaque.Sqlite.Lifecycle.{Tracing, row_of}
use novaque.Sqlite.Evolution.{Evolves, Evolves-Preorder}
use novaque.Sqlite.Claim.{
  due, earlier, Joined, load_claimed, join_rows, poisoned, dead_ids, ClaimTx, claim_result,
  lease_or_default,
}
use novaque.Sqlite.Claim.Lease.{claim_cases}
use novaque.Sqlite.Claim.Lease.Rows.{in_claim_order-All, in_claim_order-length, All-live}
use novaque.Server.Engine.{
  Server, Dialect, Session, begin, meet_others, query, query_for_update, transaction, set_timeouts,
  set_config,
}
use novaque.Server.Engine.Rules.{
  OthersKeep, meet_others-follows, set_timeouts-IsLawfulTx, transaction-eq-ok_server,
}
use novaque.Server.Claim.{
  Leases, lease_ids, poll_free, with_token, poll, bury_each, load_and_bury, claim_leased,
  claim_body, record_claim, claim_with,
}
use novaque.Server.Claim.Locks.{query-eq-ok, query-locked}
use novaque.Server.Claim.Bury.{loaded_among}
use novaque.Server.Claim.Valid.{Leasing}
use novaque.Server.Claim.Offered.Loaded.{found_row, Within, loaded-Within}

-- A delivery that is handed out, against the database that the poll met at the clock of the poll.
pub record Offered (db : Db) (held : ℕ → Bool) (channel now : ℕ) (d : Delivery) : Type 0 where
  pub row : DeliveryRow
  pub was : row_of db.deliveries d.id ≡ some row
  pub of_channel : row.channel_id ≡ channel
  pub claimable : due now row ≡ true
  pub unlocked : held row.id ≡ false
  pub capped : d.attempts ≤ d.max_attempts

-- The database that the poll of a claim meets, after `n` statements that set timeouts from the engine
-- call `call` on: what other processes make of it before each of these and before the poll.
pub seen : Server → ℕ → ℕ → Db → Db
seen server zero call db = server.beside call [] db
seen server (suc n) call db = seen server n (suc call) (server.beside call [] db)

polled-Offered :
    (db : Db) (held : ℕ → Bool) (channel limit now : ℕ) (ids : List ℕ) (d : Delivery)
    → IsValid db
    → let ready =
        select (λ r. r.channel_id == channel && due now r && not (held r.id)) db.deliveries in
      map (λ r. r.id) (take limit (sort_by earlier ready)) ≡ ids
      → Within ids d
      → Offered db held channel now d
polled-Offered db held channel limit now ids d v exact wi =
    let p = λ (r : DeliveryRow). r.channel_id == channel && due now r && not (held r.id) in
    let ready = select p db.deliveries in
    let among = subst (λ is. elem d.id is ≡ true) (sym exact) wi.polled in
    let (row, was, passed) = found_row p 1 db.deliveries _ d.id v.delivery_ids (
      sym (elem-sort_by (λ r. r.id) earlier d.id ready)
      ∙ elem-take (λ r. r.id) d.id limit (sort_by earlier ready) among) in
    let (mine, open_now, free) =
      parts (row.channel_id == channel) (due now row) (held row.id) passed in
    record {
      row = row;
      was = was;
      of_channel = (==_iff row.channel_id channel).0 mine;
      claimable = open_now;
      unlocked = free;
      capped = wi.capped;
    }
  where
    parts : (a b c : Bool) → (a && b && not c) ≡ true → (a ≡ true) × (b ≡ true) × (c ≡ false)
    parts a b c h = ground arith

module _ {traced : Tracing} (server : Server) (keeps : OthersKeep traced server) (dialect : Dialect)
    (lease : ℕ → List ℕ → Action Session Leases) (sound : Leasing traced server lease) where
  leased-Within :
      (sec : ℕ) (ids : List ℕ) (s : Session) (c : ClaimTx)
      → (claim_leased dialect server lease sec ids s).0 ≡ ok c
      → All (Within ids) c.out × (length c.out ≤ length ids)
  unfolding claim_leased
  leased-Within sec ids s c h =
      let (leases, ran, h', _) = >>=-eq-ok (lease sec ids) _ s h in
      claim_cases (λ r. All (Within ids) r.out × (length r.out ≤ length ids)) (is_empty leases)
        (load_and_bury server leases) (lease sec ids s).1 c (tt, omega arith)
        (λ k.
          let done = loaded-Within server keeps leases _ c k in
          (
            All-mono c.out
                (λ d wi. record {
                  polled = sound.among sec ids s leases d.id ran wi.polled;
                  capped = wi.capped;
                })
                done.0,
            omega (arith, done.1, sound.fewer sec ids s leases ran),
          ))
        h'

  -- The statements that set timeouts lock nothing and change nothing of their own.
  timeouts-seen :
      (n : ℕ) (s : Session) (u : Unit {0})
      → s.locked ≡ []
      → (set_timeouts server n s).0 ≡ ok u
      → let s' = (set_timeouts server n s).1 in
        ((meet_others server s').world.db ≡ seen server n s.world.calls s.world.db)
        × (s'.world.calls ≡ n + s.world.calls)
  unfolding set_timeouts set_config seen meet_others pure
  timeouts-seen zero s u none_locked h =
      (ap (λ is. server.beside s.world.calls is s.world.db) none_locked, omega arith)
  timeouts-seen (suc n) s u none_locked h =
      let (a, ran, h', e) = >>=-eq-ok (query server set_config) _ s h in
      let s1 = (query server set_config s).1 in
      let done = (query-eq-ok server set_config s a ran).1 in
      let calls : s1.world.calls ≡ suc s.world.calls = ap (λ (x : Session). x.world.calls) done in
      let db : s1.world.db ≡ server.beside s.world.calls [] s.world.db =
        ap (λ (x : Session). x.world.db) done
        ∙ ap (λ is. server.beside s.world.calls is s.world.db) none_locked in
      let rest = timeouts-seen n s1 u (query-locked server set_config s ∙ none_locked) h' in
      (
        ap (λ (z : Result (Unit {0}) × Session). (meet_others server z.1).world.db) e
            ∙ rest.0
            ∙ ap (λ (k : ℕ). seen server n k s1.world.db) calls
            ∙ ap (λ (b : Db). seen server n (suc s.world.calls) b) db,
        ap (λ (z : Result (Unit {0}) × Session). z.1.world.calls) e ∙ omega (arith, rest.1, calls),
      )

  body-Offered :
      (channel sec limit : ℕ) (s : Session) (c : ClaimTx)
      → IsValid s.world.db
      → s.locked ≡ []
      → (claim_body dialect server lease channel sec limit s).0 ≡ ok c
      → let call = dialect.timeouts + s.world.calls in
        let met = seen server dialect.timeouts s.world.calls s.world.db in
        All (Offered met (server.held_elsewhere call) channel (server.env.clock call)) c.out
        × (length c.out ≤ limit)
  unfolding claim_body poll poll_free query_for_update
  body-Offered channel sec limit s c v none_locked h =
      let (u, ran, h', _) = >>=-eq-ok (set_timeouts server dialect.timeouts) _ s h in
      let s' = (set_timeouts server dialect.timeouts s).1 in
      let (ids, got, h'', _) = >>=-eq-ok (poll server channel limit) _ s' h' in
      let met = (meet_others server s').world.db in
      let held = server.held_elsewhere s'.world.calls in
      let now = server.env.clock s'.world.calls in
      let timed = (set_timeouts-IsLawfulTx server keeps dialect.timeouts).at s in
      let valid = ((meet_others-follows server keeps s').view.from (timed.view.from v).0).0 in
      let p = λ (r : DeliveryRow). r.channel_id == channel && due now r && not (held r.id) in
      let chosen = take limit (sort_by earlier (select p met.deliveries)) in
      let exact : map (λ r. r.id) chosen ≡ ids =
        given (query-eq-ok server (poll_free held channel limit) s' ids got).0 in
      let where_met = timeouts-seen dialect.timeouts s u none_locked ran in
      let offered =
        claim_cases (λ r. All (Offered met held channel now) r.out × (length r.out ≤ limit))
          (is_empty ids) (claim_leased dialect server lease sec ids)
          (poll server channel limit s').1 c (tt, omega arith)
          (λ k.
            let done = leased-Within sec ids _ c k in
            (
              All-mono c.out
                  (λ d wi. polled-Offered met held channel limit now ids d valid exact wi) done.0,
              omega (
                arith,
                done.1,
                ap length exact,
                length-map (λ (r : DeliveryRow). r.id) chosen,
                length-take-le limit (sort_by earlier (select p met.deliveries)),
              ),
            ))
          h'' in
      (
        subst
            (λ (call : ℕ).
              All
                (Offered (seen server dialect.timeouts s.world.calls s.world.db)
                  (server.held_elsewhere call) channel (server.env.clock call))
                c.out)
            where_met.1
            (subst (λ (db : Db). All (Offered db held channel now) c.out) where_met.0 offered.0),
        offered.1,
      )
    where
      given : {a b : List ℕ} → ok a ≡ ok b → a ≡ b
      given h = cc

  -- A claim that succeeds hands out at most `limit` deliveries, one if the limit is not positive. Each is
  -- within its cap on claims, and its row was one of the channel, pending, due and not expired at the
  -- clock of the poll, and locked by no one else, in the database that the poll met: what other
  -- processes had made of the one at the start before the poll and each statement before it. That
  -- holds however the rows are leased, as long as no row is leased that was not polled.
  pub claim_with-Offered :
      (c : ℕ) (lease_for limit : ℤ) (w : World) (out : List Delivery)
      → IsValid w.db
      → (claim_with dialect server lease (pos (suc c)) lease_for limit w).0 ≡ ok out
      → let call = dialect.timeouts + suc w.calls in
        let met = seen server dialect.timeouts (suc w.calls) w.db in
        All (Offered met (server.held_elsewhere call) (suc c) (server.env.clock call)) out
        × (length out ≤ positive_or 1 limit)
  unfolding claim_with record_claim pure
  claim_with-Offered c lease_for limit w out v h =
      let body =
        claim_body dialect server lease (suc c) (duration_sec (lease_or_default lease_for))
          (positive_or 1 limit) in
      let (r, ran, h', _) = >>=-eq-ok (transaction server body) _ w h in
      let (_, _, counted, _) = >>=-eq-ok _ _ _ h' in
      let (_, _, ended, _) = >>=-eq-ok _ _ _ counted in
      let same : r.out ≡ out = given ended in
      let call = dialect.timeouts + suc w.calls in
      let met = seen server dialect.timeouts (suc w.calls) w.db in
      subst
        (λ (ds : List Delivery).
          All (Offered met (server.held_elsewhere call) (suc c) (server.env.clock call)) ds
          × (length ds ≤ positive_or 1 limit))
        same
        (body-Offered (suc c) (duration_sec (lease_or_default lease_for)) (positive_or 1 limit)
          (begin server w) r v refl (transaction-eq-ok_server server body w r ran))
    where
      given : {a b : List Delivery} → ok a ≡ ok b → a ≡ b
      given h = cc

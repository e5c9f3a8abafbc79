-- ===== src/Server/Claim.antt =====
-- driver/postgres/claim.go, Claim, and what that of driver/mysql/claim.go has in common with it: the
-- poll that skips locked rows, the load and the burial. How the rows are leased is a parameter.
pub mod Locks
pub mod Bury
pub mod Offered
pub mod Valid
use novaque.Prelude.{
  ℕ, String, Bool, ◌&&◌, not, none, some, Option, List, [], ◌∷◌, map, ◌==◌, if◌then◌else◌,
}
use novaque.Prelude.Int.{ℤ, pos, positive?, positive_or}
use novaque.Prelude.Lists.{take, is_empty, select, first, sort_by}
use novaque.Store.Errors.{ok, invalid_id}
use novaque.Store.Types.{Delivery}
use novaque.Store.Delay.{duration_sec}
use novaque.Action.{Action, pure, fail, ◌>>=◌, ◌>>◌}
use novaque.Sqlite.Engine.{World, Stmt, stat_claim, stat_dead}
use novaque.Sqlite.Sink.{record_stat}
use novaque.Sqlite.Claim.{
  due, earlier, Joined, load_claimed, mark_dead, dead_ids, ClaimTx, no_claim, claim_result,
  lease_or_default,
}
use novaque.Server.Engine.{
  Server, Dialect, Session, query, query_for_update, transaction, set_timeouts,
}

-- What was leased: ids in the order of the poll, each with its token.
abbrev pub Leases : Type 0
Leases = List (ℕ × String)

abbrev pub lease_ids : Leases → List ℕ
lease_ids = map (λ l. l.0)

-- FOR UPDATE SKIP LOCKED: rows that others have locked are passed over.
unfoldable pub poll_free : (ℕ → Bool) → ℕ → ℕ → Stmt (List ℕ)
poll_free held channel limit t db =
    let ready =
      select (λ d. d.channel_id == channel && due t.now d && not (held d.id)) db.deliveries in
    (ok (map (λ d. d.id) (take limit (sort_by earlier ready))), db)

-- The token that was made for the row stands for the one that was read.
unfoldable pub with_token : Leases → Joined → Joined
with_token leases j = elim (first (λ l. l.0 == j.1.id) leases) [
  | none ↦ j
  | some l ↦ (j.0, record j.1 { lease_token = l.1 })
]

module _ (server : Server) where
  unfoldable pub poll : ℕ → ℕ → Action Session (List ℕ)
  unfolding poll_free
  poll channel limit s =
      query_for_update server (poll_free (server.held_elsewhere s.world.calls) channel limit) s

  -- One UPDATE for each row over its cap.
  unfoldable pub bury_each : List ℕ → Action Session (Unit {0})
  bury_each [] = pure tt
  bury_each (i ∷ is) = do query server (mark_dead (i ∷ [])); bury_each is

  unfoldable pub load_and_bury : Leases → Action Session ClaimTx
  unfolding bury_each with_token
  load_and_bury leases = do
    rows ← query server (load_claimed (lease_ids leases))
    bury_each (dead_ids rows)
    pure (claim_result (lease_ids leases) (map (with_token leases) rows))

module _ (dialect : Dialect) (server : Server) (lease : ℕ → List ℕ → Action Session Leases) where
  unfoldable pub claim_leased : ℕ → List ℕ → Action Session ClaimTx
  unfolding load_and_bury
  claim_leased sec ids = do
    leases ← lease sec ids
    if is_empty leases then pure no_claim else load_and_bury server leases

  unfoldable pub claim_body : ℕ → ℕ → ℕ → Action Session ClaimTx
  unfolding poll claim_leased
  claim_body channel sec limit = do
    set_timeouts server dialect.timeouts
    ids ← poll server channel limit
    if is_empty ids then pure no_claim else claim_leased sec ids

  unfoldable pub record_claim : ℕ → ClaimTx → Action World (List Delivery)
  record_claim channel c = do
    record_stat c.stat_topic channel stat_claim c.claimed_count
    if c.dead_count == 0 then pure tt else record_stat c.stat_topic channel stat_dead c.dead_count
    pure c.out

  unfoldable pub claim_with : ℤ → ℤ → ℤ → Action World (List Delivery)
  unfolding claim_body record_claim
  claim_with channel lease_for limit = elim (positive? channel) [
    | none ↦ fail invalid_id
    | some c ↦ do
      r ←
          transaction server
            (claim_body c (duration_sec (lease_or_default lease_for)) (positive_or 1 limit))
      record_claim c r
  ]

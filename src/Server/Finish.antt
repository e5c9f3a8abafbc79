-- ===== src/Server/Finish.antt =====
-- driver/postgres/claim.go, Ack and Requeue, and those of driver/mysql/claim.go: the stats
-- coordinates are read first, in a statement of their own.
pub mod Valid
pub mod Outcome
mod Examples
use novaque.Prelude.{
  ℕ, String, Bool, false, ◌&&◌, not, Option, none, some, List, ◌==◌, if◌then◌else◌,
}
use novaque.Prelude.Lists.{length, select, modify, first}
use novaque.Store.Errors.{ok, lease_mismatch}
use novaque.Action.{Action, pure, fail, ◌>>=◌, ◌>>◌}
use novaque.Sqlite.Schema.{Db, DeliveryRow, is_in_flight, channel_by_id}
use novaque.Sqlite.Engine.{World, Stmt, StatKind, stat_ack, stat_requeue, autocommit}
use novaque.Sqlite.Sink.{record_stat}
use novaque.Sqlite.Finish.{release_row, available_from}
use novaque.Server.Engine.{Server, Dialect}

-- `lease_token = ?`, false on NULL.
abbrev pub token_same : (String → String → Bool) → Option String → String → Bool
token_same same none token = false
token_same same (some s) token = same s token

-- WHERE id = ? AND lease_token = ? AND status = 'in_flight'
abbrev pub leased_for : (String → String → Bool) → ℕ → String → DeliveryRow → Bool
leased_for same i token d =
    d.id == i && token_same same d.lease_token token && is_in_flight d.status

-- The topic and channel of a delivery that is found, by an inner join with its channel.
unfoldable pub coordinates : Db → Option DeliveryRow → Option (ℕ × ℕ)
unfolding channel_by_id
coordinates db none = none
coordinates db (some d) = elim (channel_by_id db.channels d.channel_id) [
  | none ↦ none
  | some c ↦ some (c.topic_id, d.channel_id)
]

unfoldable pub lease_attribution : (DeliveryRow → Bool) → Stmt (Option (ℕ × ℕ))
unfolding coordinates
lease_attribution p t db = (ok (coordinates db (first p db.deliveries)), db)

-- DELETE and UPDATE: the number of rows affected.
unfoldable pub delete_where : (DeliveryRow → Bool) → Stmt ℕ
delete_where p t db = (
  ok (length (select p db.deliveries)),
  record db { deliveries = select (λ d. not (p d)) db.deliveries },
)

unfoldable pub release_where : (DeliveryRow → Bool) → Option ℕ → Stmt ℕ
release_where p at t db = (
  ok (length (select p db.deliveries)),
  record db { deliveries = modify p (release_row (available_from at t.now)) db.deliveries },
)

-- With no coordinates nothing is recorded.
unfoldable pub record_found : StatKind → Option (ℕ × ℕ) → Action World (Unit {0})
record_found kind none = pure tt
record_found kind (some (topic, channel)) = record_stat topic channel kind 1

-- Without an affected row the lease is not held any more.
pub settle_finish : StatKind → Option (ℕ × ℕ) → ℕ → Action World (Unit {0})
unfolding record_found
settle_finish kind at n = if n == 0 then fail lease_mismatch else record_found kind at

module _ (dialect : Dialect) (server : Server) where
  pub ack : ℕ → String → Action World (Unit {0})
  unfolding lease_attribution delete_where settle_finish
  ack delivery token = do
    at ← autocommit server.env (lease_attribution (leased_for dialect.same_text delivery token))
    n ← autocommit server.env (delete_where (leased_for dialect.same_text delivery token))
    settle_finish stat_ack at n

  pub requeue : ℕ → String → Option ℕ → Action World (Unit {0})
  unfolding lease_attribution release_where settle_finish
  requeue delivery token available = do
    at ← autocommit server.env (lease_attribution (leased_for dialect.same_text delivery token))
    n ←
        autocommit server.env
          (release_where (leased_for dialect.same_text delivery token) available)
    settle_finish stat_requeue at n

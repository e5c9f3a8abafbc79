-- ===== src/Server/Admin/Dead.antt =====
-- ListDead, RequeueDead and DeleteDead. The topic is read first, in a statement of its own; the
-- channel that counts is the caller's.
pub mod Valid
use novaque.Prelude.{ℕ, Option, none, some, List, ◌==◌, ◌&&◌, if◌then◌else◌}
use novaque.Prelude.Int.{ℤ, pos, positive?, positive_or}
use novaque.Prelude.Lists.{length, select, modify}
use novaque.Store.Errors.{ok, invalid_id, invalid_ttl, dead_gone}
use novaque.Store.Types.{DeadDelivery}
use novaque.Store.Delay.{duration_sec}
use novaque.Action.{Action, pure, fail, ◌>>=◌, ◌>>◌}
use novaque.Sqlite.Schema.{DeliveryRow, is_dead}
use novaque.Prelude.{Bool}
use novaque.Sqlite.Engine.{World, Stmt, StatKind, stat_requeue, stat_purged, autocommit}
use novaque.Sqlite.Sink.{record_stat}
use novaque.Sqlite.Admin.Dead.{
  default_dead_page, prefix_of, select_dead, dead_at, revive_row, extend_message,
}
use novaque.Server.Engine.{Server, Dialect, Session, query, transaction, set_timeouts}
use novaque.Server.Finish.{lease_attribution, delete_where}

-- WHERE d.id = ? AND d.status = 'dead'
abbrev pub dead_id : ℕ → DeliveryRow → Bool
dead_id i d = d.id == i && is_dead d.status

pub revive_where : ℕ → ℕ → ℕ → Stmt ℕ
revive_where i channel ttl t db = (
  ok (length (select (dead_at i channel) db.deliveries)),
  record db { deliveries = modify (dead_at i channel) (revive_row t.now ttl) db.deliveries },
)

unfoldable pub or_gone : ℕ → Action Session (Unit {0})
or_gone n = if n == 0 then fail dead_gone else pure tt

-- Counted only if the topic was found before the change.
unfoldable pub record_topic : StatKind → ℕ → Option (ℕ × ℕ) → Action World (Unit {0})
record_topic kind channel none = pure tt
record_topic kind channel (some (topic, _)) = record_stat topic channel kind 1

module _ (dialect : Dialect) (server : Server) where
  pub list_dead : ℤ → ℤ → ℤ → ℤ → Action World (List DeadDelivery)
  list_dead channel before limit prefix = elim (positive? channel) [
    | none ↦ fail invalid_id
    | some c ↦
        autocommit server.env
          (select_dead c before (positive_or default_dead_page limit) (prefix_of prefix))
  ]

  pub requeue_dead_body : ℕ → ℕ → ℕ → Action Session (Unit {0})
  unfolding revive_where or_gone
  requeue_dead_body delivery channel ttl = do
    set_timeouts server dialect.timeouts
    n ← query server (revive_where delivery channel ttl)
    or_gone n
    query server (extend_message delivery ttl)

  pub requeue_dead : ℕ → ℕ → ℤ → Action World (Unit {0})
  unfolding requeue_dead_body record_topic
  requeue_dead delivery channel fresh_ttl = elim (positive? fresh_ttl) [
    | none ↦ fail invalid_ttl
    | some d ↦ do
      at ← autocommit server.env (lease_attribution (dead_id delivery))
      transaction server (requeue_dead_body delivery channel (duration_sec (pos d)))
      record_topic stat_requeue channel at
  ]

  -- No row: the delivery is not dead in this channel.
  pub settle_delete : ℕ → Option (ℕ × ℕ) → ℕ → Action World (Unit {0})
  unfolding record_topic
  settle_delete channel at n =
      if n == 0 then fail dead_gone else record_topic stat_purged channel at

  pub delete_dead : ℕ → ℕ → Action World (Unit {0})
  unfolding settle_delete
  delete_dead delivery channel = do
    at ← autocommit server.env (lease_attribution (dead_id delivery))
    n ← autocommit server.env (delete_where (dead_at delivery channel))
    settle_delete channel at n

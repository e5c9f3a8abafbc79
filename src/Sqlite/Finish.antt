-- ===== src/Sqlite/Finish.antt =====
-- driver/sqlite/claim.go, Ack and Requeue: both are guarded by the lease token.
pub mod Valid
pub mod Fencing
mod Examples
use novaque.Prelude.{
  ℕ, String, Bool, ◌&&◌, not, Option, none, some, List, [], ◌∷◌, ◌==◌, if◌then◌else◌,
}
use novaque.Prelude.Lists.{select, modify, first}
use novaque.Store.Errors.{Result, ok, err, lease_mismatch}
use novaque.Store.Types.{pending}
use novaque.Action.{Action, pure, fail, ◌>>=◌, ◌>>◌}
use novaque.Sqlite.Schema.{Db, DeliveryRow, is_in_flight, token_is, channel_by_id}
use novaque.Sqlite.Engine.{Env, World, Stmt, StatKind, stat_ack, stat_requeue, autocommit}
use novaque.Sqlite.Sink.{record_stat}

-- The stats coordinates of a delivery: the topic of its channel, if there is one, and the channel.
unfoldable pub attribution : Db → DeliveryRow → Option ℕ × ℕ
unfolding channel_by_id
attribution db d = (
  elim (channel_by_id db.channels d.channel_id) [ none ↦ none | some c ↦ some c.topic_id ],
  d.channel_id,
)

-- The row that QueryRow scans: the first that the statement returns.
unfoldable pub returned : Db → (DeliveryRow → Bool) → Option (Option ℕ × ℕ)
unfolding attribution
returned db p = elim (first p db.deliveries) [ none ↦ none | some d ↦ some (attribution db d) ]

-- WHERE id = ? AND lease_token = ? AND status = 'in_flight'
abbrev pub leased_as : ℕ → String → DeliveryRow → Bool
leased_as i token d = d.id == i && token_is d.lease_token token && is_in_flight d.status

abbrev pub release_row : ℕ → DeliveryRow → DeliveryRow
release_row at d = record d {
  status = pending;
  available_at = at;
  lease_owner = none;
  lease_token = none;
  lease_until = none;
}

pub delete_leased : ℕ → String → Stmt (Option (Option ℕ × ℕ))
unfolding returned
delete_leased i token t db = (
  ok (returned db (leased_as i token)),
  record db { deliveries = select (λ d. not (leased_as i token d)) db.deliveries },
)

-- The zero time makes the delivery available now.
abbrev pub available_from : Option ℕ → ℕ → ℕ
available_from none now = now
available_from (some at) now = at

pub release_leased : ℕ → String → Option ℕ → Stmt (Option (Option ℕ × ℕ))
unfolding returned
release_leased i token at t db = (
  ok (returned db (leased_as i token)),
  record db {
    deliveries = modify (leased_as i token) (release_row (available_from at t.now)) db.deliveries;
  },
)

-- A row whose channel is missing records no counter.
unfoldable pub record_at : StatKind → Option ℕ × ℕ → Action World (Unit {0})
record_at kind (none, channel) = pure tt
record_at kind (some topic, channel) = record_stat topic channel kind 1

-- Without a row the lease is not held any more.
pub record_finish : StatKind → Option (Option ℕ × ℕ) → Action World (Unit {0})
record_finish kind none = fail lease_mismatch
record_finish kind (some at) = record_at kind at

module _ (env : Env) where
  pub ack : ℕ → String → Action World (Unit {0})
  unfolding delete_leased record_finish
  ack delivery token = do
    row ← autocommit env (delete_leased delivery token)
    record_finish stat_ack row

  pub requeue : ℕ → String → Option ℕ → Action World (Unit {0})
  unfolding release_leased record_finish
  requeue delivery token at = do
    row ← autocommit env (release_leased delivery token at)
    record_finish stat_requeue row

-- ===== src/Sqlite/Maintenance.antt =====
-- driver/sqlite/maintenance.go: the lease reaper and the TTL purge.
pub mod Valid
pub mod Running
mod Examples
use novaque.Prelude.{
  ℕ, ◌+◌, Bool, true, ◌&&◌, ◌||◌, not, Option, none, some, List, [], ◌∷◌, map, ltb, ◌==◌,
  if◌then◌else◌,
}
use novaque.Prelude.Int.{ℤ, positive_or}
use novaque.Prelude.Lists.{length, take, is_empty, select, modify, exists, elem, sort_by}
use novaque.Store.Errors.{Result, ok, err}
use novaque.Store.Types.{Status, pending, in_flight, dead}
use novaque.Action.{Action, pure, ◌>>=◌, ◌>>◌}
use novaque.Sqlite.Schema.{Db, MessageRow, DeliveryRow, is_pending, is_in_flight, is_dead, before?}
use novaque.Sqlite.Engine.{Env, World, Stmt, StatCoord, stat_purged, autocommit}
use novaque.Sqlite.Sink.{record_stat, coord_eq}
use novaque.Sqlite.Finish.{attribution, release_row}

-- `status = 'in_flight' AND lease_until IS NOT NULL AND lease_until < now`
abbrev pub lapsed : ℕ → DeliveryRow → Bool
lapsed now d = is_in_flight d.status && before? d.lease_until now

abbrev until_or_zero : Option ℕ → ℕ
until_or_zero none = 0
until_or_zero (some t) = t

abbrev pub lease_earlier : DeliveryRow → DeliveryRow → Bool
lease_earlier a b = not (ltb (until_or_zero b.lease_until) (until_or_zero a.lease_until))

-- The batch of the subquery, ordered by the end of the lease.
unfoldable pub lapsed_ids : ℕ → ℕ → List DeliveryRow → List ℕ
lapsed_ids limit now ds =
    map (λ d. d.id) (take limit (sort_by lease_earlier (select (lapsed now) ds)))

-- The number of rows affected comes back.
unfoldable pub reap : ℕ → Stmt ℕ
unfolding lapsed_ids
reap limit t db =
    let ids = lapsed_ids limit t.now db.deliveries in
    (
      ok (length (select (λ d. elem d.id ids) db.deliveries)),
      record db { deliveries = modify (λ d. elem d.id ids) (release_row t.now) db.deliveries },
    )

-- Expired, and not under a running lease.
abbrev pub lease_over : ℕ → Option ℕ → Bool
lease_over now none = true
lease_over now (some t) = ltb t now

abbrev pub purgeable : ℕ → DeliveryRow → Bool
purgeable now d =
    ltb d.expires_at now
    && (is_pending d.status
        || is_dead d.status
        || is_in_flight d.status && lease_over now d.lease_until)

abbrev expires_earlier : DeliveryRow → DeliveryRow → Bool
expires_earlier a b = not (ltb b.expires_at a.expires_at)

pub select_expired : ℕ → Stmt (List ℕ)
select_expired limit t db = (
  ok (
      map (λ d. d.id)
        (take limit (sort_by expires_earlier (select (purgeable t.now) db.deliveries)))),
  db,
)

-- The guarded DELETE: the stats coordinates of each row that it removed.
pub delete_expired : List ℕ → Stmt (List (Option ℕ × ℕ))
delete_expired ids t db =
    let doomed = λ (d : DeliveryRow). elem d.id ids && purgeable t.now d in
    (
      ok (map (attribution db) (select doomed db.deliveries)),
      record db { deliveries = select (λ d. not (doomed d)) db.deliveries },
    )

-- `counts[coord]++`
pub count_coord : StatCoord → List (StatCoord × ℕ) → List (StatCoord × ℕ)
count_coord c [] = (c, 1) ∷ []
count_coord c ((k, n) ∷ rest) =
    if coord_eq k c then (k, n + 1) ∷ rest else (k, n) ∷ count_coord c rest

pub purge_counts : List (Option ℕ × ℕ) → List (StatCoord × ℕ) → List (StatCoord × ℕ)
unfolding count_coord
purge_counts [] acc = acc
purge_counts ((none, channel) ∷ rows) acc = purge_counts rows acc
purge_counts ((some topic, channel) ∷ rows) acc =
    purge_counts rows (count_coord (record { topic_id = topic; channel_id = channel }) acc)

pub record_purged : List (StatCoord × ℕ) → Action World (Unit {0})
record_purged [] = pure tt
record_purged ((c, n) ∷ rest) = do
  record_stat c.topic_id c.channel_id stat_purged n
  record_purged rest

-- Expired messages that no delivery names.
abbrev pub orphan : Db → ℕ → MessageRow → Bool
orphan db now m = ltb m.expires_at now && not (exists (λ d. d.message_id == m.id) db.deliveries)

abbrev message_earlier : MessageRow → MessageRow → Bool
message_earlier a b = not (ltb b.expires_at a.expires_at)

pub select_orphans : ℕ → Stmt (List ℕ)
select_orphans limit t db = (
  ok (
      map (λ m. m.id)
        (take limit (sort_by message_earlier (select (orphan db t.now) db.messages)))),
  db,
)

-- DELETE by id; the foreign key of the deliveries cascades.
pub delete_messages : List ℕ → Stmt ℕ
delete_messages ids t db = (
  ok (length (select (λ m. elem m.id ids) db.messages)),
  record db {
    messages = select (λ m. not (elem m.id ids)) db.messages;
    deliveries = select (λ d. not (elem d.message_id ids)) db.deliveries;
  },
)

module _ (env : Env) where
  pub reap_expired_leases : ℤ → Action World ℕ
  unfolding reap
  reap_expired_leases limit = autocommit env (reap (positive_or 100 limit))

  pub purge_deliveries : List ℕ → Action World ℕ
  unfolding delete_expired purge_counts record_purged
  purge_deliveries ids = do
    rows ← autocommit env (delete_expired ids)
    record_purged (purge_counts rows [])
    pure (length rows)

  pub purge_expired : ℤ → Action World ℕ
  unfolding select_expired purge_deliveries select_orphans delete_messages
  purge_expired limit = do
    ids ← autocommit env (select_expired (positive_or 100 limit))
    n1 ← if is_empty ids then pure 0 else purge_deliveries ids
    msg_ids ← autocommit env (select_orphans (positive_or 100 limit))
    n2 ← if is_empty msg_ids then pure 0 else autocommit env (delete_messages msg_ids)
    pure (n1 + n2)

-- ===== src/Server/Maintenance.antt =====
-- driver/postgres/maintenance.go, and what driver/mysql/maintenance.go has in common with it: the
-- TTL purge, whose counters come from the batch that was selected.
pub mod Valid
use novaque.Prelude.{
  ℕ, ◌+◌, Bool, ◌&&◌, not, Option, none, some, List, [], ◌∷◌, map, ltb, if◌then◌else◌,
}
use novaque.Prelude.Int.{ℤ, positive_or}
use novaque.Prelude.Lists.{length, take, is_empty, select, modify, elem, sort_by}
use novaque.Store.Errors.{ok}
use novaque.Action.{Action, pure, ◌>>=◌, ◌>>◌}
use novaque.Sqlite.Schema.{Db, DeliveryRow}
use novaque.Sqlite.Engine.{World, Tick, Stmt, StatCoord, stat_purged, autocommit}
use novaque.Sqlite.Claim.{keep_some}
use novaque.Sqlite.Finish.{release_row}
use novaque.Sqlite.Maintenance.{
  lapsed, lapsed_ids, purgeable, count_coord, record_purged, orphan, select_orphans,
  delete_messages,
}
use novaque.Server.Engine.{Server, split_statement}
use novaque.Server.Finish.{coordinates, delete_where}

abbrev expires_earlier : DeliveryRow → DeliveryRow → Bool
expires_earlier a b = not (ltb b.expires_at a.expires_at)

-- A row of the join with its channel: the delivery's id, and its topic and channel.
abbrev pub Doomed : Type 0
Doomed = ℕ × StatCoord

pub doomed_row : DeliveryRow → Option (ℕ × ℕ) → Option Doomed
doomed_row d none = none
doomed_row d (some (topic, channel)) =
    some (d.id, record { topic_id = topic; channel_id = channel })

pub doomed_rows : Db → List DeliveryRow → List Doomed
unfolding doomed_row
doomed_rows db [] = []
doomed_rows db (d ∷ ds) = keep_some (doomed_row d (coordinates db (some d))) (doomed_rows db ds)

-- The LIMIT counts joined rows.
pub select_doomed : ℕ → Stmt (List Doomed)
unfolding doomed_rows
select_doomed limit t db = (
  ok (
      take limit
        (doomed_rows db (sort_by expires_earlier (select (purgeable t.now) db.deliveries)))),
  db,
)

-- The DELETE tests the eligibility again.
pub delete_doomed : List ℕ → Stmt ℕ
delete_doomed ids t db = delete_where (λ d. elem d.id ids && purgeable t.now d) t db

pub count_rows : List Doomed → List (StatCoord × ℕ) → List (StatCoord × ℕ)
count_rows [] acc = acc
count_rows ((i, c) ∷ rows) acc = count_rows rows (count_coord c acc)

-- The UPDATE of the reaper in two steps: the batch, and the rows of it that are still lapsed.
unfoldable pub release_lapsed : List ℕ → Stmt ℕ
release_lapsed ids t db =
    let again = λ (d : DeliveryRow). elem d.id ids && lapsed t.now d in
    (
      ok (length (select again db.deliveries)),
      record db { deliveries = modify again (release_row t.now) db.deliveries },
    )

module _ (server : Server) where
  -- The ids of the batch are deleted under the guard, and what was selected is counted.
  pub purge_doomed : List Doomed → Action World ℕ
  unfolding delete_doomed count_rows
  purge_doomed rows = do
    n ← autocommit server.env (delete_doomed (map (λ r. r.0) rows))
    record_purged (count_rows rows [])
    pure n

  -- With the deletion of orphans, which the engines do in their own ways.
  pub purge_with : (ℕ → Action World ℕ) → ℤ → Action World ℕ
  unfolding select_doomed purge_doomed
  purge_with delete_orphans limit = do
    rows ← autocommit server.env (select_doomed (positive_or 100 limit))
    n1 ← if is_empty rows then pure 0 else purge_doomed rows
    n2 ← delete_orphans (positive_or 100 limit)
    pure (n1 + n2)

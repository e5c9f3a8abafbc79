-- ===== src/Postgres/Names.antt =====
-- driver/postgres/postgres.go: topics and channels are created and found in one statement each.
pub mod Valid
use novaque.Prelude.{ℕ, String}
use novaque.Store.Errors.{Result, ok, err}
use novaque.Action.{Action, lift, ◌>>=◌, ◌>>◌}
use novaque.Sqlite.Engine.{World, Stmt, autocommit}
use novaque.Sqlite.Names.{validate_name, insert_topic, select_topic, insert_channel, select_channel}
use novaque.Server.Engine.{Server}

-- RETURNING: the row, if the insert did not fail.
abbrev returning : Result (Unit {0}) → Result ℕ → Result ℕ
returning (ok _) id = id
returning (err e) id = err e

-- INSERT ... ON CONFLICT (name) DO UPDATE SET name = EXCLUDED.name RETURNING id: a new row, or the one
-- that is there, as it was.
pub upsert_topic : String → Stmt ℕ
upsert_topic name t db =
    let (r, db') = insert_topic name t db in (returning r (select_topic name t db').0, db')

pub upsert_channel : ℕ → String → Stmt ℕ
upsert_channel topic_id name t db =
    let (r, db') = insert_channel topic_id name t db in
    (returning r (select_channel topic_id name t db').0, db')

module _ (server : Server) where
  pub ensure_topic : String → Action World ℕ
  unfolding upsert_topic
  ensure_topic name = do lift (validate_name name); autocommit server.env (upsert_topic name)

  pub ensure_channel : String → String → Action World ℕ
  unfolding upsert_channel
  ensure_channel topic channel = do
    lift (validate_name channel)
    topic_id ← ensure_topic topic
    autocommit server.env (upsert_channel topic_id channel)

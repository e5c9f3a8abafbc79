-- ===== src/Mysql/Names.antt =====
-- driver/mysql/mysql.go: topics and channels, by names that the engine compares by its collation.
pub mod Valid
use novaque.Prelude.{ℕ, suc, String, Bool, ◌&&◌, List, [], ◌∷◌, ◌++◌, ◌==◌, if◌then◌else◌}
use novaque.Prelude.Lists.{first, exists}
use novaque.Store.Errors.{ok}
use novaque.Action.{Action, lift, ◌>>=◌, ◌>>◌}
use novaque.Sqlite.Schema.{Db}
use novaque.Sqlite.Engine.{World, Stmt, autocommit}
use novaque.Sqlite.Names.{validate_name, topic_id_of, channel_id_of}
use novaque.Server.Engine.{Server, Dialect}

module _ (same : String → String → Bool) where
  -- INSERT IGNORE: a name that is there already is left alone.
  pub insert_topic : String → Stmt (Unit {0})
  insert_topic name t db = if exists (λ r. same r.name name) db.topics then (ok tt, db) else (
    ok tt,
    record db {
      topics = db.topics ++ record { id = db.next_topic; name = name } ∷ [];
      next_topic = suc db.next_topic;
    },
  )

  pub select_topic : String → Stmt ℕ
  select_topic name t db = (topic_id_of (first (λ r. same r.name name) db.topics), db)

  -- IGNORE turns the violation of the foreign key on the topic into a warning as well.
  pub insert_channel : ℕ → String → Stmt (Unit {0})
  insert_channel topic_id name t db =
      if exists (λ r. r.id == topic_id) db.topics
      then (if exists (λ r. r.topic_id == topic_id && same r.name name) db.channels
          then (ok tt, db)
          else (
            ok tt,
            record db {
              channels =
                  db.channels
                  ++ record { id = db.next_channel; topic_id = topic_id; name = name } ∷ [];
              next_channel = suc db.next_channel;
            },
          ))
      else (ok tt, db)

  pub select_channel : ℕ → String → Stmt ℕ
  select_channel topic_id name t db =
      (channel_id_of (first (λ r. r.topic_id == topic_id && same r.name name) db.channels), db)

module _ (dialect : Dialect) (server : Server) where
  pub ensure_topic : String → Action World ℕ
  unfolding insert_topic select_topic
  ensure_topic name = do
    lift (validate_name name)
    autocommit server.env (insert_topic dialect.same_text name)
    autocommit server.env (select_topic dialect.same_text name)

  pub ensure_channel : String → String → Action World ℕ
  unfolding insert_channel select_channel
  ensure_channel topic channel = do
    lift (validate_name channel)
    topic_id ← ensure_topic topic
    autocommit server.env (insert_channel dialect.same_text topic_id channel)
    autocommit server.env (select_channel dialect.same_text topic_id channel)

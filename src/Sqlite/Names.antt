-- ===== src/Sqlite/Names.antt =====
-- driver/sqlite/sqlite.go: the name rules, and the creation of topics and channels on demand.
pub mod Valid
use Prim.Native.String.{len}
use novaque.Prelude.{
  ℕ, suc, ◌+◌, String, Bool, true, false, ◌&&◌, ◌||◌, Option, none, some, List, [], ◌∷◌, ◌++◌, leb,
  ◌==◌, str_eq, if◌then◌else◌,
}
use novaque.Prelude.Lists.{first, exists}
use novaque.Prelude.Text.{codes}
use novaque.Store.Errors.{Result, ok, err, invalid_name, engine, foreign_key, other}
use novaque.Action.{Action, pure, fail, lift, ◌>>=◌, ◌>>◌}
use novaque.Sqlite.Schema.{Db, TopicRow, ChannelRow}
use novaque.Sqlite.Engine.{Env, World, Stmt, autocommit}

abbrev in_range : ℕ → ℕ → ℕ → Bool
in_range lo hi r = leb lo r && leb r hi

pub name_char : ℕ → Bool
name_char r =
    in_range b'a' b'z' r
    || in_range b'A' b'Z' r
    || in_range b'0' b'9' r
    || r == b'.'
    || r == b'_'
    || r == b'-'

pub all_name_chars : List ℕ → Bool
unfolding name_char
all_name_chars [] = true
all_name_chars (r ∷ rs) = name_char r && all_name_chars rs

-- The source counts bytes, which are more than the characters only in a name that the second test refuses.
pub validate_name : String → Result (Unit {0})
unfolding all_name_chars
validate_name name =
    if in_range 1 64 (len name) && all_name_chars (codes name) then ok tt else err invalid_name

-- INSERT OR IGNORE INTO novaque_topics: a name that is there already is left alone.
pub insert_topic : String → Stmt (Unit {0})
insert_topic name t db = if exists (λ r. str_eq r.name name) db.topics then (ok tt, db) else (
  ok tt,
  record db {
    topics = db.topics ++ record { id = db.next_topic; name = name } ∷ [];
    next_topic = suc db.next_topic;
  },
)

abbrev pub topic_id_of : Option TopicRow → Result ℕ
topic_id_of none = err (engine other)
topic_id_of (some r) = ok r.id

pub select_topic : String → Stmt ℕ
select_topic name t db = (topic_id_of (first (λ r. str_eq r.name name) db.topics), db)

-- The conflict clause does not cover the foreign key on the topic.
pub insert_channel : ℕ → String → Stmt (Unit {0})
insert_channel topic_id name t db =
    if exists (λ r. r.id == topic_id) db.topics
    then (if exists (λ r. r.topic_id == topic_id && str_eq r.name name) db.channels
        then (ok tt, db)
        else (
          ok tt,
          record db {
            channels =
                db.channels
                ++ record { id = db.next_channel; topic_id = topic_id; name = name } ∷ [];
            next_channel = suc db.next_channel;
          },
        ))
    else (err (engine foreign_key), db)

abbrev pub channel_id_of : Option ChannelRow → Result ℕ
channel_id_of none = err (engine other)
channel_id_of (some r) = ok r.id

pub select_channel : ℕ → String → Stmt ℕ
select_channel topic_id name t db =
    (channel_id_of (first (λ r. r.topic_id == topic_id && str_eq r.name name) db.channels), db)

module _ (env : Env) where
  pub ensure_topic : String → Action World ℕ
  ensure_topic name = do
    lift (validate_name name)
    autocommit env (insert_topic name)
    autocommit env (select_topic name)

  pub ensure_channel : String → String → Action World ℕ
  ensure_channel topic channel = do
    lift (validate_name channel)
    topic_id ← ensure_topic topic
    autocommit env (insert_channel topic_id channel)
    autocommit env (select_channel topic_id channel)

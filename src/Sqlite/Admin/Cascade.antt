-- ===== src/Sqlite/Admin/Cascade.antt =====
-- driver/sqlite/admin.go: DeleteTopic and DeleteChannel, each one transaction of child-first deletes.
pub mod Valid
pub mod Gone
mod Examples
use novaque.Prelude.{
  ℕ, suc, Bool, ◌&&◌, ◌||◌, not, Option, none, some, List, [], ◌∷◌, ◌==◌, if◌then◌else◌,
}
use novaque.Prelude.Int.{ℤ, positive?}
use novaque.Prelude.Lists.{select, exists}
use novaque.Store.Errors.{Result, ok, err, invalid_id, engine, foreign_key}
use novaque.Action.{Action, pure, fail, ◌>>=◌, ◌>>◌}
use novaque.Sqlite.Schema.{Db, ChannelRow, MessageRow}
use novaque.Sqlite.Engine.{Env, World, Stmt, statement, transaction}
use novaque.Sqlite.Sink.{discard_topic_stats, discard_channel_stats}

-- DELETE FROM novaque_messages WHERE topic_id = ?, which cascades to the deliveries.
pub delete_topic_messages : ℕ → Stmt (Unit {0})
delete_topic_messages topic t db = (
  ok tt,
  record db {
    messages = select (λ m. not (m.topic_id == topic)) db.messages;
    deliveries =
        select (λ d. not (exists (λ m. m.topic_id == topic && m.id == d.message_id) db.messages))
          db.deliveries;
  },
)

-- Without a cascade a delivery of a deleted channel violates the foreign key.
pub delete_channels : (ChannelRow → Bool) → Stmt (Unit {0})
delete_channels p t db =
    if exists (λ d. exists (λ c. p c && c.id == d.channel_id) db.channels) db.deliveries
    then (err (engine foreign_key), db)
    else (ok tt, record db { channels = select (λ c. not (p c)) db.channels })

pub delete_topic_stats : ℕ → Stmt (Unit {0})
delete_topic_stats topic t db =
    (ok tt, record db { stats = select (λ r. not (r.topic_id == topic)) db.stats })

-- A channel or message that names the topic violates the foreign key.
pub delete_topic_row : ℕ → Stmt (Unit {0})
delete_topic_row topic t db =
    if exists (λ r. r.id == topic) db.topics
      && (exists (λ c. c.topic_id == topic) db.channels
          || exists (λ m. m.topic_id == topic) db.messages)
    then (err (engine foreign_key), db)
    else (ok tt, record db { topics = select (λ r. not (r.id == topic)) db.topics })

pub delete_channel_deliveries : ℕ → Stmt (Unit {0})
delete_channel_deliveries channel t db =
    (ok tt, record db { deliveries = select (λ d. not (d.channel_id == channel)) db.deliveries })

pub delete_channel_stats : ℕ → Stmt (Unit {0})
delete_channel_stats channel t db =
    (ok tt, record db { stats = select (λ r. not (r.channel_id == channel)) db.stats })

-- Child first: messages with their deliveries, channels, stats, and the topic.
abbrev pub topic_steps : ℕ → List (Stmt (Unit {0}))
topic_steps i =
    delete_topic_messages i
    ∷ delete_channels (λ c. c.topic_id == i)
    ∷ delete_topic_stats i
    ∷ delete_topic_row i
    ∷ []

-- The messages stay, since sibling channels may still deliver them.
abbrev pub channel_steps : ℕ → List (Stmt (Unit {0}))
channel_steps i =
    delete_channel_deliveries i ∷ delete_channel_stats i ∷ delete_channels (λ c. c.id == i) ∷ []

module _ (env : Env) where
  -- The steps in order; the first that fails aborts.
  pub cascade_steps : List (Stmt (Unit {0})) → Action World (Unit {0})
  cascade_steps [] = pure tt
  cascade_steps (s ∷ ss) = do statement env s; cascade_steps ss

  pub run_cascade : List (Stmt (Unit {0})) → Action World (Unit {0})
  unfolding cascade_steps
  run_cascade steps = transaction env (cascade_steps steps)

  -- The buffered counters are dropped only after the commit.
  pub delete_topic : ℤ → Action World (Unit {0})
  unfolding run_cascade delete_topic_messages delete_channels delete_topic_stats delete_topic_row
  delete_topic topic = elim (positive? topic) [
    | none ↦ fail invalid_id
    | some i ↦ do run_cascade (topic_steps i); discard_topic_stats i
  ]

  pub delete_channel : ℤ → Action World (Unit {0})
  unfolding run_cascade delete_channel_deliveries delete_channel_stats delete_channels
  delete_channel channel = elim (positive? channel) [
    | none ↦ fail invalid_id
    | some i ↦ do run_cascade (channel_steps i); discard_channel_stats i
  ]

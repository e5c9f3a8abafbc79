-- ===== src/Sqlite/Names/Valid.antt =====
-- EnsureTopic and EnsureChannel keep the database well-formed.
use novaque.Sqlite.Lifecycle.{Tracing}
use novaque.Prelude.{ℕ, String, inl, inr, ◌==◌, ◌&&◌, str_eq, arith, Bool-cases}
use novaque.Prelude.Lists.{exists}
use novaque.Prelude.Rows.{Asc-append, All-append, All-mono, exists-append_left}
use novaque.Sqlite.Engine.{Env}
use novaque.Sqlite.Engine.Rules.{Safe}
use novaque.Sqlite.Evolution.{
  Evolves, Evolves-Preorder, Evolves-still, OthersEvolve, IsLawful, IsLawful-autocommit, Safe-read,
  lawful_rules,
}
use novaque.Prelude.{refl, suc, true, ◌≡◌, [], ◌∷◌, ◌++◌}
use novaque.Sqlite.Schema.{Db}
use novaque.Sqlite.Names.{
  insert_topic, select_topic, insert_channel, select_channel, ensure_topic, ensure_channel,
}

module _ {traced : Tracing} where
  -- A topic at the end of the table, under the next id.
  pub added_topic-Evolves :
      (name : String) (db : Db)
      → Evolves traced db (record db {
        topics = db.topics ++ record { id = db.next_topic; name = name } ∷ [];
        next_topic = suc db.next_topic;
      })
  added_topic-Evolves name db =
      Evolves-still db _
        (λ v. record {
          topic_ids = Asc-append _ 1 db.topics _ _ _ v.topic_ids (omega arith);
          channel_ids = v.channel_ids;
          message_ids = v.message_ids;
          delivery_ids = v.delivery_ids;
          channel_topics =
              All-mono db.channels (λ c h. exists-append_left _ db.topics _ h) v.channel_topics;
          message_topics =
              All-mono db.messages (λ m h. exists-append_left _ db.topics _ h) v.message_topics;
          delivery_messages = v.delivery_messages;
          delivery_channels = v.delivery_channels;
          leases = v.leases;
        })
        refl refl

  -- A channel of a topic that is there.
  pub added_channel-Evolves :
      (topic : ℕ) (name : String) (db : Db)
      → exists (λ r. r.id == topic) db.topics ≡ true
      → Evolves traced db (record db {
        channels =
            db.channels ++ record { id = db.next_channel; topic_id = topic; name = name } ∷ [];
        next_channel = suc db.next_channel;
      })
  added_channel-Evolves topic name db e =
      Evolves-still db _
        (λ v. record {
          topic_ids = v.topic_ids;
          channel_ids = Asc-append _ 1 db.channels _ _ _ v.channel_ids (omega arith);
          message_ids = v.message_ids;
          delivery_ids = v.delivery_ids;
          channel_topics = All-append _ db.channels _ v.channel_topics (e, tt);
          message_topics = v.message_topics;
          delivery_messages = v.delivery_messages;
          delivery_channels =
              All-mono db.deliveries (λ d h. exists-append_left _ db.channels _ h)
                v.delivery_channels;
          leases = v.leases;
        })
        refl refl

  pub insert_topic-Safe : (name : String) → Safe (Evolves traced) (insert_topic name)
  unfolding insert_topic
  insert_topic-Safe name = record {
    step = λ t db. elim (Bool-cases (exists (λ r. str_eq r.name name) db.topics)) [
      | inl e ↦ rw (e, insert_topic) ((Evolves-Preorder traced).same db)
      | inr e ↦ rw (e, insert_topic) (added_topic-Evolves name db)
    ];
  }

  pub select_topic-Safe : (name : String) → Safe (Evolves traced) (select_topic name)
  unfolding select_topic
  select_topic-Safe name = Safe-read _ (λ t db. refl)

  pub insert_channel-Safe :
      (topic : ℕ) (name : String) → Safe (Evolves traced) (insert_channel topic name)
  unfolding insert_channel
  insert_channel-Safe topic name = record {
    step = λ t db. elim (Bool-cases (exists (λ r. r.id == topic) db.topics)) [
      | inl e ↦
          elim (Bool-cases (exists (λ r. r.topic_id == topic && str_eq r.name name) db.channels)) [
            | inl old ↦ rw (e, old, insert_channel) ((Evolves-Preorder traced).same db)
            | inr new ↦ rw (e, new, insert_channel) (added_channel-Evolves topic name db e)
          ]
      | inr e ↦ rw (e, insert_channel) ((Evolves-Preorder traced).same db)
    ];
  }

  pub select_channel-Safe :
      (topic : ℕ) (name : String) → Safe (Evolves traced) (select_channel topic name)
  unfolding select_channel
  select_channel-Safe topic name = Safe-read _ (λ t db. refl)

  module _ (env : Env) (quiet : OthersEvolve traced env) where
    pub ensure_topic-IsLawful : (name : String) → IsLawful traced (ensure_topic env name)
    unfolding ensure_topic
    ensure_topic-IsLawful name =
        search (lawful_rules, IsLawful-autocommit env quiet, insert_topic-Safe, select_topic-Safe)

    pub ensure_channel-IsLawful :
        (topic channel : String) → IsLawful traced (ensure_channel env topic channel)
    unfolding ensure_channel
    ensure_channel-IsLawful topic channel = search (
      lawful_rules,
      IsLawful-autocommit env quiet,
      ensure_topic-IsLawful,
      insert_channel-Safe,
      select_channel-Safe,
    )

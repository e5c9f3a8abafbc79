-- ===== src/Mysql/Names/Valid.antt =====
-- EnsureTopic and EnsureChannel keep the database well-formed, whatever the collation.
use novaque.Prelude.{ℕ, String, refl, inl, inr, Bool, ◌==◌, ◌&&◌, Bool-cases}
use novaque.Prelude.Lists.{exists}
use novaque.Sqlite.Engine.Rules.{Safe}
use novaque.Sqlite.Lifecycle.{Tracing}
use novaque.Sqlite.Evolution.{
  Evolves, Evolves-Preorder, IsLawful, IsLawful-autocommit, Safe-read, lawful_rules,
}
use novaque.Sqlite.Names.Valid.{added_topic-Evolves, added_channel-Evolves}
use novaque.Server.Engine.{Server, Dialect}
use novaque.Server.Engine.Rules.{OthersKeep}
use novaque.Mysql.Names.{
  insert_topic, select_topic, insert_channel, select_channel, ensure_topic, ensure_channel,
}

module _ {traced : Tracing} (same : String → String → Bool) where
  insert_topic-Safe : (name : String) → Safe (Evolves traced) (insert_topic same name)
  unfolding insert_topic
  insert_topic-Safe name = record {
    step = λ t db. elim (Bool-cases (exists (λ r. same r.name name) db.topics)) [
      | inl e ↦ rw (e, insert_topic) ((Evolves-Preorder traced).same db)
      | inr e ↦ rw (e, insert_topic) (added_topic-Evolves name db)
    ];
  }

  select_topic-Safe : (name : String) → Safe (Evolves traced) (select_topic same name)
  unfolding select_topic
  select_topic-Safe name = Safe-read _ (λ t db. refl)

  insert_channel-Safe :
      (topic : ℕ) (name : String) → Safe (Evolves traced) (insert_channel same topic name)
  unfolding insert_channel
  insert_channel-Safe topic name = record {
    step = λ t db. elim (Bool-cases (exists (λ r. r.id == topic) db.topics)) [
      | inl e ↦
          elim (Bool-cases (exists (λ r. r.topic_id == topic && same r.name name) db.channels)) [
            | inl old ↦ rw (e, old, insert_channel) ((Evolves-Preorder traced).same db)
            | inr new ↦ rw (e, new, insert_channel) (added_channel-Evolves topic name db e)
          ]
      | inr e ↦ rw (e, insert_channel) ((Evolves-Preorder traced).same db)
    ];
  }

  select_channel-Safe :
      (topic : ℕ) (name : String) → Safe (Evolves traced) (select_channel same topic name)
  unfolding select_channel
  select_channel-Safe topic name = Safe-read _ (λ t db. refl)

module _ {traced : Tracing} (dialect : Dialect) (server : Server)
    (keeps : OthersKeep traced server) where
  pub ensure_topic-IsLawful : (name : String) → IsLawful traced (ensure_topic dialect server name)
  unfolding ensure_topic
  ensure_topic-IsLawful name = search (
    lawful_rules,
    IsLawful-autocommit server.env keeps.alone,
    insert_topic-Safe dialect.same_text,
    select_topic-Safe dialect.same_text,
  )

  pub ensure_channel-IsLawful :
      (topic channel : String) → IsLawful traced (ensure_channel dialect server topic channel)
  unfolding ensure_channel
  ensure_channel-IsLawful topic channel = search (
    lawful_rules,
    IsLawful-autocommit server.env keeps.alone,
    ensure_topic-IsLawful,
    insert_channel-Safe dialect.same_text,
    select_channel-Safe dialect.same_text,
  )

-- ===== src/Postgres/Names/Valid.antt =====
-- EnsureTopic and EnsureChannel keep the database well-formed.
use novaque.Prelude.{ℕ, String}
use novaque.Sqlite.Engine.Rules.{Safe}
use novaque.Sqlite.Lifecycle.{Tracing}
use novaque.Sqlite.Evolution.{Evolves, IsLawful, IsLawful-autocommit, lawful_rules}
use novaque.Sqlite.Names.Valid.{insert_topic-Safe, insert_channel-Safe}
use novaque.Server.Engine.{Server}
use novaque.Server.Engine.Rules.{OthersKeep}
use novaque.Postgres.Names.{upsert_topic, upsert_channel, ensure_topic, ensure_channel}

module _ {traced : Tracing} where
  upsert_topic-Safe : (name : String) → Safe (Evolves traced) (upsert_topic name)
  unfolding upsert_topic
  upsert_topic-Safe name = record { step = λ t db. (insert_topic-Safe name).step t db }

  upsert_channel-Safe :
      (topic : ℕ) (name : String) → Safe (Evolves traced) (upsert_channel topic name)
  unfolding upsert_channel
  upsert_channel-Safe topic name = record {
    step = λ t db. (insert_channel-Safe topic name).step t db;
  }

  module _ (server : Server) (keeps : OthersKeep traced server) where
    pub ensure_topic-IsLawful : (name : String) → IsLawful traced (ensure_topic server name)
    unfolding ensure_topic
    ensure_topic-IsLawful name =
        search (lawful_rules, IsLawful-autocommit server.env keeps.alone, upsert_topic-Safe)

    pub ensure_channel-IsLawful :
        (topic channel : String) → IsLawful traced (ensure_channel server topic channel)
    unfolding ensure_channel
    ensure_channel-IsLawful topic channel = search (
      lawful_rules,
      IsLawful-autocommit server.env keeps.alone,
      ensure_topic-IsLawful,
      upsert_channel-Safe,
    )

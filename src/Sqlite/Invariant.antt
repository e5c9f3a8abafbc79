-- ===== src/Sqlite/Invariant.antt =====
-- Well-formed databases: the keys and foreign keys of schema.sql, and the lease columns.
use novaque.Prelude.{arith, ap, ◌∙◌, ℕ, ◌≡◌, Bool, true, false, ◌==◌, Option, none, some, List}
use novaque.Prelude.Lists.{All, exists, select, modify}
use novaque.Prelude.Rows.{
  Asc, All-select, All-modify, All-mono, Asc-select, Asc-modify, exists-modify,
}
use novaque.Sqlite.Engine.{Env}
use novaque.Sqlite.Schema.{
  Db, TopicRow, ChannelRow, MessageRow, DeliveryRow, StatsRow, is_in_flight, empty_db,
}

abbrev pub has_topic : List TopicRow → ℕ → Bool
has_topic ts i = exists (λ r. r.id == i) ts

abbrev pub has_channel : List ChannelRow → ℕ → Bool
has_channel cs i = exists (λ r. r.id == i) cs

abbrev pub has_message : List MessageRow → ℕ → Bool
has_message ms i = exists (λ r. r.id == i) ms

abbrev pub is_some : {A : Type 0} → Option A → Bool
is_some none = false
is_some (some a) = true

-- A delivery has an owner, a token and a deadline while it is in flight, and only then.
abbrev pub LeaseOk : DeliveryRow → Type 0
LeaseOk d =
    (is_some d.lease_owner ≡ is_in_flight d.status)
    × (is_some d.lease_token ≡ is_in_flight d.status)
    × (is_some d.lease_until ≡ is_in_flight d.status)

pub record IsValid (db : Db) : Type 0 where
  pub topic_ids : Asc (λ r. r.id) 1 db.topics db.next_topic
  pub channel_ids : Asc (λ r. r.id) 1 db.channels db.next_channel
  pub message_ids : Asc (λ r. r.id) 1 db.messages db.next_message
  pub delivery_ids : Asc (λ r. r.id) 1 db.deliveries db.next_delivery
  pub channel_topics : All (λ c. has_topic db.topics c.topic_id ≡ true) db.channels
  pub message_topics : All (λ m. has_topic db.topics m.topic_id ≡ true) db.messages
  pub delivery_messages : All (λ d. has_message db.messages d.message_id ≡ true) db.deliveries
  pub delivery_channels : All (λ d. has_channel db.channels d.channel_id ≡ true) db.deliveries
  pub leases : All LeaseOk db.deliveries

pub IsValid-empty : IsValid empty_db
IsValid-empty = record {
  topic_ids = omega arith;
  channel_ids = omega arith;
  message_ids = omega arith;
  delivery_ids = omega arith;
  channel_topics = tt;
  message_topics = tt;
  delivery_messages = tt;
  delivery_channels = tt;
  leases = tt;
}

-- Deleting deliveries keeps a database well-formed.
pub IsValid-select_deliveries :
    (p : DeliveryRow → Bool) (db : Db)
    → IsValid db
    → IsValid (record db { deliveries = select p db.deliveries })
IsValid-select_deliveries p db v = record {
  topic_ids = v.topic_ids;
  channel_ids = v.channel_ids;
  message_ids = v.message_ids;
  delivery_ids = Asc-select _ p 1 db.deliveries _ v.delivery_ids;
  channel_topics = v.channel_topics;
  message_topics = v.message_topics;
  delivery_messages = All-select _ p db.deliveries v.delivery_messages;
  delivery_channels = All-select _ p db.deliveries v.delivery_channels;
  leases = All-select _ p db.deliveries v.leases;
}

-- So does a change that keeps a delivery's keys and leaves its lease columns in order.
pub IsValid-modify_deliveries :
    (p : DeliveryRow → Bool) (f : DeliveryRow → DeliveryRow) (db : Db)
    → ((d : DeliveryRow) → (f d).id ≡ d.id)
    → ((d : DeliveryRow) → (f d).message_id ≡ d.message_id)
    → ((d : DeliveryRow) → (f d).channel_id ≡ d.channel_id)
    → ((d : DeliveryRow) → LeaseOk d → LeaseOk (f d))
    → IsValid db
    → IsValid (record db { deliveries = modify p f db.deliveries })
IsValid-modify_deliveries p f db same_id same_message same_channel ok v = record {
  topic_ids = v.topic_ids;
  channel_ids = v.channel_ids;
  message_ids = v.message_ids;
  delivery_ids = Asc-modify _ p f 1 db.deliveries _ same_id v.delivery_ids;
  channel_topics = v.channel_topics;
  message_topics = v.message_topics;
  delivery_messages =
      All-modify p f db.deliveries (λ d _ h. rw (same_message d) h) (λ d _ h. h)
        v.delivery_messages;
  delivery_channels =
      All-modify p f db.deliveries (λ d _ h. rw (same_channel d) h) (λ d _ h. h)
        v.delivery_channels;
  leases = All-modify p f db.deliveries (λ d _ h. ok d h) (λ d _ h. h) v.leases;
}

-- A change of messages that keeps their keys.
pub IsValid-modify_messages :
    (p : MessageRow → Bool) (f : MessageRow → MessageRow) (db : Db)
    → ((m : MessageRow) → (f m).id ≡ m.id)
    → ((m : MessageRow) → (f m).topic_id ≡ m.topic_id)
    → IsValid db
    → IsValid (record db { messages = modify p f db.messages })
IsValid-modify_messages p f db same_id same_topic v = record {
  topic_ids = v.topic_ids;
  channel_ids = v.channel_ids;
  message_ids = Asc-modify _ p f 1 db.messages _ same_id v.message_ids;
  delivery_ids = v.delivery_ids;
  channel_topics = v.channel_topics;
  message_topics =
      All-modify p f db.messages (λ m _ h. rw (same_topic m) h) (λ m _ h. h) v.message_topics;
  delivery_messages =
      All-mono db.deliveries
        (λ d h. exists-modify _ p f db.messages (λ m. ap (λ i. i == d.message_id) (same_id m)) ∙ h)
        v.delivery_messages;
  delivery_channels = v.delivery_channels;
  leases = v.leases;
}

-- The stats table has no keys into the others.
pub IsValid-stats :
    (rows : List StatsRow) (db : Db) → IsValid db → IsValid (record db { stats = rows })
IsValid-stats rows db v = record {
  topic_ids = v.topic_ids;
  channel_ids = v.channel_ids;
  message_ids = v.message_ids;
  delivery_ids = v.delivery_ids;
  channel_topics = v.channel_topics;
  message_topics = v.message_topics;
  delivery_messages = v.delivery_messages;
  delivery_channels = v.delivery_channels;
  leases = v.leases;
}

-- Other processes run the same code: what they commit keeps the database well-formed.
pub record OthersValid (env : Env) : Type 0 where
  pub keep : (n : ℕ) (db : Db) → IsValid db → IsValid (env.others n db)

-- ===== src/Sqlite/Schema.antt =====
-- driver/sqlite/schema.sql: the tables. A table is the list of its rows by ascending id; the columns
-- `created_at`, which nothing reads, are left out. Times are Unix seconds.
use novaque.Prelude.{ℕ, String, Bool, true, false, Option, none, some, List, [], ◌==◌, ltb, str_eq}
use novaque.Prelude.Lists.{first}
use novaque.Store.Types.{ChannelCounters, Status, pending, in_flight, dead}

pub record TopicRow : Type 0 where
  pub id : ℕ
  pub name : String

pub record ChannelRow : Type 0 where
  pub id : ℕ
  pub topic_id : ℕ
  pub name : String

pub record MessageRow : Type 0 where
  pub id : ℕ
  pub topic_id : ℕ
  pub body : List ℕ
  pub expires_at : ℕ

pub record DeliveryRow : Type 0 where
  pub id : ℕ
  pub message_id : ℕ
  pub channel_id : ℕ
  pub status : Status
  pub available_at : ℕ
  pub expires_at : ℕ
  pub attempts : ℕ
  pub max_attempts : ℕ
  pub lease_until : Option ℕ
  pub lease_owner : Option String
  pub lease_token : Option String

-- A day bucket with its six counter columns; `day_utc` counts days from the epoch. Channel 0 is the zero-channel sentinel.
pub record StatsRow : Type 0 where
  pub day_utc : ℕ
  pub topic_id : ℕ
  pub channel_id : ℕ
  pub counts : ChannelCounters

-- The `next_` fields are the AUTOINCREMENT sequences: an id is never given twice.
pub record Db : Type 0 where
  pub topics : List TopicRow
  pub channels : List ChannelRow
  pub messages : List MessageRow
  pub deliveries : List DeliveryRow
  pub stats : List StatsRow
  pub next_topic : ℕ
  pub next_channel : ℕ
  pub next_message : ℕ
  pub next_delivery : ℕ

abbrev pub empty_db : Db
empty_db = record {
  topics = [];
  channels = [];
  messages = [];
  deliveries = [];
  stats = [];
  next_topic = 1;
  next_channel = 1;
  next_message = 1;
  next_delivery = 1;
}

unfoldable pub topic_by_id : List TopicRow → ℕ → Option TopicRow
topic_by_id ts i = first (λ t. t.id == i) ts

unfoldable pub channel_by_id : List ChannelRow → ℕ → Option ChannelRow
channel_by_id cs i = first (λ c. c.id == i) cs

unfoldable pub message_by_id : List MessageRow → ℕ → Option MessageRow
message_by_id ms i = first (λ m. m.id == i) ms

abbrev pub is_pending : Status → Bool
is_pending pending = true
is_pending in_flight = false
is_pending dead = false

abbrev pub is_in_flight : Status → Bool
is_in_flight pending = false
is_in_flight in_flight = true
is_in_flight dead = false

abbrev pub is_dead : Status → Bool
is_dead pending = false
is_dead in_flight = false
is_dead dead = true

-- `lease_until IS NOT NULL AND lease_until < now`
abbrev pub before? : Option ℕ → ℕ → Bool
before? none now = false
before? (some t) now = ltb t now

-- `lease_token = ?`, false on NULL
abbrev pub token_is : Option String → String → Bool
token_is none t = false
token_is (some s) t = str_eq s t

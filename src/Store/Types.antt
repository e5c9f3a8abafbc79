-- ===== src/Store/Types.antt =====
-- store/store.go: the data that crosses the store seam. Times are Unix seconds; `none` is the zero
-- time. Payloads are lists of bytes.
use novaque.Prelude.{ℕ, String, List, Option}
use novaque.Prelude.Int.{ℤ}

pub data Status : Type 0 where
  pending in_flight dead : Status

pub record Delivery : Type 0 where
  pub id : ℕ
  pub message_id : ℕ
  pub channel_id : ℕ
  pub topic : String
  pub channel : String
  pub body : List ℕ
  pub status : Status
  pub attempts : ℕ
  pub max_attempts : ℕ
  pub lease_token : String
  pub available_at : Option ℕ
  pub lease_until : Option ℕ

-- Durations are nanoseconds.
pub record PublishOpts : Type 0 where
  pub ttl : ℤ
  pub expires_at : Option ℕ
  pub delay : ℤ
  pub max_attempts : ℤ

pub record ChannelCounters : Type 0 where
  pub publish : ℕ
  pub claim : ℕ
  pub ack : ℕ
  pub requeue : ℕ
  pub dead : ℕ
  pub purge : ℕ

pub record ChannelBacklog : Type 0 where
  pub pending : ℕ
  pub ready : ℕ
  pub in_flight : ℕ
  pub dead : ℕ

pub record TopicInfo : Type 0 where
  pub id : ℕ
  pub name : String

pub record ChannelInfo : Type 0 where
  pub id : ℕ
  pub topic_id : ℕ
  pub name : String

pub record BacklogRow : Type 0 where
  pub channel_id : ℕ
  pub pending : ℕ
  pub ready : ℕ
  pub in_flight : ℕ
  pub dead : ℕ

-- `day` counts UTC days from the Unix epoch.
pub record DailyCounters : Type 0 where
  pub day : ℕ
  pub publish : ℕ
  pub claim : ℕ
  pub ack : ℕ
  pub requeue : ℕ
  pub dead : ℕ
  pub purge : ℕ

pub record DeadDelivery : Type 0 where
  pub id : ℕ
  pub message_id : ℕ
  pub channel_id : ℕ
  pub topic : String
  pub channel : String
  pub body : List ℕ
  pub body_len : ℕ
  pub status : Status
  pub attempts : ℕ
  pub max_attempts : ℕ
  pub available_at : Option ℕ
  pub expires_at : Option ℕ

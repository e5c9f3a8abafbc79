-- ===== src/Store/Interface.antt =====
-- store/store.go, the Store interface: the operations that Client, Consumer and the cache use, as
-- actions on the state of an implementation. Ids, limits and durations are signed as in the source.
use novaque.Prelude.{ℕ, String, Option, List}
use novaque.Prelude.Int.{ℤ}
use novaque.Store.Types.{
  Delivery, PublishOpts, ChannelCounters, ChannelBacklog, TopicInfo, ChannelInfo, BacklogRow,
  DailyCounters, DeadDelivery,
}
use novaque.Action.{Action}

pub record Store (S : Type 0) : Type 0 where
  pub ensure_topic : String → Action S ℕ
  pub ensure_channel : String → String → Action S ℕ
  pub publish : ℤ → List ℕ → PublishOpts → Action S ℕ
  pub claim : ℤ → String → ℤ → ℤ → Action S (List Delivery)
  pub ack : ℕ → String → Action S (Unit {0})
  pub requeue : ℕ → String → Option ℕ → Action S (Unit {0})
  pub reap_expired_leases : ℤ → Action S ℕ
  pub purge_expired : ℤ → Action S ℕ
  pub channel_counters : ℤ → Action S ChannelCounters
  pub topic_counters : ℤ → Action S ChannelCounters
  pub channel_backlog : ℤ → Action S ChannelBacklog
  pub prune_stats : ℤ → Action S ℕ
  pub flush_stats : Action S (Unit {0})
  pub list_topics : Action S (List TopicInfo)
  pub list_channels : Action S (List ChannelInfo)
  pub backlogs : Action S (List BacklogRow)
  pub backlogs_for_topic : ℤ → Action S (List BacklogRow)
  pub topic_daily_counters : ℤ → ℤ → Action S (List DailyCounters)
  pub channel_daily_counters : ℤ → ℤ → Action S (List DailyCounters)
  pub cluster_daily_counters : ℤ → Action S (List DailyCounters)
  pub list_dead : ℤ → ℤ → ℤ → ℤ → Action S (List DeadDelivery)
  pub requeue_dead : ℕ → ℕ → ℤ → Action S (Unit {0})
  pub delete_dead : ℕ → ℕ → Action S (Unit {0})
  pub delete_topic : ℤ → Action S (Unit {0})
  pub delete_channel : ℤ → Action S (Unit {0})

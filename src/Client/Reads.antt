-- ===== src/Client/Reads.antt =====
-- client.go: the statistics and admin calls of Client. Some resolve names or flush first, and the others
-- are the calls of the store.
use novaque.Prelude.{ℕ, String, List}
use novaque.Prelude.Int.{ℤ, pos}
use novaque.Store.Types.{
  ChannelCounters, ChannelBacklog, DailyCounters, TopicInfo, ChannelInfo, BacklogRow, DeadDelivery,
}
use novaque.Store.Interface.{Store}
use novaque.Action.{Action, pure, attempt, ◌>>=◌, ◌>>◌}
use novaque.Client.Options.{Options}

module _ {S : Type 0} (store : Store S) (opts : Options) where
  -- A read by name creates the channel.
  pub channel_counters : String → String → Action S ChannelCounters
  channel_counters topic channel = do
    id ← store.ensure_channel topic channel
    store.channel_counters (pos id)

  pub topic_counters : String → Action S ChannelCounters
  topic_counters topic = do id ← store.ensure_topic topic; store.topic_counters (pos id)

  pub channel_backlog : String → String → Action S ChannelBacklog
  channel_backlog topic channel = do
    id ← store.ensure_channel topic channel
    store.channel_backlog (pos id)

  -- A failure is logged and swallowed.
  pub flush_stats_best_effort : Action S (Unit {0})
  flush_stats_best_effort = do attempt store.flush_stats; pure tt

  pub topic_daily_counters : ℤ → ℤ → Action S (List DailyCounters)
  unfolding flush_stats_best_effort
  topic_daily_counters topic days = do
    flush_stats_best_effort
    store.topic_daily_counters topic days

  pub channel_daily_counters : ℤ → ℤ → Action S (List DailyCounters)
  unfolding flush_stats_best_effort
  channel_daily_counters channel days = do
    flush_stats_best_effort
    store.channel_daily_counters channel days

  pub cluster_daily_counters : ℤ → Action S (List DailyCounters)
  unfolding flush_stats_best_effort
  cluster_daily_counters days = do flush_stats_best_effort; store.cluster_daily_counters days

  pub prune_stats : Action S ℕ
  prune_stats = store.prune_stats opts.stats_retention_days

  pub requeue_dead : ℕ → ℕ → Action S (Unit {0})
  requeue_dead delivery channel = store.requeue_dead delivery channel opts.default_ttl

  pub delete_dead : ℕ → ℕ → Action S (Unit {0})
  delete_dead delivery channel = store.delete_dead delivery channel

  pub flush_stats : Action S (Unit {0})
  flush_stats = store.flush_stats

  unfoldable pub list_topics : Action S (List TopicInfo)
  list_topics = store.list_topics

  unfoldable pub list_channels : Action S (List ChannelInfo)
  list_channels = store.list_channels

  unfoldable pub backlogs : Action S (List BacklogRow)
  backlogs = store.backlogs

  pub backlogs_for_topic : ℤ → Action S (List BacklogRow)
  backlogs_for_topic topic = store.backlogs_for_topic topic

  pub channel_backlog_by_id : ℤ → Action S ChannelBacklog
  channel_backlog_by_id channel = store.channel_backlog channel

  pub create_topic : String → Action S ℕ
  create_topic name = store.ensure_topic name

  pub create_channel : String → String → Action S ℕ
  create_channel topic channel = store.ensure_channel topic channel

  pub delete_topic : ℤ → Action S (Unit {0})
  delete_topic topic = store.delete_topic topic

  pub delete_channel : ℤ → Action S (Unit {0})
  delete_channel channel = store.delete_channel channel

  unfoldable pub list_dead : ℤ → ℤ → ℤ → ℤ → Action S (List DeadDelivery)
  list_dead channel before limit body_prefix = store.list_dead channel before limit body_prefix

-- ===== src/Admin/Loads.antt =====
-- admin/admin.go: the reads behind the pages. No read creates a row.
use novaque.Prelude.{ℕ, ◌==◌, String, Option, none, some, List, [], ◌∷◌, if◌then◌else◌}
use novaque.Prelude.Int.{pos}
use novaque.Prelude.Lists.{first}
use novaque.Store.Errors.{id_not_found}
use novaque.Store.Types.{TopicInfo, ChannelInfo, BacklogRow, DailyCounters}
use novaque.Store.Interface.{Store}
use novaque.Action.{Action, pure, fail, ◌>>=◌}
use novaque.Client.Options.{Options}
use novaque.Client.Reads.{
  list_topics, list_channels, backlogs, backlogs_for_topic, channel_backlog_by_id,
  topic_daily_counters, channel_daily_counters, cluster_daily_counters,
}
use novaque.Admin.Views.{
  TopicGroupView, trend_days, backlogs_by_channel, channels_with_backlog, zero_fill_daily,
}
use novaque.Admin.Replies.{ChannelMeta, TopicView, ChannelDetailView}

-- The group of each topic.
unfoldable pub groups_of :
    List ChannelInfo → (ℕ → Option BacklogRow) → List TopicInfo → List TopicGroupView
groups_of channels by_channel [] = []
groups_of channels by_channel (t ∷ ts) =
    let (chans, totals) = channels_with_backlog channels t.id by_channel in
    record { id = t.id; name = t.name; totals = totals; channels = chans }
    ∷ groups_of channels by_channel ts

-- The name of the topic, empty if it is not listed.
abbrev pub name_of : Option TopicInfo → String
name_of none = ""
name_of (some t) = t.name

-- A topic that the listing has; the id 0 is none.
abbrev pub listed_topic : ℕ → List TopicInfo → Option TopicInfo
listed_topic i ts = elim (first (λ (t : TopicInfo). t.id == i) ts) [
  | none ↦ none
  | some t ↦ if t.id == 0 then none else some t
]

abbrev pub listed_channel : ℕ → List ChannelInfo → Option ChannelInfo
listed_channel i cs = elim (first (λ (c : ChannelInfo). c.id == i) cs) [
  | none ↦ none
  | some c ↦ if c.id == 0 then none else some c
]

module _ {S : Type 0} (store : Store S) (opts : Options) where
  unfoldable pub load_groups : Action S (List TopicGroupView)
  unfolding groups_of
  load_groups = do
    topics ← list_topics store opts
    channels ← list_channels store opts
    rows ← backlogs store opts
    pure (groups_of channels (backlogs_by_channel rows) topics)

  -- `today` is the day of the host's clock.
  unfoldable pub load_cluster_days : ℕ → Action S (List DailyCounters)
  load_cluster_days today = do
    rows ← cluster_daily_counters store opts (pos trend_days)
    pure (zero_fill_daily rows trend_days today)

  channel_named : Option ChannelInfo → Action S ChannelMeta
  channel_named none = fail id_not_found
  channel_named (some c) = do
    topics ← list_topics store opts
    pure (record {
      channel_id = c.id;
      channel_name = c.name;
      topic_id = c.topic_id;
      topic_name = name_of (first (λ t. t.id == c.topic_id) topics);
    })

  unfoldable pub resolve_channel : ℕ → Action S ChannelMeta
  unfolding channel_named
  resolve_channel channel = do
    channels ← list_channels store opts
    channel_named (listed_channel channel channels)

  topic_rows : Option TopicInfo → Action S TopicView
  topic_rows none = fail id_not_found
  topic_rows (some t) = do
    channels ← list_channels store opts
    rows ← backlogs_for_topic store opts (pos t.id)
    let (chans, totals) = channels_with_backlog channels t.id (backlogs_by_channel rows)
    pure (record { id = t.id; name = t.name; totals = totals; channels = chans; days = [] })

  -- Everything but the daily counters.
  unfoldable pub load_topic_base : ℕ → Action S TopicView
  unfolding topic_rows
  load_topic_base topic = do topics ← list_topics store opts; topic_rows (listed_topic topic topics)

  unfoldable pub load_topic : ℕ → ℕ → Action S TopicView
  unfolding load_topic_base
  load_topic today topic = do
    v ← load_topic_base topic
    rows ← topic_daily_counters store opts (pos topic) (pos trend_days)
    pure (record v { days = zero_fill_daily rows trend_days today })

  unfoldable pub load_channel_base : ℕ → Action S ChannelDetailView
  unfolding resolve_channel
  load_channel_base channel = do
    m ← resolve_channel channel
    b ← channel_backlog_by_id store opts (pos channel)
    pure (record {
      channel = m;
      backlog = record {
        channel_id = channel;
        pending = b.pending;
        ready = b.ready;
        in_flight = b.in_flight;
        dead = b.dead;
      };
      days = [];
    })

  unfoldable pub load_channel : ℕ → ℕ → Action S ChannelDetailView
  unfolding load_channel_base
  load_channel today channel = do
    v ← load_channel_base channel
    rows ← channel_daily_counters store opts (pos channel) (pos trend_days)
    pure (record v { days = zero_fill_daily rows trend_days today })

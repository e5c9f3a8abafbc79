-- ===== src/Server/Admin/Listings.antt =====
-- The listings, the batched backlogs and the daily counters. The order of names is the engine's.
use novaque.Prelude.{Bool, true, List, map, none, some, ◌==◌, if◌then◌else◌, String}
use novaque.Prelude.Int.{ℤ, positive?}
use novaque.Prelude.Lists.{sort_by}
use novaque.Store.Errors.{ok, invalid_id, invalid_days}
use novaque.Store.Types.{TopicInfo, ChannelInfo, BacklogRow, DailyCounters}
use novaque.Action.{Action, fail}
use novaque.Sqlite.Schema.{ChannelRow, StatsRow}
use novaque.Sqlite.Engine.{World, Stmt, autocommit}
use novaque.Sqlite.Admin.Listings.{with_topic, select_backlogs, select_backlogs_for}
use novaque.Sqlite.Admin.Daily.{select_daily}
use novaque.Server.Engine.{Server, Dialect}

pub select_topics : (String → String → Bool) → Stmt (List TopicInfo)
select_topics name_leb t db = (
  ok (
      map (λ r. record { id = r.id; name = r.name })
        (sort_by (λ a b. name_leb a.name b.name) db.topics)),
  db,
)

-- ORDER BY t.name ASC, c.name ASC; names that come in either order are one to the engine.
abbrev by_names : (String → String → Bool) → (String × ChannelRow) → (String × ChannelRow) → Bool
by_names name_leb a b =
    if name_leb a.0 b.0
    then (if name_leb b.0 a.0 then name_leb a.1.name b.1.name else true)
    else name_leb a.0 b.0

pub select_channels : (String → String → Bool) → Stmt (List ChannelInfo)
select_channels name_leb t db = (
  ok (
      map (λ j. record { id = j.1.id; topic_id = j.1.topic_id; name = j.1.name })
        (sort_by (by_names name_leb) (with_topic db.topics db.channels))),
  db,
)

module _ (dialect : Dialect) (server : Server) where
  pub list_topics : Action World (List TopicInfo)
  unfolding select_topics
  list_topics = autocommit server.env (select_topics dialect.name_leb)

  pub list_channels : Action World (List ChannelInfo)
  unfolding select_channels
  list_channels = autocommit server.env (select_channels dialect.name_leb)

  pub backlogs : Action World (List BacklogRow)
  backlogs = autocommit server.env select_backlogs

  pub backlogs_for_topic : ℤ → Action World (List BacklogRow)
  backlogs_for_topic topic = elim (positive? topic) [
    | none ↦ fail invalid_id
    | some i ↦ autocommit server.env (select_backlogs_for i)
  ]

  abbrev daily : (StatsRow → Bool) → ℤ → Action World (List DailyCounters)
  daily p days = elim (positive? days) [
    | none ↦ fail invalid_days
    | some n ↦ autocommit server.env (select_daily p n)
  ]

  pub topic_daily_counters : ℤ → ℤ → Action World (List DailyCounters)
  topic_daily_counters topic days = elim (positive? topic) [
    | none ↦ fail invalid_id
    | some i ↦ daily (λ r. r.topic_id == i) days
  ]

  pub channel_daily_counters : ℤ → ℤ → Action World (List DailyCounters)
  channel_daily_counters channel days = elim (positive? channel) [
    | none ↦ fail invalid_id
    | some c ↦ daily (λ r. r.channel_id == c) days
  ]

  pub cluster_daily_counters : ℤ → Action World (List DailyCounters)
  cluster_daily_counters days = daily (λ r. true) days

-- ===== src/Mysql/Admin.antt =====
-- driver/mysql/admin.go: the same steps as in driver/postgres.
use novaque.Prelude.{ℕ, List}
use novaque.Prelude.Int.{ℤ}
use novaque.Store.Types.{TopicInfo, ChannelInfo, BacklogRow, DailyCounters, DeadDelivery}
use novaque.Action.{Action}
use novaque.Sqlite.Engine.{World}
use novaque.Server.Engine.{Server, Dialect}
use novaque.Server.Admin.Listings
use novaque.Server.Admin.Dead
use novaque.Server.Admin.Cascade

module _ (dialect : Dialect) (server : Server) where
  abbrev pub list_topics : Action World (List TopicInfo)
  list_topics = Listings.list_topics dialect server

  abbrev pub list_channels : Action World (List ChannelInfo)
  list_channels = Listings.list_channels dialect server

  abbrev pub backlogs : Action World (List BacklogRow)
  backlogs = Listings.backlogs dialect server

  abbrev pub backlogs_for_topic : ℤ → Action World (List BacklogRow)
  backlogs_for_topic = Listings.backlogs_for_topic dialect server

  abbrev pub topic_daily_counters : ℤ → ℤ → Action World (List DailyCounters)
  topic_daily_counters = Listings.topic_daily_counters dialect server

  abbrev pub channel_daily_counters : ℤ → ℤ → Action World (List DailyCounters)
  channel_daily_counters = Listings.channel_daily_counters dialect server

  abbrev pub cluster_daily_counters : ℤ → Action World (List DailyCounters)
  cluster_daily_counters = Listings.cluster_daily_counters dialect server

  abbrev pub list_dead : ℤ → ℤ → ℤ → ℤ → Action World (List DeadDelivery)
  list_dead = Dead.list_dead dialect server

  abbrev pub requeue_dead : ℕ → ℕ → ℤ → Action World (Unit {0})
  requeue_dead = Dead.requeue_dead dialect server

  abbrev pub delete_dead : ℕ → ℕ → Action World (Unit {0})
  delete_dead = Dead.delete_dead dialect server

  abbrev pub delete_topic : ℤ → Action World (Unit {0})
  delete_topic = Cascade.delete_topic dialect server

  abbrev pub delete_channel : ℤ → Action World (Unit {0})
  delete_channel = Cascade.delete_channel dialect server

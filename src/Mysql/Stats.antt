-- ===== src/Mysql/Stats.antt =====
-- driver/mysql/stats.go: the same steps as in driver/postgres.
use novaque.Prelude.{ℕ}
use novaque.Prelude.Int.{ℤ}
use novaque.Store.Types.{ChannelCounters, ChannelBacklog}
use novaque.Action.{Action}
use novaque.Sqlite.Engine.{World}
use novaque.Server.Engine.{Server, Dialect}
use novaque.Server.Stats

module _ (dialect : Dialect) (server : Server) where
  abbrev pub flush_stats : Action World (Unit {0})
  flush_stats = Stats.flush_stats dialect server

  abbrev pub channel_counters : ℤ → Action World ChannelCounters
  channel_counters = Stats.channel_counters dialect server

  abbrev pub topic_counters : ℤ → Action World ChannelCounters
  topic_counters = Stats.topic_counters dialect server

  abbrev pub channel_backlog : ℤ → Action World ChannelBacklog
  channel_backlog = Stats.channel_backlog dialect server

  abbrev pub prune_stats : ℤ → Action World ℕ
  prune_stats = Stats.prune_stats dialect server

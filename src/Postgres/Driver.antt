-- ===== src/Postgres/Driver.antt =====
-- The PostgreSQL driver as an implementation of the store interface.
use novaque.Prelude.{String, Bool, str_eq}
use novaque.Store.Interface.{Store}
use novaque.Sqlite.Schema.{StatsRow}
use novaque.Sqlite.Engine.{World}
use novaque.Server.Engine.{Server, Dialect}
use novaque.Postgres.Names
use novaque.Server.Publish
use novaque.Postgres.Claim
use novaque.Server.Finish
use novaque.Postgres.Maintenance
use novaque.Server.Stats
use novaque.Server.Admin.Listings
use novaque.Server.Admin.Dead
use novaque.Server.Admin.Cascade

-- Two settings per transaction; texts are equal if they are the same. The order of names is that of the
-- database's collation.
abbrev pub postgres : (String → String → Bool) → (StatsRow → StatsRow → Bool) → Dialect
postgres name_leb scan_order = record {
  timeouts = 2;
  same_text = str_eq;
  name_leb = name_leb;
  scan_order = scan_order;
}

abbrev pub postgres_store : Dialect → Server → Store World
postgres_store dialect server = record {
  ensure_topic = Names.ensure_topic server;
  ensure_channel = Names.ensure_channel server;
  publish = Publish.publish dialect server;
  claim = Claim.claim dialect server;
  ack = Finish.ack dialect server;
  requeue = Finish.requeue dialect server;
  reap_expired_leases = Maintenance.reap_expired_leases server;
  purge_expired = Maintenance.purge_expired server;
  channel_counters = Stats.channel_counters dialect server;
  topic_counters = Stats.topic_counters dialect server;
  channel_backlog = Stats.channel_backlog dialect server;
  prune_stats = Stats.prune_stats dialect server;
  flush_stats = Stats.flush_stats dialect server;
  list_topics = Listings.list_topics dialect server;
  list_channels = Listings.list_channels dialect server;
  backlogs = Listings.backlogs dialect server;
  backlogs_for_topic = Listings.backlogs_for_topic dialect server;
  topic_daily_counters = Listings.topic_daily_counters dialect server;
  channel_daily_counters = Listings.channel_daily_counters dialect server;
  cluster_daily_counters = Listings.cluster_daily_counters dialect server;
  list_dead = Dead.list_dead dialect server;
  requeue_dead = Dead.requeue_dead dialect server;
  delete_dead = Dead.delete_dead dialect server;
  delete_topic = Cascade.delete_topic dialect server;
  delete_channel = Cascade.delete_channel dialect server;
}

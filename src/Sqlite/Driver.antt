-- ===== src/Sqlite/Driver.antt =====
-- The SQLite driver as an implementation of the store interface.
use novaque.Store.Interface.{Store}
use novaque.Sqlite.Engine.{Env, World}
use novaque.Sqlite.Names
use novaque.Sqlite.Publish
use novaque.Sqlite.Claim
use novaque.Sqlite.Finish
use novaque.Sqlite.Maintenance
use novaque.Sqlite.Stats
use novaque.Sqlite.Flush
use novaque.Sqlite.Admin.Listings
use novaque.Sqlite.Admin.Daily
use novaque.Sqlite.Admin.Dead
use novaque.Sqlite.Admin.Cascade

abbrev pub sqlite_store : Env → Store World
sqlite_store env = record {
  ensure_topic = Names.ensure_topic env;
  ensure_channel = Names.ensure_channel env;
  publish = Publish.publish env;
  claim = Claim.claim env;
  ack = Finish.ack env;
  requeue = Finish.requeue env;
  reap_expired_leases = Maintenance.reap_expired_leases env;
  purge_expired = Maintenance.purge_expired env;
  channel_counters = Stats.channel_counters env;
  topic_counters = Stats.topic_counters env;
  channel_backlog = Stats.channel_backlog env;
  prune_stats = Stats.prune_stats env;
  flush_stats = Flush.flush_stats env;
  list_topics = Listings.list_topics env;
  list_channels = Listings.list_channels env;
  backlogs = Listings.backlogs env;
  backlogs_for_topic = Listings.backlogs_for_topic env;
  topic_daily_counters = Daily.topic_daily_counters env;
  channel_daily_counters = Daily.channel_daily_counters env;
  cluster_daily_counters = Daily.cluster_daily_counters env;
  list_dead = Dead.list_dead env;
  requeue_dead = Dead.requeue_dead env;
  delete_dead = Dead.delete_dead env;
  delete_topic = Cascade.delete_topic env;
  delete_channel = Cascade.delete_channel env;
}

-- ===== src/Mysql/Driver.antt =====
-- The MySQL driver as an implementation of the store interface.
use novaque.Prelude.{String, Bool}
use novaque.Store.Interface.{Store}
use novaque.Sqlite.Schema.{StatsRow}
use novaque.Sqlite.Engine.{World}
use novaque.Server.Engine.{Server, Dialect}
use novaque.Mysql.Names
use novaque.Mysql.Publish
use novaque.Mysql.Claim
use novaque.Mysql.Maintenance
use novaque.Mysql.Stats
use novaque.Mysql.Admin

-- No settings; equality and order of texts are those of the collation.
abbrev pub mysql :
    (String → String → Bool) → (String → String → Bool) → (StatsRow → StatsRow → Bool) → Dialect
mysql same_text name_leb scan_order = record {
  timeouts = 0;
  same_text = same_text;
  name_leb = name_leb;
  scan_order = scan_order;
}

abbrev pub mysql_store : Dialect → Server → Store World
mysql_store dialect server = record {
  ensure_topic = Names.ensure_topic dialect server;
  ensure_channel = Names.ensure_channel dialect server;
  publish = Publish.publish dialect server;
  claim = Claim.claim dialect server;
  ack = Claim.ack dialect server;
  requeue = Claim.requeue dialect server;
  reap_expired_leases = Maintenance.reap_expired_leases server;
  purge_expired = Maintenance.purge_expired server;
  channel_counters = Stats.channel_counters dialect server;
  topic_counters = Stats.topic_counters dialect server;
  channel_backlog = Stats.channel_backlog dialect server;
  prune_stats = Stats.prune_stats dialect server;
  flush_stats = Stats.flush_stats dialect server;
  list_topics = Admin.list_topics dialect server;
  list_channels = Admin.list_channels dialect server;
  backlogs = Admin.backlogs dialect server;
  backlogs_for_topic = Admin.backlogs_for_topic dialect server;
  topic_daily_counters = Admin.topic_daily_counters dialect server;
  channel_daily_counters = Admin.channel_daily_counters dialect server;
  cluster_daily_counters = Admin.cluster_daily_counters dialect server;
  list_dead = Admin.list_dead dialect server;
  requeue_dead = Admin.requeue_dead dialect server;
  delete_dead = Admin.delete_dead dialect server;
  delete_topic = Admin.delete_topic dialect server;
  delete_channel = Admin.delete_channel dialect server;
}

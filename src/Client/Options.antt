-- ===== src/Client/Options.antt =====
-- client.go, Options: zero and negative fields fall back to defaults. The logger is not modelled.
use novaque.Prelude.{ℕ, ◌*◌}
use novaque.Prelude.Int.{ℤ, pos, positive_or}
use novaque.Store.Delay.{second}

-- Durations are nanoseconds.
pub record Options : Type 0 where
  pub default_ttl : ℤ
  pub default_lease : ℤ
  pub default_max_attempts : ℤ
  pub poll_interval : ℤ
  pub max_in_flight : ℤ
  pub reap_interval : ℤ
  pub purge_interval : ℤ
  pub maintenance_batch : ℤ
  pub stats_retention_days : ℤ
  pub stats_flush_interval : ℤ
  pub stats_prune_interval : ℤ

abbrev or_default : ℕ → ℤ → ℤ
or_default d v = pos (positive_or d v)

pub with_defaults : Options → Options
with_defaults o = record {
  default_ttl = or_default (7 * 24 * 3600 * second) o.default_ttl;
  default_lease = or_default (30 * second) o.default_lease;
  default_max_attempts = or_default 5 o.default_max_attempts;
  poll_interval = or_default 200_000_000 o.poll_interval;
  max_in_flight = or_default 1 o.max_in_flight;
  reap_interval = or_default second o.reap_interval;
  purge_interval = or_default (5 * second) o.purge_interval;
  maintenance_batch = or_default 100 o.maintenance_batch;
  stats_retention_days = or_default 30 o.stats_retention_days;
  stats_flush_interval = or_default (2 * second) o.stats_flush_interval;
  stats_prune_interval = or_default (3600 * second) o.stats_prune_interval;
}

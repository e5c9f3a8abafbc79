-- ===== src/Sqlite/Admin/Daily.antt =====
-- driver/sqlite/admin.go: day-bucket counters over the trailing window of UTC days.
use novaque.Prelude.{
  ℕ, ◌+◌, Bool, true, ◌&&◌, none, some, List, [], ◌∷◌, map, ltb, ◌==◌, if◌then◌else◌,
}
use novaque.Prelude.Int.{ℤ, positive?}
use novaque.Prelude.Lists.{select}
use novaque.Store.Errors.{ok, invalid_id, invalid_days}
use novaque.Store.Types.{DailyCounters, ChannelCounters}
use novaque.Action.{Action, fail}
use novaque.Sqlite.Schema.{StatsRow}
use novaque.Sqlite.Engine.{Env, World, Stmt, today, autocommit}
use novaque.Sqlite.Stats.{add_counters}

abbrev pub daily_row : ℕ → ChannelCounters → DailyCounters
daily_row day c = record {
  day = day;
  publish = c.publish;
  claim = c.claim;
  ack = c.ack;
  requeue = c.requeue;
  dead = c.dead;
  purge = c.purge;
}

-- `day_utc > date('now', '-N days')`
abbrev pub in_window : ℕ → ℕ → StatsRow → Bool
in_window days day r = ltb day (r.day_utc + days)

-- One row more in the ascending list of days: GROUP BY day_utc, ORDER BY day_utc ASC.
pub add_day : ℕ → ChannelCounters → List (ℕ × ChannelCounters) → List (ℕ × ChannelCounters)
unfolding add_counters
add_day day c [] = (day, c) ∷ []
add_day day c ((e, v) ∷ rest) =
    if day == e
    then (e, add_counters c v) ∷ rest
    else if ltb day e
    then (day, c) ∷ (e, v) ∷ rest
    else (e, v) ∷ add_day day c rest

pub group_days : List StatsRow → List (ℕ × ChannelCounters)
unfolding add_day
group_days [] = []
group_days (r ∷ rs) = add_day r.day_utc r.counts (group_days rs)

pub select_daily : (StatsRow → Bool) → ℕ → Stmt (List DailyCounters)
unfolding group_days
select_daily p days t db = (
  ok (
      map (λ g. daily_row g.0 g.1)
        (group_days (select (λ r. p r && in_window days (today t) r) db.stats))),
  db,
)

module _ (env : Env) where
  abbrev daily : (StatsRow → Bool) → ℤ → Action World (List DailyCounters)
  daily p days = elim (positive? days) [
    | none ↦ fail invalid_days
    | some n ↦ autocommit env (select_daily p n)
  ]

  pub topic_daily_counters : ℤ → ℤ → Action World (List DailyCounters)
  unfolding select_daily
  topic_daily_counters topic days = elim (positive? topic) [
    | none ↦ fail invalid_id
    | some i ↦ daily (λ r. r.topic_id == i) days
  ]

  pub channel_daily_counters : ℤ → ℤ → Action World (List DailyCounters)
  unfolding select_daily
  channel_daily_counters channel days = elim (positive? channel) [
    | none ↦ fail invalid_id
    | some c ↦ daily (λ r. r.channel_id == c) days
  ]

  pub cluster_daily_counters : ℤ → Action World (List DailyCounters)
  unfolding select_daily
  cluster_daily_counters days = daily (λ r. true) days

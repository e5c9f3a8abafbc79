-- ===== src/Server/Stats.antt =====
-- driver/postgres/stats.go, and driver/mysql/stats.go: the counter buffer drains with no test for
-- deleted topics, and the prune takes its batches in the order of the engine.
pub mod Valid
pub mod Prune
mod Examples
use novaque.Prelude.{ℕ, zero, suc, ◌+◌, Bool, not, none, some, List, [], ltb, ◌==◌, if◌then◌else◌}
use novaque.Prelude.Int.{ℤ, positive?}
use novaque.Prelude.Lists.{length, take, is_empty, select, exists, sort_by}
use novaque.Store.Errors.{ok, invalid_id, invalid_days, engine, other}
use novaque.Store.Types.{ChannelCounters, ChannelBacklog}
use novaque.Action.{Action, pure, fail, gets, update, ◌>>=◌, ◌>>◌}
use novaque.Sqlite.Schema.{StatsRow}
use novaque.Sqlite.Engine.{World, Stmt, today, autocommit}
use novaque.Sqlite.Sink.{Sink}
use novaque.Sqlite.Stats.{select_sum, select_backlog, stats_prune_batch, stale, same_bucket}
use novaque.Sqlite.Flush.{coalesce, coord_leb, flush_batches}
use novaque.Server.Engine.{Server, Dialect}

-- The DELETE of at most 500 stale rows; the number of rows affected comes back.
pub prune_batch : (StatsRow → StatsRow → Bool) → ℕ → Stmt ℕ
prune_batch order retention t db =
    let batch =
      take stats_prune_batch (sort_by order (select (stale retention (today t)) db.stats)) in
    let doomed = λ (r : StatsRow). exists (same_bucket r) batch in
    (
      ok (length (select doomed db.stats)),
      record db { stats = select (λ r. not (doomed r)) db.stats },
    )

module _ (dialect : Dialect) (server : Server) where
  pub drain : Sink → Action World (Unit {0})
  drain pending = do
    update (λ w. record w { stat_buf = [] })
    let order = sort_by coord_leb (coalesce pending)
    flush_batches server.env (length order) pending order

  pub flush_stats : Action World (Unit {0})
  unfolding drain
  flush_stats = do
    pending ← gets (λ w. w.stat_buf)
    if is_empty pending then pure tt else drain pending

  pub channel_counters : ℤ → Action World ChannelCounters
  channel_counters channel = elim (positive? channel) [
    | none ↦ fail invalid_id
    | some c ↦ autocommit server.env (select_sum (λ r. r.channel_id == c))
  ]

  pub topic_counters : ℤ → Action World ChannelCounters
  topic_counters topic = elim (positive? topic) [
    | none ↦ fail invalid_id
    | some i ↦ autocommit server.env (select_sum (λ r. r.topic_id == i))
  ]

  pub channel_backlog : ℤ → Action World ChannelBacklog
  channel_backlog channel = elim (positive? channel) [
    | none ↦ fail invalid_id
    | some c ↦ autocommit server.env (select_backlog c)
  ]

  -- The rounds are fuel: with none left the model fails.
  pub prune_loop : ℕ → ℕ → ℕ → Action World ℕ
  unfolding prune_batch
  prune_loop zero retention total = fail (engine other)
  prune_loop (suc rounds) retention total = do
    n ← autocommit server.env (prune_batch dialect.scan_order retention)
    if ltb n stats_prune_batch then pure (total + n) else prune_loop rounds retention (total + n)

  -- A round that goes on has deleted 500 rows, so the number of rows bounds the rounds.
  pub prune_stats : ℤ → Action World ℕ
  unfolding prune_loop
  prune_stats retention w = elim (positive? retention) [
    | none ↦ fail invalid_days w
    | some days ↦ prune_loop (suc (length w.db.stats)) days 0 w
  ]

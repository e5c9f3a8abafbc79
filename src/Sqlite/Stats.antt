-- ===== src/Sqlite/Stats.antt =====
-- driver/sqlite/stats.go, the reads and the prune: day buckets, live backlog, retention.
pub mod Valid
pub mod Backlog
pub mod Prune
pub mod Examples
use novaque.Prelude.{
  ℕ, zero, suc, ◌+◌, Bool, ◌&&◌, ◌||◌, not, Option, none, some, List, [], ◌∷◌, map, ltb, leb, ◌==◌,
  if◌then◌else◌,
}
use novaque.Prelude.Int.{ℤ, positive?}
use novaque.Prelude.Lists.{length, take, select, count, exists, sort_by}
use novaque.Store.Errors.{Result, ok, err, invalid_id, invalid_days, engine, other}
use novaque.Store.Types.{ChannelCounters, ChannelBacklog}
use novaque.Action.{Action, pure, fail, ◌>>=◌, ◌>>◌}
use novaque.Sqlite.Schema.{Db, DeliveryRow, StatsRow, is_pending, is_in_flight, is_dead}
use novaque.Sqlite.Engine.{
  Env, World, Stmt, StatKind, stat_publish, stat_claim, stat_ack, stat_requeue, stat_dead,
  stat_purged, today, autocommit,
}
use novaque.Sqlite.Claim.{due}

abbrev pub no_counters : ChannelCounters
no_counters = record { publish = 0; claim = 0; ack = 0; requeue = 0; dead = 0; purge = 0 }

unfoldable pub add_counters : ChannelCounters → ChannelCounters → ChannelCounters
add_counters a b = record {
  publish = a.publish + b.publish;
  claim = a.claim + b.claim;
  ack = a.ack + b.ack;
  requeue = a.requeue + b.requeue;
  dead = a.dead + b.dead;
  purge = a.purge + b.purge;
}

-- The column of a kind.
unfoldable pub column : StatKind → ChannelCounters → ℕ
column stat_publish c = c.publish
column stat_claim c = c.claim
column stat_ack c = c.ack
column stat_requeue c = c.requeue
column stat_dead c = c.dead
column stat_purged c = c.purge

-- SELECT SUM of each column over the rows that pass the test.
unfoldable pub sum_counters : (StatsRow → Bool) → List StatsRow → ChannelCounters
unfolding add_counters
sum_counters p [] = no_counters
sum_counters p (r ∷ rs) =
    if p r then add_counters r.counts (sum_counters p rs) else sum_counters p rs

pub select_sum : (StatsRow → Bool) → Stmt ChannelCounters
unfolding sum_counters
select_sum p t db = (ok (sum_counters p db.stats), db)

-- The one select list of the backlog reads: ready is the claimable part of pending.
unfoldable pub backlog_of : ℕ → List DeliveryRow → ChannelBacklog
backlog_of now ds = record {
  pending = count (λ d. is_pending d.status) ds;
  ready = count (due now) ds;
  in_flight = count (λ d. is_in_flight d.status) ds;
  dead = count (λ d. is_dead d.status) ds;
}

pub select_backlog : ℕ → Stmt ChannelBacklog
unfolding backlog_of
select_backlog channel t db =
    (ok (backlog_of t.now (select (λ d. d.channel_id == channel) db.deliveries)), db)

abbrev pub stats_prune_batch : ℕ
stats_prune_batch = 500

-- `day_utc < date('now', '-N days')`
abbrev pub stale : ℕ → ℕ → StatsRow → Bool
stale retention day r = ltb (r.day_utc + retention) day

abbrev pub same_bucket : StatsRow → StatsRow → Bool
same_bucket a b = a.day_utc == b.day_utc && a.topic_id == b.topic_id && a.channel_id == b.channel_id

-- ORDER BY day_utc, topic_id, channel_id
abbrev pub bucket_earlier : StatsRow → StatsRow → Bool
bucket_earlier a b =
    ltb a.day_utc b.day_utc
    || a.day_utc == b.day_utc
      && (ltb a.topic_id b.topic_id || a.topic_id == b.topic_id && leb a.channel_id b.channel_id)

-- One bounded DELETE over the primary key; the number of rows affected comes back.
pub prune_batch : ℕ → Stmt ℕ
prune_batch retention t db =
    let batch =
      take stats_prune_batch
        (sort_by bucket_earlier (select (stale retention (today t)) db.stats)) in
    let doomed = λ (r : StatsRow). exists (same_bucket r) batch in
    (
      ok (length (select doomed db.stats)),
      record db { stats = select (λ r. not (doomed r)) db.stats },
    )

module _ (env : Env) where
  pub channel_counters : ℤ → Action World ChannelCounters
  unfolding select_sum
  channel_counters channel = elim (positive? channel) [
    | none ↦ fail invalid_id
    | some c ↦ autocommit env (select_sum (λ r. r.channel_id == c))
  ]

  pub topic_counters : ℤ → Action World ChannelCounters
  unfolding select_sum
  topic_counters topic = elim (positive? topic) [
    | none ↦ fail invalid_id
    | some i ↦ autocommit env (select_sum (λ r. r.topic_id == i))
  ]

  pub channel_backlog : ℤ → Action World ChannelBacklog
  unfolding select_backlog
  channel_backlog channel = elim (positive? channel) [
    | none ↦ fail invalid_id
    | some c ↦ autocommit env (select_backlog c)
  ]

  -- The rounds are fuel: with none left the model fails.
  pub prune_loop : ℕ → ℕ → ℕ → Action World ℕ
  unfolding prune_batch
  prune_loop zero retention total = fail (engine other)
  prune_loop (suc rounds) retention total = do
    n ← autocommit env (prune_batch retention)
    if ltb n stats_prune_batch then pure (total + n) else prune_loop rounds retention (total + n)

  -- A round that goes on has deleted 500 rows, so the number of rows bounds the rounds.
  pub prune_stats : ℤ → Action World ℕ
  unfolding prune_loop
  prune_stats retention w = elim (positive? retention) [
    | none ↦ fail invalid_days w
    | some days ↦ prune_loop (suc (length w.db.stats)) days 0 w
  ]

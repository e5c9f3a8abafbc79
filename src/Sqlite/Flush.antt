-- ===== src/Sqlite/Flush.antt =====
-- driver/sqlite/stats.go, FlushStats: the counter buffer drains into the day buckets in batches.
pub mod Valid
use novaque.Prelude.{
  ℕ, zero, suc, ◌+◌, Bool, true, false, ◌&&◌, ◌||◌, not, Option, none, some, List, [], ◌∷◌, ◌++◌,
  map, ltb, leb, ◌==◌, if◌then◌else◌,
}
use novaque.Prelude.Lists.{length, take, drop, is_empty, select, exists, sort_by}
use novaque.Store.Errors.{Error, Result, ok, err}
use novaque.Store.Types.{ChannelCounters}
use novaque.Action.{Action, pure, fail, gets, attempt, update, ◌>>=◌, ◌>>◌}
use novaque.Sqlite.Schema.{Db, StatsRow}
use novaque.Sqlite.Engine.{
  Env, World, Stmt, StatKind, stat_publish, stat_claim, stat_ack, stat_requeue, stat_dead,
  stat_purged, StatCoord, StatKey, today, autocommit,
}
use novaque.Sqlite.Sink.{Sink, coord_eq, recorded}
use novaque.Sqlite.Stats.{no_counters, add_counters}

abbrev pub stats_flush_batch : ℕ
stats_flush_batch = 500

-- A delta as a row of counters that is zero elsewhere.
unfoldable pub only : StatKind → ℕ → ChannelCounters
only stat_publish n = record no_counters { publish = n }
only stat_claim n = record no_counters { claim = n }
only stat_ack n = record no_counters { ack = n }
only stat_requeue n = record no_counters { requeue = n }
only stat_dead n = record no_counters { dead = n }
only stat_purged n = record no_counters { purge = n }

abbrev pub CountRow : Type 0
CountRow = StatCoord × ChannelCounters

-- `counts[coord][kind] += n`
pub add_count : StatKey → ℕ → List CountRow → List CountRow
unfolding only add_counters
add_count key n [] = (key.coord, only key.kind n) ∷ []
add_count key n ((c, v) ∷ rest) =
    if coord_eq c key.coord
    then (c, add_counters v (only key.kind n)) ∷ rest
    else (c, v) ∷ add_count key n rest

pub coalesce : Sink → List CountRow
unfolding add_count
coalesce [] = []
coalesce ((k, n) ∷ rest) = add_count k n (coalesce rest)

-- By topic, then channel.
abbrev pub coord_leb : CountRow → CountRow → Bool
coord_leb a b =
    ltb a.0.topic_id b.0.topic_id
    || a.0.topic_id == b.0.topic_id && leb a.0.channel_id b.0.channel_id

-- A coordinate is live if its channel is there under its topic; channel 0 needs only the topic.
pub is_live : Db → StatCoord → Bool
is_live db c =
    if c.channel_id == 0
    then exists (λ r. r.id == c.topic_id) db.topics
    else exists (λ r. r.topic_id == c.topic_id && r.id == c.channel_id) db.channels

-- One page of the existence read.
pub select_live : List CountRow → Stmt (List StatCoord)
unfolding is_live
select_live page t db = (ok (select (is_live db) (map (λ r. r.0) page)), db)

-- INSERT ... ON CONFLICT(day_utc, topic_id, channel_id) DO UPDATE of one row.
pub upsert : ℕ → CountRow → List StatsRow → List StatsRow
unfolding add_counters
upsert day (c, v) [] =
    record { day_utc = day; topic_id = c.topic_id; channel_id = c.channel_id; counts = v } ∷ []
upsert day (c, v) (r ∷ rs) =
    if r.day_utc == day && r.topic_id == c.topic_id && r.channel_id == c.channel_id
    then record r { counts = add_counters r.counts v } ∷ rs
    else r ∷ upsert day (c, v) rs

pub upsert_all : ℕ → List CountRow → List StatsRow → List StatsRow
unfolding upsert
upsert_all day [] stats = stats
upsert_all day (r ∷ rs) stats = upsert_all day rs (upsert day r stats)

pub upsert_batch : List CountRow → Stmt (Unit {0})
unfolding upsert_all
upsert_batch rows t db = (ok tt, record db { stats = upsert_all (today t) rows db.stats })

-- Deltas that did not land go back into the buffer.
pub merge_back : Sink → Sink → Sink
unfolding recorded
merge_back [] buf = buf
merge_back ((k, n) ∷ rest) buf = merge_back rest (recorded k.topic_id k.channel_id k.kind n buf)

pub refuse : Sink → Error → Action World (Unit {0})
unfolding merge_back
refuse pending e = do update (λ w. record w { stat_buf = merge_back pending w.stat_buf }); fail e

-- The pending deltas of the rows that have not landed.
pub remaining : List CountRow → Sink → Sink
remaining rows = select (λ e. exists (λ r. coord_eq r.0 e.0.coord) rows)

module _ (env : Env) where
  -- Page by page; the pages are fuel.
  pub live_coords : ℕ → List CountRow → Action World (List StatCoord)
  unfolding select_live
  live_coords zero rows = pure []
  live_coords (suc pages) rows = if is_empty rows then pure [] else do
    page ← autocommit env (select_live (take stats_flush_batch rows))
    rest ← live_coords pages (drop stats_flush_batch rows)
    pure (page ++ rest)

  settle_batch :
      Sink → List CountRow → Result (Unit {0}) → Action World (Unit {0}) → Action World (Unit {0})
  unfolding refuse remaining
  settle_batch pending rows (ok _) next = next
  settle_batch pending rows (err e) next = refuse (remaining rows pending) e

  -- The batches are fuel.
  pub flush_batches : ℕ → Sink → List CountRow → Action World (Unit {0})
  unfolding upsert_batch settle_batch
  flush_batches zero pending rows = pure tt
  flush_batches (suc batches) pending rows = if is_empty rows then pure tt else do
    r ← attempt (autocommit env (upsert_batch (take stats_flush_batch rows)))
    settle_batch pending rows r (flush_batches batches pending (drop stats_flush_batch rows))

  settle_live : Sink → List CountRow → Result (List StatCoord) → Action World (Unit {0})
  unfolding flush_batches refuse
  settle_live pending order (err e) = refuse pending e
  settle_live pending order (ok live) =
      let kept = select (λ r. exists (coord_eq r.0) live) order in
      flush_batches (length kept) pending kept

  pub drain : Sink → Action World (Unit {0})
  unfolding coalesce live_coords settle_live
  drain pending = do
    update (λ w. record w { stat_buf = [] })
    let order = sort_by coord_leb (coalesce pending)
    r ← attempt (live_coords (length order) order)
    settle_live pending order r

  pub flush_stats : Action World (Unit {0})
  unfolding drain
  flush_stats = do
    pending ← gets (λ w. w.stat_buf)
    if is_empty pending then pure tt else drain pending

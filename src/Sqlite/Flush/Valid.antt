-- ===== src/Sqlite/Flush/Valid.antt =====
-- FlushStats keeps the database well-formed.
use novaque.Sqlite.Lifecycle.{Tracing}
use novaque.Prelude.{ℕ, zero, suc, List, []}
use novaque.Store.Errors.{Error, Result, ok, err}
use novaque.Action.{Action}
use novaque.Sqlite.Engine.{Env, World, StatCoord}
use novaque.Sqlite.Engine.Rules.{Safe}
use novaque.Sqlite.Sink.{Sink}
use novaque.Sqlite.Sink.Valid.{IsLawful-buffer}
use novaque.Sqlite.Invariant.{IsValid-stats}
use novaque.Sqlite.Evolution.{
  Evolves, Evolves-still, OthersEvolve, IsLawful, IsLawful-bind, IsLawful-autocommit, Safe-read,
  lawful_rules,
}
use novaque.Prelude.{refl}
use novaque.Sqlite.Flush.{
  CountRow, select_live, upsert_batch, merge_back, refuse, remaining, live_coords, settle_batch,
  flush_batches, settle_live, drain, flush_stats,
}

module _ {traced : Tracing} where
  pub select_live-Safe : (page : List CountRow) → Safe (Evolves traced) (select_live page)
  unfolding select_live
  select_live-Safe page = Safe-read _ (λ t db. refl)

  pub upsert_batch-Safe : (rows : List CountRow) → Safe (Evolves traced) (upsert_batch rows)
  unfolding upsert_batch
  upsert_batch-Safe rows = record {
    step = λ t db. Evolves-still db _ (IsValid-stats _ db) refl refl;
  }

  pub refuse-IsLawful : (pending : Sink) (e : Error) → IsLawful traced (refuse pending e)
  unfolding refuse
  refuse-IsLawful pending e =
      IsLawful-bind _ _ (IsLawful-buffer (merge_back pending)) (λ _. search lawful_rules)

  module _ (env : Env) (quiet : OthersEvolve traced env) where
    live_coords-IsLawful :
        (pages : ℕ) (rows : List CountRow) → IsLawful traced (live_coords env pages rows)
    unfolding live_coords
    live_coords-IsLawful zero rows = search lawful_rules
    live_coords-IsLawful (suc pages) rows =
        let again = live_coords-IsLawful pages in
        search (lawful_rules, IsLawful-autocommit env quiet, select_live-Safe, again) depth 10

    settle_batch-IsLawful :
        (pending : Sink) (rows : List CountRow) (r : Result (Unit {0}))
        (next : Action World (Unit {0}))
        → IsLawful traced next
        → IsLawful traced (settle_batch env pending rows r next)
    unfolding settle_batch
    settle_batch-IsLawful pending rows (ok _) next k = k
    settle_batch-IsLawful pending rows (err e) next k = refuse-IsLawful (remaining rows pending) e

    pub flush_batches-IsLawful :
        (batches : ℕ) (pending : Sink) (rows : List CountRow)
        → IsLawful traced (flush_batches env batches pending rows)
    unfolding flush_batches
    flush_batches-IsLawful zero pending rows = search lawful_rules
    flush_batches-IsLawful (suc batches) pending rows =
        let again = flush_batches-IsLawful batches in
        search
          (
            lawful_rules,
            IsLawful-autocommit env quiet,
            upsert_batch-Safe,
            settle_batch-IsLawful,
            again,
          )
          depth 10

    settle_live-IsLawful :
        (pending : Sink) (order : List CountRow) (r : Result (List StatCoord))
        → IsLawful traced (settle_live env pending order r)
    unfolding settle_live
    settle_live-IsLawful pending order (ok live) = flush_batches-IsLawful _ pending _
    settle_live-IsLawful pending order (err e) = refuse-IsLawful pending e

    drain-IsLawful : (pending : Sink) → IsLawful traced (drain env pending)
    unfolding drain
    drain-IsLawful pending =
        IsLawful-bind _ _ (IsLawful-buffer (λ _. []))
          (λ _. search (lawful_rules, live_coords-IsLawful, settle_live-IsLawful) depth 10)

    pub flush_stats-IsLawful : IsLawful traced (flush_stats env)
    unfolding flush_stats
    flush_stats-IsLawful = search (lawful_rules, drain-IsLawful)

-- ===== src/Sqlite/Stats/Prune.antt =====
-- PruneStats ends, and counts what it deleted.
use novaque.Prelude.{
  ℕ, zero, suc, ◌+◌, ◌<◌, ◌≡◌, refl, ap, ◌∙◌, inl, inr, Bool, not, none, List, [], ◌∷◌, ltb,
  if◌then◌else◌, arith, Bool-cases,
}
use novaque.Prelude.Int.{pos}
use novaque.Prelude.Lists.{length, take, select, exists, sort_by}
use novaque.Store.Errors.{Result, ok}
use novaque.Action.{Action, pure, ◌>>=◌, >>=-ok}
use novaque.Sqlite.Schema.{Db, StatsRow}
use novaque.Sqlite.Engine.{Env, World, today, tick_at, autocommit}
use novaque.Sqlite.Engine.Rules.{autocommit-up}
use novaque.Sqlite.Stats.{
  stats_prune_batch, prune_batch, stale, same_bucket, bucket_earlier, prune_loop, prune_stats,
}

length-select_split :
    (p : StatsRow → Bool) (rs : List StatsRow)
    → length (select p rs) + length (select (λ r. not (p r)) rs) ≡ length rs
length-select_split p [] = omega arith
length-select_split p (r ∷ rs) = ground (arith, length-select_split p rs)

-- What a call that deleted rows reports: a number that accounts for the rows that are missing.
pub record Accounts (before total : ℕ) (r : Result ℕ × World) : Type 0 where
  pub deleted : ℕ
  pub reported : r.0 ≡ ok deleted
  pub balance : deleted + length r.1.db.stats ≡ total + before

-- A loop of batches, each of which accounts for its rows.
module _ (batch : Action World ℕ) (batched : (w : World) → Accounts (length w.db.stats) 0 (batch w))
    (loop : ℕ → ℕ → Action World ℕ) where
  abbrev pub next_round : ℕ → ℕ → ℕ → Action World ℕ
  next_round rounds total n =
      if ltb n stats_prune_batch then pure (total + n) else loop rounds (total + n)

  pub loop-Accounts :
      (again : (rounds total : ℕ) (w : World)
        → loop (suc rounds) total w ≡ (batch >>= next_round rounds total) w)
      (rounds total : ℕ) (w : World)
      → length w.db.stats < rounds
      → Accounts (length w.db.stats) total (loop rounds total w)
  unfolding pure
  loop-Accounts again zero total w h = absurd (omega arith)
  loop-Accounts again (suc rounds) total w h =
      let b = batched w in
      let w' = (batch w).1 in
      let step =
        again rounds total w
        ∙ >>=-ok batch (next_round rounds total) w w' b.deleted
            (ap (λ (r : Result ℕ). (r, w')) b.reported) in
      elim (Bool-cases (ltb b.deleted stats_prune_batch)) [
        | inl e ↦
            rw (step, e)
              (record {
                deleted = total + b.deleted;
                reported = refl;
                balance = omega (arith, b.balance);
              })
        | inr e ↦
            let rest =
              loop-Accounts again rounds (total + b.deleted) w' (ground (arith, b.balance)) in
            rw (step, e)
              (record {
                deleted = rest.deleted;
                reported = rest.reported;
                balance = omega (arith, b.balance, rest.balance);
              })
      ]

-- What a batch deletes and what it keeps make up the table.
pub batch-balance :
    (order : StatsRow → StatsRow → Bool) (retention now : ℕ) (rs : List StatsRow)
    → let batch = take stats_prune_batch (sort_by order (select (stale retention now) rs)) in
      let doomed = λ (r : StatsRow). exists (same_bucket r) batch in
      length (select doomed rs) + length (select (λ r. not (doomed r)) rs) ≡ length rs
batch-balance order retention now rs =
    let batch = take stats_prune_batch (sort_by order (select (stale retention now) rs)) in
    length-select_split (λ r. exists (same_bucket r) batch) rs

module _ (env : Env) (ups : (n : ℕ) → env.fault n ≡ none)
    (alone : (n : ℕ) (db : Db) → env.others n db ≡ db) where
  -- One batch accounts for its rows.
  batch-Accounts :
      (retention : ℕ) (w : World)
      → Accounts (length w.db.stats) 0 (autocommit env (prune_batch retention) w)
  unfolding prune_batch
  batch-Accounts retention w =
      rw (autocommit-up env (prune_batch retention) w (ups w.calls), alone w.calls w.db)
        (record {
          deleted = _;
          reported = refl;
          balance = omega (
            arith,
            batch-balance bucket_earlier retention (today (tick_at env w.calls)) w.db.stats,
          );
        })

  -- While the engine works and other processes stay away, a prune with a positive retention ends
  -- without an error, and the number that it returns is the number of rows that are gone.
  pub prune_stats-Accounts :
      (days : ℕ) (w : World) → Accounts (length w.db.stats) 0 (prune_stats env (pos (suc days)) w)
  unfolding prune_stats prune_loop
  prune_stats-Accounts days w =
      loop-Accounts (autocommit env (prune_batch (suc days))) (batch-Accounts (suc days))
        (λ rounds total. prune_loop env rounds (suc days) total) (λ rounds total w. refl)
        (suc (length w.db.stats)) 0 w (omega arith)

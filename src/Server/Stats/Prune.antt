-- ===== src/Server/Stats/Prune.antt =====
-- PruneStats of the two server drivers ends, and counts what it deleted.
use novaque.Prelude.{ℕ, suc, ◌≡◌, refl, none, arith}
use novaque.Prelude.Int.{pos}
use novaque.Prelude.Lists.{length}
use novaque.Sqlite.Schema.{Db}
use novaque.Sqlite.Engine.{World, today, tick_at, autocommit}
use novaque.Sqlite.Engine.Rules.{autocommit-up}
use novaque.Sqlite.Stats.Prune.{Accounts, loop-Accounts, batch-balance}
use novaque.Server.Engine.{Server, Dialect}
use novaque.Server.Stats.{prune_batch, prune_loop, prune_stats}

module _ (dialect : Dialect) (server : Server) (ups : (n : ℕ) → server.env.fault n ≡ none)
    (alone : (n : ℕ) (db : Db) → server.env.others n db ≡ db) where
  batch-Accounts_server :
      (retention : ℕ) (w : World)
      → Accounts
          (length w.db.stats)
          0
          (autocommit server.env (prune_batch dialect.scan_order retention) w)
  unfolding prune_batch
  batch-Accounts_server retention w =
      let batch = prune_batch dialect.scan_order retention in
      rw (autocommit-up server.env batch w (ups w.calls), alone w.calls w.db)
        (record {
          deleted = _;
          reported = refl;
          balance = omega (
            arith,
            batch-balance dialect.scan_order retention (today (tick_at server.env w.calls))
                w.db.stats,
          );
        })

  -- On PostgreSQL and MySQL, while the engine works and other processes stay away, a prune with a
  -- positive retention ends without an error, and the number that it returns is the number of rows
  -- that are gone, whichever stale rows the engine takes first.
  pub prune_stats-Accounts_server :
      (days : ℕ) (w : World)
      → Accounts (length w.db.stats) 0 (prune_stats dialect server (pos (suc days)) w)
  unfolding prune_stats prune_loop
  prune_stats-Accounts_server days w =
      loop-Accounts (autocommit server.env (prune_batch dialect.scan_order (suc days)))
        (batch-Accounts_server (suc days))
        (λ rounds total. prune_loop dialect server rounds (suc days) total) (λ rounds total w. refl)
        (suc (length w.db.stats)) 0 w (omega arith)

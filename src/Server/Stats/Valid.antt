-- ===== src/Server/Stats/Valid.antt =====
-- Flushing and pruning keep the database well-formed.
use novaque.Prelude.{ℕ, zero, suc, refl, []}
use novaque.Prelude.Lists.{length}
use novaque.Prelude.Int.{ℤ, pos, negsuc}
use novaque.Action.{fail}
use novaque.Sqlite.Engine.Rules.{Safe}
use novaque.Sqlite.Schema.{StatsRow}
use novaque.Prelude.{Bool}
use novaque.Sqlite.Invariant.{IsValid-stats}
use novaque.Sqlite.Lifecycle.{Tracing}
use novaque.Sqlite.Sink.{Sink}
use novaque.Sqlite.Sink.Valid.{IsLawful-buffer}
use novaque.Sqlite.Flush.Valid.{flush_batches-IsLawful}
use novaque.Sqlite.Evolution.{
  Evolves, Evolves-Preorder, Evolves-still, IsLawful, IsLawful-bind, IsLawful-autocommit,
  lawful_rules,
}
use novaque.Server.Engine.{Server, Dialect}
use novaque.Server.Engine.Rules.{OthersKeep}
use novaque.Server.Stats.{prune_batch, drain, flush_stats, prune_loop, prune_stats}

module _ {traced : Tracing} where
  prune_batch-Safe :
      (order : StatsRow → StatsRow → Bool) (retention : ℕ)
      → Safe (Evolves traced) (prune_batch order retention)
  unfolding prune_batch
  prune_batch-Safe order retention = record {
    step = λ t db. Evolves-still db _ (IsValid-stats _ db) refl refl;
  }

  module _ (dialect : Dialect) (server : Server) (keeps : OthersKeep traced server) where
    drain-IsLawful : (pending : Sink) → IsLawful traced (drain dialect server pending)
    unfolding drain
    drain-IsLawful pending =
        IsLawful-bind _ _ (IsLawful-buffer (λ _. []))
          (λ _. flush_batches-IsLawful server.env keeps.alone _ pending _)

    pub flush_stats-IsLawful : IsLawful traced (flush_stats dialect server)
    unfolding flush_stats
    flush_stats-IsLawful = search (lawful_rules, drain-IsLawful)

    prune_loop-IsLawful :
        (rounds retention total : ℕ)
        → IsLawful traced (prune_loop dialect server rounds retention total)
    unfolding prune_loop
    prune_loop-IsLawful zero retention total = search lawful_rules
    prune_loop-IsLawful (suc rounds) retention total =
        let again = prune_loop-IsLawful rounds in
        search (lawful_rules, IsLawful-autocommit server.env keeps.alone, prune_batch-Safe, again)
          depth 10

    pub prune_stats-IsLawful :
        (retention : ℤ) → IsLawful traced (prune_stats dialect server retention)
    unfolding prune_stats fail
    prune_stats-IsLawful (pos zero) = record {
      at = λ w. record { holds = (Evolves-Preorder traced).same w.db };
    }
    prune_stats-IsLawful (pos (suc n)) = record {
      at = λ w. (prune_loop-IsLawful (suc (length w.db.stats)) (suc n) 0).at w;
    }
    prune_stats-IsLawful (negsuc n) = record {
      at = λ w. record { holds = (Evolves-Preorder traced).same w.db };
    }

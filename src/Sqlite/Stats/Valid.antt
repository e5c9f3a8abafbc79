-- ===== src/Sqlite/Stats/Valid.antt =====
-- Reading and pruning the stats table keeps the database well-formed.
use novaque.Sqlite.Lifecycle.{Tracing}
use novaque.Prelude.{ℕ, zero, suc}
use novaque.Prelude.Lists.{length}
use novaque.Prelude.Int.{ℤ, pos, negsuc}
use novaque.Action.{fail}
use novaque.Sqlite.Engine.{Env}
use novaque.Sqlite.Engine.Rules.{Safe}
use novaque.Sqlite.Invariant.{IsValid-stats}
use novaque.Sqlite.Evolution.{
  Evolves, Evolves-Preorder, Evolves-still, OthersEvolve, IsLawful, IsLawful-autocommit,
  lawful_rules,
}
use novaque.Prelude.{refl}
use novaque.Sqlite.Stats.{prune_batch, prune_loop, prune_stats}

module _ {traced : Tracing} where
  pub prune_batch-Safe : (retention : ℕ) → Safe (Evolves traced) (prune_batch retention)
  unfolding prune_batch
  prune_batch-Safe retention = record {
    step = λ t db. Evolves-still db _ (IsValid-stats _ db) refl refl;
  }

  module _ (env : Env) (quiet : OthersEvolve traced env) where
    prune_loop-IsLawful :
        (rounds retention total : ℕ) → IsLawful traced (prune_loop env rounds retention total)
    unfolding prune_loop
    prune_loop-IsLawful zero retention total = search lawful_rules
    prune_loop-IsLawful (suc rounds) retention total =
        let again = prune_loop-IsLawful rounds in
        search (lawful_rules, IsLawful-autocommit env quiet, prune_batch-Safe, again) depth 10

    pub prune_stats-IsLawful : (retention : ℤ) → IsLawful traced (prune_stats env retention)
    unfolding prune_stats fail
    prune_stats-IsLawful (pos zero) = record {
      at = λ w. record { holds = (Evolves-Preorder traced).same w.db };
    }
    prune_stats-IsLawful (pos (suc n)) = record {
      at = λ w. (prune_loop-IsLawful (suc (length w.db.stats)) (suc n) 0).at w;
    }
    prune_stats-IsLawful (negsuc n) = record {
      at = λ w. record { holds = (Evolves-Preorder traced).same w.db };
    }

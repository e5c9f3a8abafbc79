-- ===== src/Server/Maintenance/Valid.antt =====
-- The purge and the reaper keep the database well-formed.
use novaque.Prelude.{ℕ, refl, List}
use novaque.Prelude.Int.{ℤ}
use novaque.Prelude.Keys.{and_right}
use novaque.Action.{Action}
use novaque.Sqlite.Engine.{World}
use novaque.Sqlite.Engine.Rules.{Safe}
use novaque.Sqlite.Invariant.{IsValid-modify_deliveries}
use novaque.Sqlite.Lifecycle.{Tracing, reaped}
use novaque.Sqlite.Evolution.{
  Evolves, Evolves-modify, IsLawful, IsLawful-autocommit, Safe-read, lawful_rules,
}
use novaque.Sqlite.Maintenance.Valid.{record_purged-IsLawful}
use novaque.Server.Engine.{Server}
use novaque.Server.Engine.Rules.{OthersKeep}
use novaque.Server.Finish.Valid.{delete_where-Safe}
use novaque.Server.Maintenance.{
  Doomed, select_doomed, delete_doomed, release_lapsed, purge_doomed, purge_with,
}

module _ {traced : Tracing} where
  select_doomed-Safe : (limit : ℕ) → Safe (Evolves traced) (select_doomed limit)
  unfolding select_doomed
  select_doomed-Safe limit = Safe-read _ (λ t db. refl)

  delete_doomed-Safe : (ids : List ℕ) → Safe (Evolves traced) (delete_doomed ids)
  unfolding delete_doomed
  delete_doomed-Safe ids = record { step = λ t db. (delete_where-Safe _).step t db }

  pub release_lapsed-Safe : (ids : List ℕ) → Safe (Evolves traced) (release_lapsed ids)
  unfolding release_lapsed
  release_lapsed-Safe ids = record {
    step = λ t db.
        Evolves-modify db _
          (IsValid-modify_deliveries _ _ db (λ d. refl) (λ d. refl) (λ d. refl)
            (λ d h. (refl, refl, refl)))
          _ _ refl refl (λ d. refl) (λ v i d found h. reaped d _ (and_right _ _ h));
  }

  module _ (server : Server) (keeps : OthersKeep traced server) where
    purge_doomed-IsLawful : (rows : List Doomed) → IsLawful traced (purge_doomed server rows)
    unfolding purge_doomed
    purge_doomed-IsLawful rows =
        search
          (
            lawful_rules,
            IsLawful-autocommit server.env keeps.alone,
            delete_doomed-Safe,
            record_purged-IsLawful,
          )
          depth 10

    pub purge_with-IsLawful :
        (orphans : ℕ → Action World ℕ) (limit : ℤ)
        → ((n : ℕ) → IsLawful traced (orphans n))
        → IsLawful traced (purge_with server orphans limit)
    unfolding purge_with
    purge_with-IsLawful orphans limit k =
        search
          (
            lawful_rules,
            IsLawful-autocommit server.env keeps.alone,
            select_doomed-Safe,
            purge_doomed-IsLawful,
            k,
          )
          depth 12

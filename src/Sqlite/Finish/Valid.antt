-- ===== src/Sqlite/Finish/Valid.antt =====
-- Ack and Requeue keep the database well-formed.
use novaque.Sqlite.Lifecycle.{Tracing}
use novaque.Prelude.{ℕ, String, refl, Option, none, some}
use novaque.Sqlite.Engine.{Env, StatKind}
use novaque.Sqlite.Engine.Rules.{Safe}
use novaque.Sqlite.Sink.Valid.{record_stat-IsLawful}
use novaque.Sqlite.Invariant.{IsValid-select_deliveries, IsValid-modify_deliveries}
use novaque.Sqlite.Evolution.{
  Evolves, Evolves-modify, Evolves-select, OthersEvolve, IsLawful, IsLawful-autocommit,
  lawful_rules,
}
use novaque.Sqlite.Lifecycle.{requeued}
use novaque.Prelude.{refl}
use novaque.Sqlite.Finish.{delete_leased, release_leased, record_at, record_finish, ack, requeue}

module _ {traced : Tracing} where
  pub delete_leased-Safe : (i : ℕ) (token : String) → Safe (Evolves traced) (delete_leased i token)
  unfolding delete_leased
  delete_leased-Safe i token = record {
    step = λ t db. Evolves-select db _ (IsValid-select_deliveries _ db) _ refl refl;
  }

  pub release_leased-Safe :
      (i : ℕ) (token : String) (at : Option ℕ) → Safe (Evolves traced) (release_leased i token at)
  unfolding release_leased
  release_leased-Safe i token at = record {
    step = λ t db.
        Evolves-modify db _
          (IsValid-modify_deliveries _ _ db (λ d. refl) (λ d. refl) (λ d. refl)
            (λ d h. (refl, refl, refl)))
          _ _ refl refl (λ d. refl) (λ v i d found h. requeued d _ _ _ h);
  }

  pub record_at-IsLawful : (k : StatKind) (at : Option ℕ × ℕ) → IsLawful traced (record_at k at)
  unfolding record_at
  record_at-IsLawful k (none, c) = search lawful_rules
  record_at-IsLawful k (some t, c) = record_stat-IsLawful t c k 1

  record_finish-IsLawful :
      (k : StatKind) (row : Option (Option ℕ × ℕ)) → IsLawful traced (record_finish k row)
  unfolding record_finish
  record_finish-IsLawful k none = search lawful_rules
  record_finish-IsLawful k (some at) = record_at-IsLawful k at

  module _ (env : Env) (quiet : OthersEvolve traced env) where
    pub ack-IsLawful : (delivery : ℕ) (token : String) → IsLawful traced (ack env delivery token)
    unfolding ack
    ack-IsLawful delivery token =
        search
          (lawful_rules, IsLawful-autocommit env quiet, delete_leased-Safe, record_finish-IsLawful)

    pub requeue-IsLawful :
        (delivery : ℕ) (token : String) (at : Option ℕ)
        → IsLawful traced (requeue env delivery token at)
    unfolding requeue
    requeue-IsLawful delivery token at =
        search
          (lawful_rules, IsLawful-autocommit env quiet, release_leased-Safe, record_finish-IsLawful)

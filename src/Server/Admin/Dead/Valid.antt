-- ===== src/Server/Admin/Dead/Valid.antt =====
-- Requeueing and deleting dead deliveries keeps the database well-formed.
use novaque.Prelude.{◌≡◌, true, ℕ, zero, suc, refl, Option, none, some}
use novaque.Prelude.Int.{ℤ, pos, negsuc}
use novaque.Sqlite.Engine.{StatKind}
use novaque.Sqlite.Engine.Rules.{Safe}
use novaque.Sqlite.Sink.Valid.{record_stat-IsLawful}
use novaque.Sqlite.Invariant.{IsValid-modify_deliveries}
use novaque.Sqlite.Lifecycle.{Tracing, revived}
use novaque.Sqlite.Evolution.{Evolves, Evolves-modify, IsLawful, IsLawful-autocommit, lawful_rules}
use novaque.Sqlite.Admin.Dead.{dead_at, revive_row}
use novaque.Sqlite.Admin.Dead.Valid.{dead_at-dead, dead_at-revivable, extend_message-Safe}
use novaque.Server.Engine.{Server, Dialect}
use novaque.Server.Engine.Rules.{
  OthersKeep, IsLawfulTx, IsLawfulTx-query, IsLawful-tx, set_timeouts-IsLawfulTx, tx_rules,
}
use novaque.Server.Finish.Valid.{lease_attribution-Safe, delete_where-Safe}
use novaque.Server.Admin.Dead.{
  revive_where, or_gone, record_topic, requeue_dead_body, requeue_dead, settle_delete, delete_dead,
}

module _ {traced : Tracing} where
  revive_where-Safe :
      (i channel ttl : ℕ)
      → traced.revivable i ≡ true
      → Safe (Evolves traced) (revive_where i channel ttl)
  unfolding revive_where
  revive_where-Safe i channel ttl may = record {
    step = λ t db.
        Evolves-modify db _
          (IsValid-modify_deliveries (dead_at i channel) (revive_row t.now ttl) db (λ d. refl)
            (λ d. refl) (λ d. refl) (λ d h. (refl, refl, refl)))
          (dead_at i channel) (revive_row t.now ttl) refl refl (λ d. refl)
          (λ v n d found h.
            revived d _ _ (dead_at-revivable traced.revivable i channel d may h)
              (dead_at-dead i channel d h));
  }

  or_gone-IsLawfulTx : (n : ℕ) → IsLawfulTx traced (or_gone n)
  unfolding or_gone
  or_gone-IsLawfulTx n = search tx_rules

  record_topic-IsLawful :
      (k : StatKind) (channel : ℕ) (at : Option (ℕ × ℕ))
      → IsLawful traced (record_topic k channel at)
  unfolding record_topic
  record_topic-IsLawful k channel none = search lawful_rules
  record_topic-IsLawful k channel (some (t, c)) = record_stat-IsLawful t channel k 1

  module _ (dialect : Dialect) (server : Server) (keeps : OthersKeep traced server) where
    requeue_dead_body-IsLawfulTx :
        (i channel ttl : ℕ)
        → traced.revivable i ≡ true
        → IsLawfulTx traced (requeue_dead_body dialect server i channel ttl)
    unfolding requeue_dead_body
    requeue_dead_body-IsLawfulTx i channel ttl may =
        search
          (
            tx_rules,
            set_timeouts-IsLawfulTx server keeps,
            IsLawfulTx-query server keeps,
            revive_where-Safe,
            may,
            extend_message-Safe,
            or_gone-IsLawfulTx,
          )
          depth 12

    pub requeue_dead-IsLawful :
        (i channel : ℕ) (ttl : ℤ)
        → traced.revivable i ≡ true
        → IsLawful traced (requeue_dead dialect server i channel ttl)
    unfolding requeue_dead
    requeue_dead-IsLawful i channel (pos zero) may = search lawful_rules
    requeue_dead-IsLawful i channel (pos (suc n)) may =
        search
          (
            lawful_rules,
            IsLawful-autocommit server.env keeps.alone,
            lease_attribution-Safe,
            IsLawful-tx server keeps,
            requeue_dead_body-IsLawfulTx,
            may,
            record_topic-IsLawful,
          )
          depth 10
    requeue_dead-IsLawful i channel (negsuc n) may = search lawful_rules

    settle_delete-IsLawful :
        (channel : ℕ) (at : Option (ℕ × ℕ)) (n : ℕ)
        → IsLawful traced (settle_delete dialect server channel at n)
    unfolding settle_delete
    settle_delete-IsLawful channel at n = search (lawful_rules, record_topic-IsLawful)

    pub delete_dead-IsLawful :
        (i channel : ℕ) → IsLawful traced (delete_dead dialect server i channel)
    unfolding delete_dead
    delete_dead-IsLawful i channel =
        search
          (
            lawful_rules,
            IsLawful-autocommit server.env keeps.alone,
            lease_attribution-Safe,
            delete_where-Safe,
            settle_delete-IsLawful,
          )
          depth 10

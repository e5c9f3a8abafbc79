-- ===== src/Sqlite/Admin/Dead/Valid.antt =====
-- Requeueing and deleting dead deliveries keeps the database well-formed.
use novaque.Sqlite.Lifecycle.{Tracing}
use novaque.Prelude.{Bool, ap, ◌∙◌, ◌==◌, ==_iff, ℕ, zero, suc, refl, Option, none, some}
use novaque.Prelude.Int.{ℤ, pos, negsuc}
use novaque.Sqlite.Schema.{DeliveryRow, is_dead}
use novaque.Sqlite.Engine.{Env}
use novaque.Sqlite.Engine.Rules.{Safe}
use novaque.Sqlite.Finish.Valid.{record_at-IsLawful}
use novaque.Sqlite.Invariant.{
  IsValid-select_deliveries, IsValid-modify_deliveries, IsValid-modify_messages,
}
use novaque.Sqlite.Evolution.{
  Evolves, Evolves-still, Evolves-modify, Evolves-select, OthersEvolve, IsLawful,
  IsLawful-statement, IsLawful-autocommit, IsLawful-transaction, lawful_rules,
}
use novaque.Sqlite.Lifecycle.{revived}
use novaque.Prelude.{true, arith, ◌≡◌, refl}
use novaque.Sqlite.Admin.Dead.{
  revive_row, dead_at, revive_dead, extend_message, delete_dead_row, or_dead_gone,
  requeue_dead_body, requeue_dead, delete_dead,
}

pub dead_at-dead :
    (i channel : ℕ) (d : DeliveryRow) → dead_at i channel d ≡ true → is_dead d.status ≡ true
dead_at-dead i channel d h = ground arith

pub dead_at-revivable :
    (may : ℕ → Bool) (i channel : ℕ) (d : DeliveryRow)
    → may i ≡ true
    → dead_at i channel d ≡ true
    → may d.id ≡ true
dead_at-revivable may i channel d h k = ap may ((==_iff d.id i).0 (named k)) ∙ h
  where
    named : dead_at i channel d ≡ true → (d.id == i) ≡ true
    named k = ground arith

module _ {traced : Tracing} where
  pub revive_dead-Safe :
      (i channel ttl : ℕ)
      → traced.revivable i ≡ true
      → Safe (Evolves traced) (revive_dead i channel ttl)
  unfolding revive_dead
  revive_dead-Safe i channel ttl may = record {
    step = λ t db.
        Evolves-modify db (revive_dead i channel ttl t db).1
          (IsValid-modify_deliveries (dead_at i channel) (revive_row t.now ttl) db (λ d. refl)
            (λ d. refl) (λ d. refl) (λ d h. (refl, refl, refl)))
          (dead_at i channel) (revive_row t.now ttl) refl refl (λ d. refl)
          (λ v n d found h.
            revived d _ _ (dead_at-revivable traced.revivable i channel d may h)
              (dead_at-dead i channel d h));
  }

  pub extend_message-Safe : (i ttl : ℕ) → Safe (Evolves traced) (extend_message i ttl)
  unfolding extend_message
  extend_message-Safe i ttl = record {
    step = λ t db.
        Evolves-still db _ (IsValid-modify_messages _ _ db (λ m. refl) (λ m. refl)) refl refl;
  }

  pub delete_dead_row-Safe : (i channel : ℕ) → Safe (Evolves traced) (delete_dead_row i channel)
  unfolding delete_dead_row
  delete_dead_row-Safe i channel = record {
    step = λ t db. Evolves-select db _ (IsValid-select_deliveries _ db) _ refl refl;
  }

  or_dead_gone-IsLawful : (row : Option (Option ℕ × ℕ)) → IsLawful traced (or_dead_gone row)
  unfolding or_dead_gone
  or_dead_gone-IsLawful none = search lawful_rules
  or_dead_gone-IsLawful (some at) = search lawful_rules

  module _ (env : Env) (quiet : OthersEvolve traced env) where
    requeue_dead_body-IsLawful :
        (i channel ttl : ℕ)
        → traced.revivable i ≡ true
        → IsLawful traced (requeue_dead_body env i channel ttl)
    unfolding requeue_dead_body
    requeue_dead_body-IsLawful i channel ttl may =
        search
          (
            lawful_rules,
            IsLawful-statement env,
            revive_dead-Safe,
            may,
            extend_message-Safe,
            or_dead_gone-IsLawful,
          )
          depth 10

    pub requeue_dead-IsLawful :
        (i channel : ℕ) (ttl : ℤ)
        → traced.revivable i ≡ true
        → IsLawful traced (requeue_dead env i channel ttl)
    unfolding requeue_dead
    requeue_dead-IsLawful i channel (pos zero) may = search lawful_rules
    requeue_dead-IsLawful i channel (pos (suc n)) may = search (
      lawful_rules,
      IsLawful-transaction env quiet,
      requeue_dead_body-IsLawful,
      may,
      record_at-IsLawful,
    )
    requeue_dead-IsLawful i channel (negsuc n) may = search lawful_rules

    pub delete_dead-IsLawful : (i channel : ℕ) → IsLawful traced (delete_dead env i channel)
    unfolding delete_dead
    delete_dead-IsLawful i channel =
        search
          (
            lawful_rules,
            IsLawful-autocommit env quiet,
            delete_dead_row-Safe,
            or_dead_gone-IsLawful,
            record_at-IsLawful,
          )
          depth 10

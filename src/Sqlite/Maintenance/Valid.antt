-- ===== src/Sqlite/Maintenance/Valid.antt =====
-- The reaper and the purge keep the database well-formed.
use novaque.Sqlite.Lifecycle.{Tracing}
use novaque.Prelude.{
  ℕ, ◌≡◌, refl, inl, inr, false, ◌&&◌, not, List, [], ◌∷◌, ◌==◌, arith, Bool-cases,
}
use novaque.Prelude.Int.{ℤ}
use novaque.Prelude.Lists.{select, exists, elem}
use novaque.Prelude.Rows.{Asc-select, All-select, All-select_test, All-mono₂, exists-select_keep}
use novaque.Sqlite.Schema.{MessageRow}
use novaque.Sqlite.Engine.{Env, StatCoord, stat_purged}
use novaque.Sqlite.Engine.Rules.{Safe}
use novaque.Sqlite.Sink.Valid.{record_stat-IsLawful}
use novaque.Sqlite.Invariant.{IsValid-select_deliveries, IsValid-modify_deliveries}
use novaque.Sqlite.Evolution.{
  Evolves, Evolves-modify, Evolves-select, OthersEvolve, IsLawful, IsLawful-bind,
  IsLawful-autocommit, Safe-read, lawful_rules,
}
use novaque.Sqlite.Lifecycle.{reaped}
use novaque.Prelude.{◌≡◌, refl}
use novaque.Sqlite.Maintenance.Running.{batch-lapsed}
use novaque.Sqlite.Maintenance.{
  reap, select_expired, delete_expired, record_purged, select_orphans, delete_messages,
  reap_expired_leases, purge_deliveries, purge_expired,
}

-- A message that some row has, and that the deletion by ids spares.
spared :
    (ids : List ℕ) (i : ℕ) (ms : List MessageRow)
    → elem i ids ≡ false
    → exists (λ m. elem m.id ids && m.id == i) ms ≡ false
spared ids i [] h = refl
spared ids i (m ∷ ms) h = elim (Bool-cases (m.id == i)) [
  | inl e ↦ let same : m.id ≡ i = ground arith in rw (same, h) (spared ids i ms h)
  | inr e ↦ ground (arith, e, spared ids i ms h)
]

module _ {traced : Tracing} where
  pub reap-Safe : (limit : ℕ) → Safe (Evolves traced) (reap limit)
  unfolding reap
  reap-Safe limit = record {
    step = λ t db.
        Evolves-modify db _
          (IsValid-modify_deliveries _ _ db (λ d. refl) (λ d. refl) (λ d. refl)
            (λ d h. (refl, refl, refl)))
          _ _ refl refl (λ d. refl)
          (λ v i d found h. reaped d _ (batch-lapsed _ _ i db d v found h));
  }

  pub select_expired-Safe : (limit : ℕ) → Safe (Evolves traced) (select_expired limit)
  unfolding select_expired
  select_expired-Safe limit = Safe-read _ (λ t db. refl)

  pub delete_expired-Safe : (ids : List ℕ) → Safe (Evolves traced) (delete_expired ids)
  unfolding delete_expired
  delete_expired-Safe ids = record {
    step = λ t db. Evolves-select db _ (IsValid-select_deliveries _ db) _ refl refl;
  }

  pub select_orphans-Safe : (limit : ℕ) → Safe (Evolves traced) (select_orphans limit)
  unfolding select_orphans
  select_orphans-Safe limit = Safe-read _ (λ t db. refl)

  -- The cascade takes the deliveries of the deleted messages along.
  pub delete_messages-Safe : (ids : List ℕ) → Safe (Evolves traced) (delete_messages ids)
  unfolding delete_messages
  delete_messages-Safe ids = record {
    step = λ t db.
        Evolves-select db _
          (λ v. record {
            topic_ids = v.topic_ids;
            channel_ids = v.channel_ids;
            message_ids = Asc-select _ _ 1 db.messages _ v.message_ids;
            delivery_ids = Asc-select _ _ 1 db.deliveries _ v.delivery_ids;
            channel_topics = v.channel_topics;
            message_topics = All-select _ _ db.messages v.message_topics;
            delivery_messages =
                All-mono₂ (select (λ d. not (elem d.message_id ids)) db.deliveries)
                  (λ d h k.
                    exists-select_keep _ _ db.messages h
                      (spared ids d.message_id db.messages (ground arith)))
                  (All-select _ _ db.deliveries v.delivery_messages)
                  (All-select_test (λ d. not (elem d.message_id ids)) db.deliveries);
            delivery_channels = All-select _ _ db.deliveries v.delivery_channels;
            leases = All-select _ _ db.deliveries v.leases;
          })
          _ refl refl;
  }

  pub record_purged-IsLawful :
      (counts : List (StatCoord × ℕ)) → IsLawful traced (record_purged counts)
  unfolding record_purged
  record_purged-IsLawful [] = search lawful_rules
  record_purged-IsLawful ((c, n) ∷ rest) =
      IsLawful-bind _ _ (record_stat-IsLawful c.topic_id c.channel_id stat_purged n)
        (λ _. record_purged-IsLawful rest)

  module _ (env : Env) (quiet : OthersEvolve traced env) where
    pub reap_expired_leases-IsLawful : (limit : ℤ) → IsLawful traced (reap_expired_leases env limit)
    unfolding reap_expired_leases
    reap_expired_leases-IsLawful limit = search (IsLawful-autocommit env quiet, reap-Safe)

    purge_deliveries-IsLawful : (ids : List ℕ) → IsLawful traced (purge_deliveries env ids)
    unfolding purge_deliveries
    purge_deliveries-IsLawful ids =
        search
          (lawful_rules, IsLawful-autocommit env quiet, delete_expired-Safe, record_purged-IsLawful)
          depth 10

    pub purge_expired-IsLawful : (limit : ℤ) → IsLawful traced (purge_expired env limit)
    unfolding purge_expired
    purge_expired-IsLawful limit =
        search
          (
            lawful_rules,
            IsLawful-autocommit env quiet,
            select_expired-Safe,
            select_orphans-Safe,
            delete_messages-Safe,
            purge_deliveries-IsLawful,
          )
          depth 14

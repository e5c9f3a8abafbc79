-- ===== src/Server/Finish/Valid.antt =====
-- Ack and Requeue keep the database well-formed.
use novaque.Prelude.{
  ℕ, String, ◌≡◌, refl, Bool, true, ◌&&◌, Option, none, some, ◌==◌, arith, str_eq_iff,
}
use novaque.Sqlite.Schema.{DeliveryRow, is_in_flight, token_is}
use novaque.Sqlite.Engine.{StatKind}
use novaque.Sqlite.Engine.Rules.{Safe}
use novaque.Sqlite.Sink.Valid.{record_stat-IsLawful}
use novaque.Sqlite.Invariant.{IsValid-select_deliveries, IsValid-modify_deliveries}
use novaque.Sqlite.Lifecycle.{Tracing, Move, requeued}
use novaque.Sqlite.Evolution.{
  Evolves, Evolves-modify, Evolves-select, IsLawful, IsLawful-autocommit, Safe-read, lawful_rules,
}
use novaque.Sqlite.Finish.{release_row}
use novaque.Server.Engine.{Server, Dialect}
use novaque.Server.Engine.Rules.{OthersKeep}
use novaque.Server.Finish.{
  token_same, leased_for, lease_attribution, delete_where, release_where, record_found,
  settle_finish, ack, requeue,
}

-- However the engine compares texts, a leased row is leased under its own token.
own_token :
    (same : String → String → Bool) (o : Option String) (token : String)
    → token_same same o token ≡ true
    → (own : String) × (token_is o own ≡ true)
own_token same none token h = absurd (cc)
own_token same (some s) token h = (s, (str_eq_iff s s).1 refl)

lease_parts : (a b c : Bool) → (a && b && c) ≡ true → (a ≡ true) × (b ≡ true) × (c ≡ true)
lease_parts a b c h = ground arith

lease_join : (a b c : Bool) → a ≡ true → b ≡ true → c ≡ true → (a && b && c) ≡ true
lease_join a b c h k l = ground arith

leased_for-Move :
    {traced : Tracing} (same : String → String → Bool) (i : ℕ) (token : String) (at : ℕ)
    (d : DeliveryRow)
    → leased_for same i token d ≡ true
    → Move traced d (release_row at d)
leased_for-Move same i token at d h =
    let (a, b, c) =
      lease_parts (d.id == i) (token_same same d.lease_token token) (is_in_flight d.status) h in
    let (own, mine) = own_token same d.lease_token token b in
    requeued d i own at
      (lease_join (d.id == i) (token_is d.lease_token own) (is_in_flight d.status) a mine c)

module _ {traced : Tracing} where
  pub lease_attribution-Safe :
      (p : DeliveryRow → Bool) → Safe (Evolves traced) (lease_attribution p)
  unfolding lease_attribution
  lease_attribution-Safe p = Safe-read _ (λ t db. refl)

  pub delete_where-Safe : (p : DeliveryRow → Bool) → Safe (Evolves traced) (delete_where p)
  unfolding delete_where
  delete_where-Safe p = record {
    step = λ t db. Evolves-select db _ (IsValid-select_deliveries _ db) _ refl refl;
  }

  release_leased-Safe :
      (same : String → String → Bool) (i : ℕ) (token : String) (at : Option ℕ)
      → Safe (Evolves traced) (release_where (leased_for same i token) at)
  unfolding release_where
  release_leased-Safe same i token at = record {
    step = λ t db.
        Evolves-modify db _
          (IsValid-modify_deliveries _ _ db (λ d. refl) (λ d. refl) (λ d. refl)
            (λ d h. (refl, refl, refl)))
          _ _ refl refl (λ d. refl) (λ v n d found h. leased_for-Move same i token _ d h);
  }

  pub record_found-IsLawful :
      (k : StatKind) (at : Option (ℕ × ℕ)) → IsLawful traced (record_found k at)
  unfolding record_found
  record_found-IsLawful k none = search lawful_rules
  record_found-IsLawful k (some (t, c)) = record_stat-IsLawful t c k 1

  settle_finish-IsLawful :
      (k : StatKind) (at : Option (ℕ × ℕ)) (n : ℕ) → IsLawful traced (settle_finish k at n)
  unfolding settle_finish
  settle_finish-IsLawful k at n = search (lawful_rules, record_found-IsLawful)

  module _ (dialect : Dialect) (server : Server) (keeps : OthersKeep traced server) where
    pub ack-IsLawful :
        (delivery : ℕ) (token : String) → IsLawful traced (ack dialect server delivery token)
    unfolding ack
    ack-IsLawful delivery token =
        search
          (
            lawful_rules,
            IsLawful-autocommit server.env keeps.alone,
            lease_attribution-Safe,
            delete_where-Safe,
            settle_finish-IsLawful,
          )
          depth 10

    pub requeue-IsLawful :
        (delivery : ℕ) (token : String) (at : Option ℕ)
        → IsLawful traced (requeue dialect server delivery token at)
    unfolding requeue
    requeue-IsLawful delivery token at =
        search
          (
            lawful_rules,
            IsLawful-autocommit server.env keeps.alone,
            lease_attribution-Safe,
            release_leased-Safe,
            settle_finish-IsLawful,
          )
          depth 10

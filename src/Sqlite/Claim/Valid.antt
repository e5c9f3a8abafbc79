-- ===== src/Sqlite/Claim/Valid.antt =====
-- Claim keeps the database well-formed.
use novaque.Sqlite.Lifecycle.{Tracing}
use novaque.Prelude.{ℕ, zero, suc, String, refl, List}
use novaque.Prelude.Int.{ℤ, pos, negsuc}
use novaque.Store.Errors.{DbError, busy, busy_snapshot, Result, ok, err, engine}
use novaque.Store.Types.{Delivery}
use novaque.Action.{Action}
use novaque.Sqlite.Engine.{Env, World}
use novaque.Sqlite.Engine.Rules.{Safe}
use novaque.Sqlite.Sink.Valid.{record_stat-IsLawful}
use novaque.Sqlite.Invariant.{IsValid-modify_deliveries}
use novaque.Sqlite.Evolution.{
  Evolves, Evolves-modify, OthersEvolve, IsLawful, IsLawful-statement, IsLawful-transaction,
  Safe-read, lawful_rules,
}
use novaque.Sqlite.Lifecycle.{claimed, Timely-same}
use novaque.Prelude.{refl}
use novaque.Prelude.Keys.{and_right}
use novaque.Sqlite.Claim.Bury.{load_and_bury-IsLawful}
use novaque.Sqlite.Claim.{
  poll_ready, lease_ready, load_claimed, claim_leased, claim_body, run_claim_tx, record_claim,
  wait_turn, settle_claim, claim_loop, claim, ClaimTx,
}

module _ {traced : Tracing} where
  pub poll_ready-Safe : (channel limit : ℕ) → Safe (Evolves traced) (poll_ready channel limit)
  unfolding poll_ready
  poll_ready-Safe channel limit = Safe-read _ (λ t db. refl)

  pub lease_ready-Safe :
      (owner : String) (sec : ℕ) (ids : List ℕ) → Safe (Evolves traced) (lease_ready owner sec ids)
  unfolding lease_ready
  lease_ready-Safe owner sec ids = record {
    step = λ t db.
        Evolves-modify db _
          (IsValid-modify_deliveries _ _ db (λ d. refl) (λ d. refl) (λ d. refl)
            (λ d h. (refl, refl, refl)))
          _ _ refl refl (λ d. refl)
          (λ v i d found h.
            claimed d owner sec t.now t.now t.blob (Timely-same traced t.now) (and_right _ _ h));
  }

  pub load_claimed-Safe : (ids : List ℕ) → Safe (Evolves traced) (load_claimed ids)
  unfolding load_claimed
  load_claimed-Safe ids = Safe-read _ (λ t db. refl)

  module _ (env : Env) (quiet : OthersEvolve traced env) (channel : ℕ) (owner : String)
      (sec limit : ℕ) where
    claim_leased-IsLawful :
        (ids : List ℕ) → IsLawful traced (claim_leased env channel owner sec limit ids)
    unfolding claim_leased
    claim_leased-IsLawful ids =
        search (lawful_rules, IsLawful-statement env, lease_ready-Safe, load_and_bury-IsLawful)
          depth 10

    claim_body-IsLawful : IsLawful traced (claim_body env channel owner sec limit)
    unfolding claim_body
    claim_body-IsLawful =
        search (lawful_rules, IsLawful-statement env, poll_ready-Safe, claim_leased-IsLawful) depth
          10

    run_claim_tx-IsLawful : IsLawful traced (run_claim_tx env channel owner sec limit)
    unfolding run_claim_tx
    run_claim_tx-IsLawful = IsLawful-transaction env quiet _ claim_body-IsLawful

    record_claim-IsLawful :
        (c : ClaimTx) → IsLawful traced (record_claim env channel owner sec limit c)
    unfolding record_claim
    record_claim-IsLawful c = search (lawful_rules, record_stat-IsLawful) depth 10

    wait_turn-IsLawful : (n : ℕ) → IsLawful traced (wait_turn env channel owner sec limit n)
    unfolding wait_turn
    wait_turn-IsLawful zero = search lawful_rules
    wait_turn-IsLawful (suc n) = search lawful_rules

    settle_claim-IsLawful :
        (r : Result ClaimTx) (retry : DbError → Action World (List Delivery))
        → ((e : DbError) → IsLawful traced (retry e))
        → IsLawful traced (settle_claim env channel owner sec limit r retry)
    unfolding settle_claim
    settle_claim-IsLawful (ok c) retry k = record_claim-IsLawful c
    settle_claim-IsLawful (err (engine busy)) retry k = k busy
    settle_claim-IsLawful (err (engine busy_snapshot)) retry k = k busy_snapshot
    settle_claim-IsLawful (err e) retry k = search lawful_rules

    claim_loop-IsLawful :
        (left n : ℕ) (last : DbError)
        → IsLawful traced (claim_loop env channel owner sec limit left n last)
    unfolding claim_loop
    claim_loop-IsLawful zero n last = search lawful_rules
    claim_loop-IsLawful (suc left) n last =
        let again = claim_loop-IsLawful left (suc n) in
        search
          (lawful_rules, wait_turn-IsLawful, run_claim_tx-IsLawful, settle_claim-IsLawful, again)
          depth 10

  pub claim-IsLawful :
      (env : Env) (quiet : OthersEvolve traced env) (channel : ℤ) (owner : String)
      (lease_for limit : ℤ)
      → IsLawful traced (claim env channel owner lease_for limit)
  unfolding claim
  claim-IsLawful env quiet (pos zero) owner l n = search lawful_rules
  claim-IsLawful env quiet (pos (suc c)) owner l n = search (claim_loop-IsLawful env quiet)
  claim-IsLawful env quiet (negsuc c) owner l n = search lawful_rules

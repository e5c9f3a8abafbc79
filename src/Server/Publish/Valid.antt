-- ===== src/Server/Publish/Valid.antt =====
-- Publish keeps the database well-formed.
use novaque.Prelude.{ℕ, zero, suc, refl, List}
use novaque.Prelude.Int.{ℤ, pos, negsuc}
use novaque.Store.Types.{PublishOpts}
use novaque.Sqlite.Engine.Rules.{Safe}
use novaque.Sqlite.Lifecycle.{Tracing}
use novaque.Sqlite.Evolution.{Evolves, IsLawful, Safe-read, lawful_rules}
use novaque.Sqlite.Publish.Valid.{
  select_now-Safe, insert_message-Safe, insert_fan_out-Safe, record_publish-IsLawful,
}
use novaque.Server.Engine.{Server, Dialect}
use novaque.Server.Engine.Rules.{
  OthersKeep, IsLawfulTx, IsLawfulTx-query, IsLawful-tx, set_timeouts-IsLawfulTx, tx_rules,
}
use novaque.Server.Publish.{select_fan_out, publish_body, publish_tx, publish}

module _ {traced : Tracing} where
  select_fan_out-Safe : (message : ℕ) → Safe (Evolves traced) (select_fan_out message)
  unfolding select_fan_out
  select_fan_out-Safe message = Safe-read _ (λ t db. refl)

  module _ (dialect : Dialect) (server : Server) (keeps : OthersKeep traced server) where
    publish_body-IsLawfulTx :
        (topic : ℕ) (body : List ℕ) (opts : PublishOpts) (max : ℕ)
        → IsLawfulTx traced (publish_body dialect server topic body opts max)
    unfolding publish_body
    publish_body-IsLawfulTx topic body opts max =
        search
          (
            tx_rules,
            set_timeouts-IsLawfulTx server keeps,
            IsLawfulTx-query server keeps,
            select_now-Safe,
            insert_message-Safe,
            insert_fan_out-Safe,
            select_fan_out-Safe,
          )
          depth 18

    publish_tx-IsLawful :
        (topic : ℕ) (body : List ℕ) (opts : PublishOpts)
        → IsLawful traced (publish_tx dialect server topic body opts)
    unfolding publish_tx
    publish_tx-IsLawful topic body opts =
        search
          (lawful_rules, IsLawful-tx server keeps, publish_body-IsLawfulTx, record_publish-IsLawful)

    pub publish-IsLawful :
        (topic : ℤ) (body : List ℕ) (opts : PublishOpts)
        → IsLawful traced (publish dialect server topic body opts)
    unfolding publish
    publish-IsLawful (pos zero) body opts = search lawful_rules
    publish-IsLawful (pos (suc n)) body opts = search (lawful_rules, publish_tx-IsLawful)
    publish-IsLawful (negsuc n) body opts = search lawful_rules

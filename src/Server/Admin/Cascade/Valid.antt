-- ===== src/Server/Admin/Cascade/Valid.antt =====
-- The cascade deletes keep the database well-formed.
use novaque.Prelude.{zero, suc, List, [], ◌∷◌}
use novaque.Prelude.Int.{ℤ, pos, negsuc}
use novaque.Prelude.Lists.{All}
use novaque.Sqlite.Engine.{Stmt}
use novaque.Sqlite.Engine.Rules.{Safe}
use novaque.Sqlite.Lifecycle.{Tracing}
use novaque.Sqlite.Evolution.{Evolves, IsLawful, lawful_rules}
use novaque.Sqlite.Admin.Cascade.{topic_steps, channel_steps}
use novaque.Sqlite.Admin.Cascade.Valid.{topic_steps-Safe, channel_steps-Safe}
use novaque.Server.Engine.{Server, Dialect}
use novaque.Server.Engine.Rules.{
  OthersKeep, IsLawfulTx, IsLawfulTx-bind, IsLawfulTx-query, IsLawful-tx, set_timeouts-IsLawfulTx,
  tx_rules,
}
use novaque.Server.Admin.Cascade.{cascade_steps, run_cascade, delete_topic, delete_channel}

module _ {traced : Tracing} (dialect : Dialect) (server : Server)
    (keeps : OthersKeep traced server) where
  cascade_steps-IsLawfulTx :
      (ss : List (Stmt (Unit {0})))
      → All (λ s. Safe (Evolves traced) s) ss
      → IsLawfulTx traced (cascade_steps dialect server ss)
  unfolding cascade_steps
  cascade_steps-IsLawfulTx [] h = search tx_rules
  cascade_steps-IsLawfulTx (s ∷ ss) h =
      IsLawfulTx-bind _ _ (IsLawfulTx-query server keeps s h.0)
        (λ _. cascade_steps-IsLawfulTx ss h.1)

  run_cascade-IsLawful :
      (ss : List (Stmt (Unit {0})))
      → All (λ s. Safe (Evolves traced) s) ss
      → IsLawful traced (run_cascade dialect server ss)
  unfolding run_cascade
  run_cascade-IsLawful ss h = IsLawful-tx server keeps _ (
      IsLawfulTx-bind _ _ (set_timeouts-IsLawfulTx server keeps dialect.timeouts)
        (λ _. cascade_steps-IsLawfulTx ss h))

  pub delete_topic-IsLawful : (topic : ℤ) → IsLawful traced (delete_topic dialect server topic)
  unfolding delete_topic
  delete_topic-IsLawful (pos zero) = search lawful_rules
  delete_topic-IsLawful (pos (suc i)) =
      run_cascade-IsLawful (topic_steps (suc i)) (topic_steps-Safe (suc i))
  delete_topic-IsLawful (negsuc i) = search lawful_rules

  pub delete_channel-IsLawful :
      (channel : ℤ) → IsLawful traced (delete_channel dialect server channel)
  unfolding delete_channel
  delete_channel-IsLawful (pos zero) = search lawful_rules
  delete_channel-IsLawful (pos (suc i)) =
      run_cascade-IsLawful (channel_steps (suc i)) (channel_steps-Safe (suc i))
  delete_channel-IsLawful (negsuc i) = search lawful_rules

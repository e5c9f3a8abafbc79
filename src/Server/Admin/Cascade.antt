-- ===== src/Server/Admin/Cascade.antt =====
-- DeleteTopic and DeleteChannel: the statements of each, in one transaction. The counter buffer is
-- left as it is.
pub mod Valid
use novaque.Prelude.{ℕ, none, some, List, [], ◌∷◌}
use novaque.Prelude.Int.{ℤ, positive?}
use novaque.Store.Errors.{invalid_id}
use novaque.Action.{Action, pure, fail, ◌>>=◌, ◌>>◌}
use novaque.Sqlite.Engine.{World, Stmt}
use novaque.Sqlite.Admin.Cascade.{topic_steps, channel_steps}
use novaque.Server.Engine.{Server, Dialect, Session, query, transaction, set_timeouts}

module _ (dialect : Dialect) (server : Server) where
  pub cascade_steps : List (Stmt (Unit {0})) → Action Session (Unit {0})
  cascade_steps [] = pure tt
  cascade_steps (s ∷ ss) = do query server s; cascade_steps ss

  pub run_cascade : List (Stmt (Unit {0})) → Action World (Unit {0})
  unfolding cascade_steps
  run_cascade steps =
      transaction server do set_timeouts server dialect.timeouts; cascade_steps steps

  pub delete_topic : ℤ → Action World (Unit {0})
  unfolding run_cascade
  delete_topic topic = elim (positive? topic) [
    | none ↦ fail invalid_id
    | some i ↦ run_cascade (topic_steps i)
  ]

  pub delete_channel : ℤ → Action World (Unit {0})
  unfolding run_cascade
  delete_channel channel = elim (positive? channel) [
    | none ↦ fail invalid_id
    | some i ↦ run_cascade (channel_steps i)
  ]

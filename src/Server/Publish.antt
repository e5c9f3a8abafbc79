-- ===== src/Server/Publish.antt =====
-- driver/postgres/postgres.go, Publish, and that of driver/mysql/mysql.go: one message and one
-- delivery per channel, in one transaction.
pub mod Valid
use novaque.Prelude.{ℕ, ◌+◌, List, map, ◌==◌, none, some}
use novaque.Prelude.Int.{ℤ, positive?, positive_or}
use novaque.Prelude.Lists.{select}
use novaque.Store.Errors.{ok, invalid_id}
use novaque.Store.Types.{PublishOpts}
use novaque.Store.Delay.{delay_sec, validate_publish_delay}
use novaque.Action.{Action, pure, fail, lift, map_err, ◌>>=◌, ◌>>◌}
use novaque.Sqlite.Engine.{World, Stmt}
use novaque.Sqlite.Publish.{
  default_max_attempts, message_expiry, select_now, insert_message, insert_fan_out, record_publish,
  map_topic_gone,
}
use novaque.Server.Engine.{Server, Dialect, Session, query, transaction, set_timeouts}

-- SELECT channel_id FROM novaque_deliveries WHERE message_id = ?
pub select_fan_out : ℕ → Stmt (List ℕ)
select_fan_out message t db =
    (ok (map (λ d. d.channel_id) (select (λ d. d.message_id == message) db.deliveries)), db)

module _ (dialect : Dialect) (server : Server) where
  -- The message id, and the channels whose deliveries were just inserted.
  pub publish_body : ℕ → List ℕ → PublishOpts → ℕ → Action Session (ℕ × List ℕ)
  unfolding select_fan_out
  publish_body topic_id body opts max = do
    set_timeouts server dialect.timeouts
    now ← query server select_now
    lift (validate_publish_delay opts now)
    id ← query server (insert_message topic_id body (message_expiry opts now))
    query server (insert_fan_out topic_id id (now + delay_sec opts.delay) max)
    fanout ← query server (select_fan_out id)
    pure (id, fanout)

  -- `publish`: the counters change only after the commit.
  pub publish_tx : ℕ → List ℕ → PublishOpts → Action World ℕ
  unfolding publish_body
  publish_tx topic_id body opts = do
    (id, fanout) ←
        transaction server
          (publish_body topic_id body opts (positive_or default_max_attempts opts.max_attempts))
    record_publish topic_id fanout
    pure id

  pub publish : ℤ → List ℕ → PublishOpts → Action World ℕ
  unfolding publish_tx
  publish topic_id body opts = elim (positive? topic_id) [
    | none ↦ fail invalid_id
    | some i ↦ map_err map_topic_gone (publish_tx i body opts)
  ]

-- ===== src/Sqlite/Publish/Examples.antt =====
-- A publish on a topic with one channel, and one on a topic that is not there.
use novaque.Prelude.{◌≡◌, refl, [], ◌∷◌}
use novaque.Store.Errors.{ok, err, engine, foreign_key}
use novaque.Store.Delay.{duration_sec, delay_sec, expires_at_unix, validate_publish_delay}
use novaque.Action.{pure, lift, update, ◌>>=◌}
use novaque.Sqlite.Schema.{message_by_id}
use novaque.Sqlite.Engine.{statement, transaction, others_commit, finish_tx}
use novaque.Sqlite.Sink.{record_stat}
use novaque.Sqlite.Fixture.{calm, waiting, shop, shop-waiting-IsValid, world, minute}
use novaque.Sqlite.Publish.{
  message_expiry, select_now, insert_message, fan_out, after_last, insert_fan_out, record_each,
  record_publish, publish_body, publish_tx,
}
use novaque.Sqlite.Publish.Fanout.{copies, publish_tx-copies}
use novaque.Prelude.{arith}
use novaque.Prelude.Int.{pos}
use novaque.Store.Types.{PublishOpts}
use novaque.Sqlite.Publish.Window.{Opened, publish_tx-Opened}
use novaque.Sqlite.Publish.Atomic.{publish_tx-atomic}

publishes : (publish_tx calm 1 (9 ∷ []) minute (world (shop waiting))).0 ≡ ok 2
unfolding publish_tx publish_body select_now insert_message message_expiry insert_fan_out fan_out
    after_last message_by_id record_publish record_each record_stat statement transaction
    others_commit finish_tx ◌>>=◌ pure lift update duration_sec delay_sec expires_at_unix
    validate_publish_delay
publishes = refl

publish_tx-copies_example :
    copies 2 1 (publish_tx calm 1 (9 ∷ []) minute (world (shop waiting))).1.db.deliveries ≡ 1
publish_tx-copies_example =
    publish_tx-copies calm 1 (9 ∷ []) minute (world (shop waiting)) 2 1 shop-waiting-IsValid
      publishes

refuses : (publish_tx calm 3 (9 ∷ []) minute (world (shop waiting))).0 ≡ err (engine foreign_key)
unfolding publish_tx publish_body select_now insert_message message_expiry insert_fan_out fan_out
    after_last message_by_id record_publish record_each record_stat statement transaction
    others_commit finish_tx ◌>>=◌ pure lift update duration_sec delay_sec expires_at_unix
    validate_publish_delay
refuses = refl

publish_tx-atomic_example :
    ((publish_tx calm 3 (9 ∷ []) minute (world (shop waiting))).1.db ≡ shop waiting)
    × ((publish_tx calm 3 (9 ∷ []) minute (world (shop waiting))).1.stat_buf ≡ [])
publish_tx-atomic_example =
    publish_tx-atomic calm 3 (9 ∷ []) minute (world (shop waiting)) (engine foreign_key) refuses

abbrev half_minute : PublishOpts
half_minute = record minute { delay = pos 30_000_000_000 }

publishes_later : (publish_tx calm 1 (9 ∷ []) half_minute (world (shop waiting))).0 ≡ ok 2
unfolding publish_tx publish_body select_now insert_message message_expiry insert_fan_out fan_out
    after_last message_by_id record_publish record_each record_stat statement transaction
    others_commit finish_tx ◌>>=◌ pure lift update duration_sec delay_sec expires_at_unix
    validate_publish_delay
publishes_later = refl

publish_tx-Opened_example :
    Opened
      (shop waiting).deliveries
      2
      (publish_tx calm 1 (9 ∷ []) half_minute (world (shop waiting))).1.db.deliveries
publish_tx-Opened_example =
    publish_tx-Opened calm 1 (9 ∷ []) half_minute (world (shop waiting)) 30_000_000_000 2
      shop-waiting-IsValid refl (omega arith) publishes_later

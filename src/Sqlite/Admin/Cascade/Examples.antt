-- ===== src/Sqlite/Admin/Cascade/Examples.antt =====
-- The deletion of the topic of a small database.
use novaque.Prelude.{◌≡◌, refl}
use novaque.Prelude.Int.{pos}
use novaque.Store.Errors.{ok}
use novaque.Action.{pure, update, ◌>>=◌}
use novaque.Sqlite.Engine.{statement, transaction, others_commit, finish_tx}
use novaque.Sqlite.Sink.{discard_topic_stats}
use novaque.Sqlite.Fixture.{calm, waiting, shop, world}
use novaque.Sqlite.Admin.Cascade.{
  delete_topic_messages, delete_channels, delete_topic_stats, delete_topic_row, cascade_steps,
  run_cascade, delete_topic,
}
use novaque.Sqlite.Admin.Cascade.Gone.{Gone, delete_topic-Gone}

deletes : (delete_topic calm (pos 1) (world (shop waiting))).0 ≡ ok tt
unfolding delete_topic run_cascade cascade_steps delete_topic_messages delete_channels
    delete_topic_stats delete_topic_row discard_topic_stats statement transaction others_commit
    finish_tx pure update ◌>>=◌
deletes = refl

delete_topic-Gone_example : Gone 1 (delete_topic calm (pos 1) (world (shop waiting))).1
delete_topic-Gone_example = delete_topic-Gone calm 0 (world (shop waiting)) deletes

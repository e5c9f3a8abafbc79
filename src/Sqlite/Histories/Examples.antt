-- ===== src/Sqlite/Histories/Examples.antt =====
-- A history: a channel is created, a message published, claimed and acked, and the topic deleted.
use novaque.Prelude.{List, [], ◌∷◌}
use novaque.Prelude.Int.{pos}
use novaque.Sqlite.Schema.{empty_db}
use novaque.Sqlite.Invariant.{IsValid, IsValid-empty}
use novaque.Sqlite.Fixture.{calm, calm-OthersValid, world, minute}
use novaque.Sqlite.Histories.{
  Call, ensure_channel, publish, claim, ack, reap_expired_leases, purge_expired, flush_stats,
  delete_topic, run, run-IsValid,
}

abbrev day : List Call
day =
    ensure_channel "orders" "mail"
    ∷ publish (pos 1) (9 ∷ []) minute
    ∷ claim (pos 1) "worker" (pos 0) (pos 10)
    ∷ ack 1 "t1"
    ∷ reap_expired_leases (pos 0)
    ∷ purge_expired (pos 0)
    ∷ flush_stats
    ∷ delete_topic (pos 1)
    ∷ []

run-IsValid_example : IsValid (run calm day (world empty_db)).db
run-IsValid_example = run-IsValid calm calm-OthersValid day (world empty_db) IsValid-empty

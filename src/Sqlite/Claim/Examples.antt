-- ===== src/Sqlite/Claim/Examples.antt =====
-- A claim of one waiting delivery.
use novaque.Prelude.{◌≡◌, refl, ◌≤◌, some, [], ◌∷◌}
use novaque.Prelude.Lists.{All, length, sort_by, insert_by}
use novaque.Store.Errors.{ok}
use novaque.Store.Types.{Delivery, in_flight}
use novaque.Action.{pure, ◌>>=◌}
use novaque.Sqlite.Schema.{topic_by_id, channel_by_id, message_by_id}
use novaque.Sqlite.Engine.{statement, transaction, others_commit, finish_tx}
use novaque.Sqlite.Fixture.{calm, waiting, shop, shop-waiting-IsValid, world}
use novaque.Sqlite.Claim.{
  sec_to_time, poll_ready, lease_ready, join_row, join_rows, load_claimed, last_topic,
  in_claim_order, ClaimTx, claim_result, bury, load_and_bury, claim_leased, claim_body,
  run_claim_tx,
}
use novaque.Sqlite.Claim.Lease.{run_claim_tx-Leased}
use novaque.Sqlite.Claim.Lease.Rows.{Leased}

abbrev pub handed : Delivery
handed = record {
  id = 1;
  message_id = 1;
  channel_id = 1;
  topic = "orders";
  channel = "mail";
  body = 7 ∷ [];
  status = in_flight;
  attempts = 1;
  max_attempts = 5;
  lease_token = "t1";
  available_at = some 900;
  lease_until = some 1030;
}

abbrev tx : ClaimTx
tx = record { out = handed ∷ []; stat_topic = 1; claimed_count = 1; dead_count = 0 }

claims_one : (run_claim_tx calm 1 "worker" 30 10 (world (shop waiting))).0 ≡ ok tx
unfolding run_claim_tx claim_body poll_ready claim_leased lease_ready load_and_bury load_claimed
    join_rows join_row bury claim_result in_claim_order last_topic sec_to_time sort_by insert_by
    statement transaction others_commit finish_tx ◌>>=◌ pure topic_by_id channel_by_id message_by_id
claims_one = refl

run_claim_tx-Leased_example :
    All (Leased (shop waiting).deliveries 1 1000) (handed ∷ []) × (length (handed ∷ []) ≤ 10)
run_claim_tx-Leased_example =
    run_claim_tx-Leased calm 1 "worker" 30 10 (world (shop waiting)) tx shop-waiting-IsValid
      claims_one

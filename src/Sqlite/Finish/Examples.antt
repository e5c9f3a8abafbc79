-- ===== src/Sqlite/Finish/Examples.antt =====
-- Finishes of a delivery that is held with the token "t1".
use novaque.Prelude.{◌≡◌, refl, none, some, []}
use novaque.Store.Errors.{ok, err, lease_mismatch}
use novaque.Sqlite.Engine.{World}
use novaque.Sqlite.Fixture.{calm, waiting, held, shop, world}
use novaque.Sqlite.Finish.{ack, requeue}
use novaque.Sqlite.Finish.Fencing.{ack-outcome, requeue-outcome, ack-after_requeue}

ack-outcome_example :
    ((ack calm 1 "t1" (world (shop (held 1030)))).0 ≡ ok tt)
    × ((ack calm 1 "t1" (world (shop (held 1030)))).1.db
        ≡ record (shop waiting) { deliveries = [] })
ack-outcome_example = ack-outcome calm (world (shop (held 1030))) refl 1 "t1"

requeue-outcome_example :
    ((requeue calm 1 "t2" (some 2000) (world (shop (held 1030)))).0 ≡ err lease_mismatch)
    × ((requeue calm 1 "t2" (some 2000) (world (shop (held 1030)))).1.db ≡ shop (held 1030))
requeue-outcome_example = requeue-outcome calm (world (shop (held 1030))) refl 1 "t2" (some 2000)

abbrev back : World
back = (requeue calm 1 "t1" none (world (shop (held 1030)))).1

ack-after_requeue_example :
    ((ack calm 1 "t1" back).0 ≡ err lease_mismatch) × ((ack calm 1 "t1" back).1.db ≡ back.db)
ack-after_requeue_example =
    ack-after_requeue calm (world (shop (held 1030))) 1 "t1" none (λ n. refl) (λ n db. refl)

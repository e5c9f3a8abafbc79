-- ===== src/Sqlite/Maintenance/Examples.antt =====
-- The reaper on a lease that ended before the clock.
use novaque.Store.Errors.{Result}
use novaque.Prelude.{ℕ, [], ◌∷◌, ◌≡◌, refl, Option, some, ◌==◌}
use novaque.Prelude.Int.{pos}
use novaque.Prelude.Lists.{first, sort_by}
use novaque.Sqlite.Schema.{DeliveryRow}
use novaque.Sqlite.Fixture.{calm, held, shop, shop-held-IsValid, world}
use novaque.Sqlite.Fixture.{waiting}
use novaque.Sqlite.Fixture.Lives.{calm-OthersEvolve}
use novaque.Sqlite.Lifecycle.{SameDelivery, Onward, row_of}
use novaque.Sqlite.Histories.{Call, after, run, run-SameDelivery, run-Onward}
use novaque.Sqlite.Engine.{autocommit, others_commit, statement}
use novaque.Sqlite.Maintenance.{reap, lapsed_ids, reap_expired_leases}

abbrev reaping : Result ℕ
reaping = (reap_expired_leases calm (pos 0) (world (shop (held 990)))).0

abbrev reaped : Option DeliveryRow
reaped =
    first (λ r. r.id == 1)
      (reap_expired_leases calm (pos 0) (world (shop (held 990)))).1.db.deliveries

-- A lease that ended at 990 is reaped at 1000.
reaped_row :
    row_of
      (run calm (Call.reap_expired_leases (pos 0) ∷ []) (world (shop (held 990)))).db.deliveries
      1
    ≡ some (record waiting { available_at = 1000; attempts = 1 })
unfolding run after reap_expired_leases reap lapsed_ids autocommit others_commit statement sort_by
reaped_row = refl

run-SameDelivery_example :
    SameDelivery (held 990) (record waiting { available_at = 1000; attempts = 1 })
run-SameDelivery_example =
    run-SameDelivery calm calm-OthersEvolve (Call.reap_expired_leases (pos 0) ∷ [])
      (world (shop (held 990))) 1 (held 990) (record waiting { available_at = 1000; attempts = 1 })
      (shop-held-IsValid 990) refl reaped_row

run-Onward_example : Onward (held 990) (record waiting { available_at = 1000; attempts = 1 })
run-Onward_example =
    run-Onward calm 1 calm-OthersEvolve (Call.reap_expired_leases (pos 0) ∷ [])
      (world (shop (held 990))) (held 990) (record waiting { available_at = 1000; attempts = 1 })
      (shop-held-IsValid 990) (tt, tt) refl reaped_row

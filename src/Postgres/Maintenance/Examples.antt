-- ===== src/Postgres/Maintenance/Examples.antt =====
-- A reaper beside a worker that renews its lease while the UPDATE waits for the row.
use novaque.Prelude.{◌≡◌, refl, ◌⊎◌, true, some}
use novaque.Prelude.Int.{pos}
use novaque.Sqlite.Fixture.{held, shop, world}
use novaque.Sqlite.Lifecycle.{row_of}
use novaque.Sqlite.Finish.{release_row}
use novaque.Sqlite.Maintenance.{lapsed}
use novaque.Server.Engine.{Server}
use novaque.Server.Fixture.{calm_server}
use novaque.Postgres.Maintenance.{reap_expired_leases}
use novaque.Postgres.Maintenance.Recheck.{reap_expired_leases-rechecks}

-- For the subquery the lease ended at 990; it now ends at 1030.
abbrev renewing : Server
renewing = record calm_server { meanwhile = λ n db. shop (held 1030) }

reap_expired_leases-rechecks_example :
    let after =
      row_of (reap_expired_leases renewing (pos 10) (world (shop (held 990)))).1.db.deliveries 1 in
    (after ≡ some (held 1030))
    ⊎ ((lapsed 1000 (held 1030) ≡ true) × (after ≡ some (release_row 1000 (held 1030))))
reap_expired_leases-rechecks_example =
    reap_expired_leases-rechecks renewing (pos 10) (world (shop (held 990))) 1 (held 1030) refl refl

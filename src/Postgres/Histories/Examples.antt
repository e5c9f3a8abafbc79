-- ===== src/Postgres/Histories/Examples.antt =====
-- A history on PostgreSQL: the reaper releases a lease that ended at 990.
use novaque.Prelude.{List, [], ◌∷◌}
use novaque.Prelude.Int.{pos}
use novaque.Sqlite.Schema.{DeliveryRow}
use novaque.Sqlite.Engine.{World}
use novaque.Sqlite.Fixture.{world, shop, waiting, held}
use novaque.Sqlite.Histories.{Call}
use novaque.Server.Histories.{run_calls}
use novaque.Server.Fixture.{calm_server, binary_postgres}
use novaque.Postgres.Maintenance.{reap_expired_leases}
use novaque.Postgres.Driver.{postgres_store}

abbrev evening : List Call
evening = Call.reap_expired_leases (pos 0) ∷ []

abbrev night : World
night = run_calls (postgres_store binary_postgres calm_server) evening (world (shop (held 990)))

abbrev released : DeliveryRow
released = record waiting { available_at = 1000; attempts = 1 }

-- ===== src/Server/Finish/Examples.antt =====
-- An ack whose delivery is reaped between the lookup and the DELETE.
use novaque.Prelude.{◌≡◌, refl, ◌==◌, if◌then◌else◌}
use novaque.Store.Errors.{err, lease_mismatch}
use novaque.Sqlite.Engine.{World}
use novaque.Sqlite.Fixture.{calm, waiting, held, shop, world}
use novaque.Server.Engine.{Server}
use novaque.Server.Fixture.{calm_server, binary_mysql}
use novaque.Server.Finish.{ack}
use novaque.Server.Finish.Outcome.{ack-outcome_server}

-- Another process takes the lease away before the second statement.
abbrev reaped_between : Server
reaped_between = record calm_server {
  env = record calm { others = λ n db. if n == 0 then db else shop waiting };
}

abbrev reaped : World
reaped = world (shop waiting)

ack-outcome_server_example :
    ack binary_mysql reaped_between 1 "t1" (world (shop (held 1030)))
    ≡ (err lease_mismatch, record reaped { calls = 2 })
ack-outcome_server_example =
    ack-outcome_server binary_mysql reaped_between (world (shop (held 1030))) 1 "t1" refl refl

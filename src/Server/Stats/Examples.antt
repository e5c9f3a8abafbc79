-- ===== src/Server/Stats/Examples.antt =====
-- A prune of one bucket that is long past, in a table of two.
use novaque.Prelude.{refl}
use novaque.Prelude.Int.{pos}
use novaque.Sqlite.Fixture.{world}
use novaque.Sqlite.Stats.Prune.{Accounts}
use novaque.Sqlite.Stats.Examples.{two_days, at_day}
use novaque.Server.Engine.{Server}
use novaque.Server.Fixture.{calm_server, binary_postgres}
use novaque.Server.Stats.{prune_stats}
use novaque.Server.Stats.Prune.{prune_stats-Accounts_server}

abbrev server_at_day : Server
server_at_day = record calm_server { env = at_day }

prune_stats-Accounts_server_example :
    Accounts 2 0 (prune_stats binary_postgres server_at_day (pos 30) (world two_days))
prune_stats-Accounts_server_example =
    prune_stats-Accounts_server binary_postgres server_at_day (λ n. refl) (λ n db. refl) 29
      (world two_days)

-- ===== src/Server/Fixture.antt =====
-- A quiet engine and the two dialects, for the examples.
use novaque.Prelude.{String, Bool, false, refl, str_eq, arith}
use novaque.Sqlite.Fixture.{calm}
use novaque.Sqlite.Lifecycle.{Tracing}
use novaque.Sqlite.Evolution.{Evolves-Preorder}
use novaque.Sqlite.Stats.{bucket_earlier}
use novaque.Sqlite.Admin.Listings.{codes_leb}
use novaque.Prelude.Text.{codes}
use novaque.Server.Engine.{Server, Dialect}
use novaque.Server.Engine.Rules.{OthersKeep}
use novaque.Postgres.Driver.{postgres}
use novaque.Mysql.Driver.{mysql}

-- Nothing fails, no one else is there, and no row is locked elsewhere.
abbrev pub calm_server : Server
calm_server = record {
  env = calm;
  beside = λ n ids db. db;
  held_elsewhere = λ n i. false;
  meanwhile = λ n db. db;
}

pub calm_server-OthersKeep : {traced : Tracing} → OthersKeep traced calm_server
calm_server-OthersKeep {traced} = record {
  alone = record { keep = λ n db. (Evolves-Preorder traced).same db };
  beside = λ n ids db. (Evolves-Preorder traced).same db;
  meanwhile = λ n db. (Evolves-Preorder traced).same db;
  locks = λ n ids db i m. refl;
  clock = λ n m h. omega arith;
}

abbrev name_order : String → String → Bool
name_order a b = codes_leb (codes a) (codes b)

abbrev pub binary_postgres : Dialect
binary_postgres = postgres name_order bucket_earlier

abbrev pub binary_mysql : Dialect
binary_mysql = mysql str_eq name_order bucket_earlier

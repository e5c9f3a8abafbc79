-- ===== src/Mysql/Publish.antt =====
-- driver/mysql/mysql.go, Publish: the same steps as in driver/postgres; the expiry is computed
-- in the insert.
use novaque.Prelude.{ℕ, List}
use novaque.Prelude.Int.{ℤ}
use novaque.Store.Types.{PublishOpts}
use novaque.Action.{Action}
use novaque.Sqlite.Engine.{World}
use novaque.Server.Engine.{Server, Dialect}
use novaque.Server.Publish

module _ (dialect : Dialect) (server : Server) where
  abbrev pub publish : ℤ → List ℕ → PublishOpts → Action World ℕ
  publish = Publish.publish dialect server

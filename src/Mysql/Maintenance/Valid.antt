-- ===== src/Mysql/Maintenance/Valid.antt =====
-- The reaper and the purge keep the database well-formed.
use novaque.Prelude.Int.{ℤ}
use novaque.Prelude.{ℕ}
use novaque.Sqlite.Engine.Rules.{Safe}
use novaque.Sqlite.Lifecycle.{Tracing}
use novaque.Sqlite.Evolution.{Evolves, IsLawful, IsLawful-autocommit}
use novaque.Sqlite.Maintenance.Valid.{reap-Safe, delete_messages-Safe}
use novaque.Server.Engine.{Server}
use novaque.Server.Engine.Rules.{OthersKeep}
use novaque.Server.Maintenance.Valid.{purge_with-IsLawful}
use novaque.Mysql.Maintenance.{delete_orphan_batch, reap_expired_leases, purge_expired}

module _ {traced : Tracing} where
  delete_orphan_batch-Safe : (limit : ℕ) → Safe (Evolves traced) (delete_orphan_batch limit)
  unfolding delete_orphan_batch
  delete_orphan_batch-Safe limit = record { step = λ t db. (delete_messages-Safe _).step t db }

  module _ (server : Server) (keeps : OthersKeep traced server) where
    pub reap_expired_leases-IsLawful :
        (limit : ℤ) → IsLawful traced (reap_expired_leases server limit)
    unfolding reap_expired_leases
    reap_expired_leases-IsLawful limit = IsLawful-autocommit server.env keeps.alone _ (reap-Safe _)

    pub purge_expired-IsLawful : (limit : ℤ) → IsLawful traced (purge_expired server limit)
    unfolding purge_expired
    purge_expired-IsLawful limit =
        purge_with-IsLawful server keeps _ limit
          (λ n. IsLawful-autocommit server.env keeps.alone _ (delete_orphan_batch-Safe n))

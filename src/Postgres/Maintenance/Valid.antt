-- ===== src/Postgres/Maintenance/Valid.antt =====
-- The reaper and the purge keep the database well-formed.
use novaque.Prelude.Int.{ℤ}
use novaque.Prelude.{ℕ}
use novaque.Sqlite.Lifecycle.{Tracing}
use novaque.Sqlite.Evolution.{IsLawful}
use novaque.Sqlite.Maintenance.Valid.{delete_messages-Safe}
use novaque.Server.Engine.{Server}
use novaque.Server.Engine.Rules.{OthersKeep, IsLawful-split}
use novaque.Server.Maintenance.Valid.{release_lapsed-Safe, purge_with-IsLawful}
use novaque.Postgres.Maintenance.{reap_expired_leases, delete_orphans, purge_expired}

module _ {traced : Tracing} (server : Server) (keeps : OthersKeep traced server) where
  pub reap_expired_leases-IsLawful :
      (limit : ℤ) → IsLawful traced (reap_expired_leases server limit)
  unfolding reap_expired_leases
  reap_expired_leases-IsLawful limit = IsLawful-split server keeps _ _ release_lapsed-Safe

  delete_orphans-IsLawful : (limit : ℕ) → IsLawful traced (delete_orphans server limit)
  unfolding delete_orphans
  delete_orphans-IsLawful limit = IsLawful-split server keeps _ _ delete_messages-Safe

  pub purge_expired-IsLawful : (limit : ℤ) → IsLawful traced (purge_expired server limit)
  unfolding purge_expired
  purge_expired-IsLawful limit =
      purge_with-IsLawful server keeps (delete_orphans server) limit delete_orphans-IsLawful

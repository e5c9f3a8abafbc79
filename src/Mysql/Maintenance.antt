-- ===== src/Mysql/Maintenance.antt =====
-- driver/mysql/maintenance.go: the reaper is one bounded UPDATE, and the orphans go in one DELETE.
pub mod Valid
use novaque.Prelude.{ℕ}
use novaque.Prelude.Int.{ℤ, positive_or}
use novaque.Action.{Action}
use novaque.Sqlite.Engine.{World, Stmt, autocommit}
use novaque.Sqlite.Maintenance.{reap, select_orphans, delete_messages}
use novaque.Server.Engine.{Server, ids_of}
use novaque.Server.Maintenance.{purge_with}

pub delete_orphan_batch : ℕ → Stmt ℕ
delete_orphan_batch limit t db = delete_messages (ids_of (select_orphans limit t db).0) t db

module _ (server : Server) where
  unfoldable pub reap_expired_leases : ℤ → Action World ℕ
  reap_expired_leases limit = autocommit server.env (reap (positive_or 100 limit))

  pub purge_expired : ℤ → Action World ℕ
  unfolding delete_orphan_batch
  purge_expired limit = purge_with server (λ n. autocommit server.env (delete_orphan_batch n)) limit

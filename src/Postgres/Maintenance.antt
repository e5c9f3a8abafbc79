-- ===== src/Postgres/Maintenance.antt =====
-- driver/postgres/maintenance.go: the reaper and the deletion of orphans are statements with a
-- subquery, whose rows may change before they are written.
pub mod Valid
pub mod Recheck
mod Examples
use novaque.Prelude.{ℕ}
use novaque.Prelude.Int.{ℤ, positive_or}
use novaque.Action.{Action}
use novaque.Sqlite.Engine.{World}
use novaque.Sqlite.Maintenance.{lapsed_ids, select_orphans, delete_messages}
use novaque.Server.Engine.{Server, split_statement, ids_of}
use novaque.Server.Maintenance.{release_lapsed, purge_with}

module _ (server : Server) where
  -- The outer WHERE repeats the test of the subquery.
  unfoldable pub reap_expired_leases : ℤ → Action World ℕ
  reap_expired_leases limit =
      split_statement server (λ t db. lapsed_ids (positive_or 100 limit) t.now db.deliveries)
        release_lapsed

  pub delete_orphans : ℕ → Action World ℕ
  delete_orphans limit =
      split_statement server (λ t db. ids_of (select_orphans limit t db).0) delete_messages

  pub purge_expired : ℤ → Action World ℕ
  unfolding delete_orphans
  purge_expired limit = purge_with server delete_orphans limit

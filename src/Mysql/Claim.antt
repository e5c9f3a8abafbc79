-- ===== src/Mysql/Claim.antt =====
-- driver/mysql/claim.go: Claim leases the polled rows one by one.
pub mod Valid
pub mod Offered
pub mod Batch
mod Examples
use novaque.Prelude.{ℕ, String, Bool, ◌&&◌, List, [], ◌∷◌, ◌==◌, if◌then◌else◌, Option}
use novaque.Prelude.Int.{ℤ}
use novaque.Prelude.Lists.{length, select, modify}
use novaque.Store.Errors.{ok}
use novaque.Store.Types.{Delivery}
use novaque.Action.{Action, pure, ◌>>=◌}
use novaque.Sqlite.Schema.{DeliveryRow, is_pending}
use novaque.Sqlite.Engine.{World, Stmt}
use novaque.Sqlite.Claim.{lease_row}
use novaque.Server.Engine.{Server, Dialect, Session, query}
use novaque.Server.Claim.{Leases, claim_with}
use novaque.Server.Finish

-- WHERE id = ? AND status = 'pending'
abbrev pub leasable : ℕ → DeliveryRow → Bool
leasable i d = d.id == i && is_pending d.status

-- The number of rows affected, and the token that was made.
pub lease_one : String → ℕ → ℕ → Stmt (ℕ × String)
lease_one owner sec i t db = (
  ok (length (select (leasable i) db.deliveries), t.blob i),
  record db { deliveries = modify (leasable i) (lease_row owner sec t.now t.blob) db.deliveries },
)

module _ (server : Server) where
  -- A row that is not affected is left out.
  pub lease_each : String → ℕ → List ℕ → Action Session Leases
  unfolding lease_one
  lease_each owner sec [] = pure []
  lease_each owner sec (i ∷ is) = do
    (n, token) ← query server (lease_one owner sec i)
    rest ← lease_each owner sec is
    pure (if n == 0 then rest else (i, token) ∷ rest)

module _ (dialect : Dialect) (server : Server) where
  pub claim : ℤ → String → ℤ → ℤ → Action World (List Delivery)
  unfolding lease_each
  claim channel owner lease_for limit =
      claim_with dialect server (lease_each server owner) channel lease_for limit

  abbrev pub ack : ℕ → String → Action World (Unit {0})
  ack = Finish.ack dialect server

  abbrev pub requeue : ℕ → String → Option ℕ → Action World (Unit {0})
  requeue = Finish.requeue dialect server

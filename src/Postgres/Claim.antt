-- ===== src/Postgres/Claim.antt =====
-- driver/postgres/claim.go: one UPDATE leases every polled row that is still pending.
pub mod Valid
pub mod Offered
mod Examples
use novaque.Prelude.{ℕ, String, Bool, ◌&&◌, List, map}
use novaque.Prelude.Int.{ℤ}
use novaque.Prelude.Lists.{select, modify, elem}
use novaque.Store.Errors.{ok}
use novaque.Store.Types.{Delivery}
use novaque.Action.{Action}
use novaque.Sqlite.Schema.{DeliveryRow, is_pending}
use novaque.Sqlite.Engine.{World, Stmt}
use novaque.Sqlite.Claim.{lease_row}
use novaque.Server.Engine.{Server, Dialect, query}
use novaque.Server.Claim.{Leases, claim_with}

-- WHERE d.id = v.claim_id AND d.status = 'pending'
abbrev pub leasable : List ℕ → DeliveryRow → Bool
leasable ids d = elem d.id ids && is_pending d.status

-- The rows that moved, in the order of the poll, with the tokens that were made for them.
unfoldable pub lease_all : String → ℕ → List ℕ → Stmt Leases
lease_all owner sec ids t db =
    let moved = map (λ d. d.id) (select (leasable ids) db.deliveries) in
    (
      ok (map (λ i. (i, t.blob i)) (select (λ i. elem i moved) ids)),
      record db {
        deliveries = modify (leasable ids) (lease_row owner sec t.now t.blob) db.deliveries;
      },
    )

module _ (dialect : Dialect) (server : Server) where
  pub claim : ℤ → String → ℤ → ℤ → Action World (List Delivery)
  unfolding lease_all
  claim channel owner lease_for limit =
      claim_with dialect server (λ sec ids. query server (lease_all owner sec ids)) channel
        lease_for limit

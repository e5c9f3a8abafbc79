-- ===== src/Sqlite/Maintenance/Running.antt =====
-- What the reaper does to a lease.
use novaque.Prelude.{ℕ, ◌≡◌, sym, ◌∙◌, true, some, ◌==◌}
use novaque.Prelude.Lists.{select, first, elem, sort_by}
use novaque.Prelude.Rows.{All-first}
use novaque.Prelude.Keys.{selected_test, elem-take, elem-sort_by}
use novaque.Sqlite.Schema.{Db, DeliveryRow}
use novaque.Sqlite.Invariant.{IsValid}
use novaque.Sqlite.Maintenance.{lapsed, lease_earlier, lapsed_ids}

-- A row whose id is in the batch has lapsed.
pub batch-lapsed :
    (limit now i : ℕ) (db : Db) (d : DeliveryRow)
    → IsValid db
    → first (λ r. r.id == i) db.deliveries ≡ some d
    → elem d.id (lapsed_ids limit now db.deliveries) ≡ true
    → lapsed now d ≡ true
unfolding lapsed_ids
batch-lapsed limit now i db d v h m =
    let ds = db.deliveries in
    (All-first _ (λ r. r.id == i) ds d
        (selected_test (λ r. r.id) (lapsed now) 1 ds _ v.delivery_ids) h).1
      (sym (elem-sort_by (λ r. r.id) lease_earlier d.id (select (lapsed now) ds))
        ∙ elem-take (λ r. r.id) d.id limit (sort_by lease_earlier (select (lapsed now) ds)) m)

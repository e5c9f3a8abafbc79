-- ===== src/Postgres/Maintenance/Recheck.antt =====
-- A lease that is renewed while the reaper's UPDATE runs.
use novaque.Prelude.{ℕ, ◌≡◌, refl, ◌∙◌, ◌⊎◌, inl, inr, true, ◌&&◌, none, some, Bool-cases, ap}
use novaque.Prelude.Int.{ℤ, positive_or}
use novaque.Prelude.Lists.{elem}
use novaque.Prelude.Keys.{and_right}
use novaque.Sqlite.Schema.{DeliveryRow}
use novaque.Sqlite.Engine.{World, Tick}
use novaque.Sqlite.Schema.{Db}
use novaque.Sqlite.Engine.Rules.{autocommit-up}
use novaque.Sqlite.Finish.{release_row}
use novaque.Sqlite.Lifecycle.{row_of}
use novaque.Sqlite.Evolution.Rows.{row-modify}
use novaque.Sqlite.Maintenance.{lapsed, lapsed_ids}
use novaque.Server.Engine.{Server, split_statement}
use novaque.Server.Maintenance.{release_lapsed}
use novaque.Postgres.Maintenance.{reap_expired_leases}

-- Unless the engine fails, whatever others commit between the subquery of the reaper and its writes,
-- each row is afterwards as they left it, or it had lapsed as they left it, whatever it was for the
-- subquery, and is pending and available at once.
pub reap_expired_leases-rechecks :
    (server : Server) (limit : ℤ) (w : World) (i : ℕ) (d : DeliveryRow)
    → server.env.fault w.calls ≡ none
    → let now = server.env.clock w.calls in
      let left = server.meanwhile w.calls (server.env.others w.calls w.db) in
      row_of left.deliveries i ≡ some d
      → let after = row_of (reap_expired_leases server limit w).1.db.deliveries i in
        (after ≡ some d) ⊎ ((lapsed now d ≡ true) × (after ≡ some (release_row now d)))
unfolding reap_expired_leases split_statement release_lapsed
reap_expired_leases-rechecks server limit w i d up h =
    let now = server.env.clock w.calls in
    let seen = server.env.others w.calls w.db in
    let left = server.meanwhile w.calls seen in
    let ids = lapsed_ids (positive_or 100 limit) now seen.deliveries in
    let both = λ (t : Tick) (db : Db).
      release_lapsed (lapsed_ids (positive_or 100 limit) t.now db.deliveries) t
        (server.meanwhile w.calls db) in
    let ran = ap (λ r. row_of r.1.db.deliveries i) (autocommit-up server.env both w up) in
    let changed =
      row-modify i (λ r. elem r.id ids && lapsed now r) (release_row now) left.deliveries d
        (λ x. refl) h in
    elim (Bool-cases (elem d.id ids && lapsed now d)) [
      | inl e ↦ inr (and_right (elem d.id ids) (lapsed now d) e, ran ∙ changed ∙ rw e refl)
      | inr e ↦ inl (ran ∙ changed ∙ rw e refl)
    ]

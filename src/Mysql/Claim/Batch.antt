-- ===== src/Mysql/Claim/Batch.antt =====
-- The UPDATEs of MySQL, one by one, beside the one UPDATE of PostgreSQL.
mod Rows
use novaque.Prelude.{
  ℕ, zero, suc, String, ◌≡◌, refl, sym, ap, ◌∙◌, inl, inr, Bool, true, false, ◌&&◌, ◌||◌, not, none,
  List, [], ◌∷◌, map, ◌==◌, if◌then◌else◌, arith, Bool-cases,
}
use novaque.Prelude.Lists.{length, select, modify, elem, exists}
use novaque.Store.Errors.{Result, ok}
use novaque.Action.{pure, >>=-ok}
use novaque.Sqlite.Schema.{Db, DeliveryRow, is_pending}
use novaque.Sqlite.Engine.{World, Tick, Stmt, settle, tick_at, statement}
use novaque.Sqlite.Claim.{lease_row}
use novaque.Server.Engine.{Server, Session, meet_others, query}
use novaque.Server.Claim.{Leases}
use novaque.Mysql.Claim.{leasable, lease_one, lease_each}
use novaque.Postgres.Claim
use novaque.Mysql.Claim.Batch.Rows.{answer, answer-split, lease_rows-split, lease_rows-none}

-- No engine call fails, no one else is there, and neither the clock nor the tokens depend on the call.
pub record Quiet (server : Server) : Type 0 where
  pub up : (n : ℕ) → server.env.fault n ≡ none
  pub alone : (n : ℕ) (ids : List ℕ) (db : Db) → server.beside n ids db ≡ db
  pub still : (n : ℕ) → tick_at server.env n ≡ tick_at server.env 0

abbrev pub Distinct : List ℕ → Type 0
Distinct [] = Unit
Distinct (i ∷ is) = (elem i is ≡ false) × Distinct is

module _ (server : Server) (q : Quiet server) (owner : String) (sec : ℕ) where
  abbrev t : Tick
  t = tick_at server.env 0

  query-quiet :
      {A : Type 0} (f : Stmt A) (s : Session)
      → ((query server f s).0 ≡ (f t s.world.db).0)
        × ((query server f s).1.world.db ≡ settle s.world.db (f t s.world.db))
  unfolding query meet_others statement
  query-quiet f s =
      let n = s.world.calls in
      let db = s.world.db in
      let ran = statement-up f (record s.world { db = server.beside n s.locked db }) (q.up n) in
      (
        ap (λ r. r.0) ran
            ∙ ap (λ b. (f (tick_at server.env n) b).0) (q.alone n s.locked db)
            ∙ ap (λ at. (f at db).0) (q.still n),
        ap (λ r. r.1.db) ran
            ∙ ap (λ b. settle b (f (tick_at server.env n) b)) (q.alone n s.locked db)
            ∙ ap (λ at. settle db (f at db)) (q.still n),
      )
    where
      statement-up :
          {A : Type 0} (f : Stmt A) (w : World)
          → server.env.fault w.calls ≡ none
          → statement server.env f w ≡ (
            (f (tick_at server.env w.calls) w.db).0,
            record w {
              db = settle w.db (f (tick_at server.env w.calls) w.db);
              calls = suc w.calls;
            },
          )
      statement-up f w up = rw (statement, up) refl

  each-answer :
      (ids : List ℕ) (s : Session)
      → Distinct ids
      → let ds = s.world.db.deliveries in
        let ran = lease_each server owner sec ids s in
        (ran.0 ≡ ok (answer owner sec t.now t.blob ids ds))
        × (ran.1.world.db ≡ record s.world.db {
          deliveries = modify (Claim.leasable ids) (lease_row owner sec t.now t.blob) ds;
        })
  unfolding lease_each lease_one pure
  each-answer [] s distinct = (
    refl,
    ap (λ ds. record s.world.db { deliveries = ds })
        (sym (lease_rows-none owner sec t.now t.blob s.world.db.deliveries)),
  )
  each-answer (i ∷ is) s distinct =
      let ds = s.world.db.deliveries in
      let one = query server (lease_one owner sec i) in
      let got = query-quiet (lease_one owner sec i) s in
      let s1 = (one s).1 in
      let ih = each-answer is s1 distinct.1 in
      let s2 = (lease_each server owner sec is s1).1 in
      let run =
        >>=-ok one _ s s1 (length (select (leasable i) ds), t.blob i)
          (ap (λ (r : Result (ℕ × String)). (r, s1)) got.0)
        ∙ >>=-ok (lease_each server owner sec is) _ s1 s2 _
            (ap (λ (r : Result Leases). (r, s2)) ih.0) in
      (
        ap (λ r. r.0) run
            ∙ ap
                (λ (db : Db). ok (
                  if length (select (leasable i) ds) == 0
                  then answer owner sec t.now t.blob is db.deliveries
                  else (i, t.blob i) ∷ answer owner sec t.now t.blob is db.deliveries))
                got.1
            ∙ ap ok (answer-split owner sec t.now t.blob i is ds distinct.0),
        ap (λ r. r.1.world.db) run
            ∙ ih.1
            ∙ ap
                (λ (db : Db). record db {
                  deliveries =
                      modify (Claim.leasable is) (lease_row owner sec t.now t.blob) db.deliveries;
                })
                got.1
            ∙ ap (λ rows. record s.world.db { deliveries = rows })
                (lease_rows-split owner sec t.now t.blob i is ds),
      )

  -- On an engine where no call fails, without others, and with a standing clock and tokens that depend on
  -- the row only, the UPDATEs of the MySQL driver, one for each of different ids, give the same leases and
  -- the same database as the one UPDATE of the PostgreSQL driver.
  pub lease_each-Batch :
      (ids : List ℕ) (s : Session)
      → Distinct ids
      → let each = lease_each server owner sec ids s in
        let all = query server (Claim.lease_all owner sec ids) s in
        (each.0 ≡ all.0) × (each.1.world.db ≡ all.1.world.db)
  unfolding Claim.lease_all
  lease_each-Batch ids s distinct =
      let each = each-answer ids s distinct in
      let all = query-quiet (Claim.lease_all owner sec ids) s in
      (each.0 ∙ sym all.0, each.1 ∙ sym all.1)

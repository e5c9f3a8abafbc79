-- ===== src/Sqlite/Claim/Bury.antt =====
-- A claim buries only rows over their cap.
use novaque.Sqlite.Lifecycle.{Tracing}
use novaque.Prelude.{
  ℕ, String, ◌≡◌, refl, sym, subst, ◌∙◌, inl, inr, Bool, true, false, some, List, [], ◌∷◌, ltb,
  ◌==◌, if◌then◌else◌, ==_iff, Bool-cases, ap,
}
use novaque.Prelude.Lists.{All, select, elem, is_empty}
use novaque.Prelude.Rows.{All-select, first-test}
use novaque.Prelude.Keys.{first_self}
use novaque.Store.Errors.{ok}
use novaque.Action.{pure}
use novaque.Action.Follows.{bind-follows}
use novaque.Sqlite.Schema.{Db, DeliveryRow}
use novaque.Sqlite.Engine.{Env, World, Tick, tick_at, statement}
use novaque.Sqlite.Engine.Rules.{OnDb, OnDb-Preorder, statement-eq-ok, statement-follows}
use novaque.Sqlite.Invariant.{IsValid, IsValid-modify_deliveries}
use novaque.Sqlite.Lifecycle.{row_of, buried}
use novaque.Sqlite.Evolution.{
  Evolves, Evolves-Preorder, Evolves-modify, IsLawful, IsLawful-pure, IsLawful-statement, Safe-read,
  same_row,
}
use novaque.Sqlite.Claim.{
  Joined, join_rows, load_claimed, poisoned, mark_dead, dead_ids, claim_result, bury, load_and_bury,
}
use novaque.Sqlite.Claim.Lease.Rows.{join_row-copies, join_rows-All}

-- A joined row and the row of its id.
pub record Carries (ds : List DeliveryRow) (j : Joined) : Type 0 where
  row : DeliveryRow
  found : row_of ds j.1.id ≡ some row
  attempts : j.1.attempts ≡ row.attempts
  max_attempts : j.1.max_attempts ≡ row.max_attempts

pub dead_ids-over :
    (ds : List DeliveryRow) (js : List Joined) (i : ℕ) (d : DeliveryRow)
    → All (Carries ds) js
    → row_of ds i ≡ some d
    → elem i (dead_ids js) ≡ true
    → ltb d.max_attempts d.attempts ≡ true
dead_ids-over ds [] i d c h m = absurd (cc)
dead_ids-over ds (j ∷ js) i d c h m = elim (Bool-cases (poisoned j)) [
  | inl e ↦ elim (Bool-cases (i == j.1.id)) [
    | inl s ↦
        let same : i ≡ j.1.id = (==_iff i j.1.id).0 s in
        let row : c.0.row ≡ d = same_row c.0.found (sym (ap (λ n. row_of ds n) same) ∙ h) in
        subst (λ (r : DeliveryRow). ltb r.max_attempts r.attempts ≡ true) row (over c.0 e)
    | inr s ↦ dead_ids-over ds js i d c.1 h (rw (e, s) at m)
  ]
  | inr e ↦ dead_ids-over ds js i d c.1 h (rw e at m)
]
  where
    over : (c : Carries ds j) → poisoned j ≡ true → ltb c.row.max_attempts c.row.attempts ≡ true
    over c e = rw (sym c.attempts, sym c.max_attempts) e

pub loaded-Carries :
    (db : Db) (p : DeliveryRow → Bool)
    → IsValid db
    → All (Carries db.deliveries) (join_rows db (select p db.deliveries))
loaded-Carries db p v =
    join_rows-All _ _ db _
      (λ d j e h.
        let same = join_row-copies db d j e in
        record {
          row = d;
          found = ap (λ n. row_of db.deliveries n) same.0 ∙ h;
          attempts = same.1;
          max_attempts = same.2;
        })
      (All-select _ p db.deliveries (first_self (λ d. d.id) 1 db.deliveries _ v.delivery_ids))

module _ {traced : Tracing} where
  mark_dead-Evolves :
      (p : DeliveryRow → Bool) (js : List Joined) (t : Tick) (db : Db)
      → js ≡ join_rows db (select p db.deliveries)
      → Evolves traced db (mark_dead (dead_ids js) t db).1
  unfolding mark_dead
  mark_dead-Evolves p js t db read =
      Evolves-modify db _
        (IsValid-modify_deliveries _ _ db (λ d. refl) (λ d. refl) (λ d. refl)
          (λ d h. (refl, refl, refl)))
        _ _ refl refl (λ d. refl)
        (λ v i d found h.
          let named : d.id ≡ i =
            (==_iff d.id i).0 (first-test (λ r. r.id == i) db.deliveries d found) in
          buried d (
            dead_ids-over db.deliveries js i d
              (subst (All (Carries db.deliveries)) (sym read) (loaded-Carries db p v)) found
              (rw named at h)))

  -- The rows to bury are those that were read in the statement before.
  pub load_and_bury-IsLawful :
      (env : Env) (channel : ℕ) (owner : String) (sec limit : ℕ) (claimed : List ℕ)
      → IsLawful traced (load_and_bury env channel owner sec limit claimed)
  unfolding load_and_bury bury load_claimed
  load_and_bury-IsLawful env channel owner sec limit claimed = record {
    at = λ w.
        let o = OnDb-Preorder (Evolves-Preorder traced) in
        let load = statement env (load_claimed claimed) in
        bind-follows o load _ w
          ((IsLawful-statement env (load_claimed claimed) (Safe-read _ (λ t db. refl))).at w)
          (λ rows ran.
            let w' = (load w).1 in
            let read = statement-eq-ok env (load_claimed claimed) w rows ran in
            let ran_rows : ok (join_rows w.db (select (λ d. elem d.id claimed) w.db.deliveries))
                ≡ ok rows =
              read.0 in
            let read_db : rows ≡ join_rows w.db (select (λ d. elem d.id claimed) w.db.deliveries) =
              cc in
            let same_db : w'.db ≡ w.db = ap (λ x. x.db) read.1 in
            let rows_read : rows
                ≡ join_rows w'.db (select (λ d. elem d.id claimed) w'.db.deliveries) =
              subst
                (λ (db : Db). rows ≡ join_rows db (select (λ d. elem d.id claimed) db.deliveries))
                (sym same_db) read_db in
            bind-follows o (bury env channel owner sec limit (dead_ids rows)) _ w'
              (buries env w' (is_empty (dead_ids rows)) (dead_ids rows) (
                mark_dead-Evolves (λ d. elem d.id claimed) rows (tick_at env w'.calls) w'.db
                  rows_read))
              (λ _ _. (IsLawful-pure (claim_result claimed rows)).at _));
  }
    where
      buries :
          (env : Env) (w : World) (none_dead : Bool) (ids : List ℕ)
          → Evolves traced w.db (mark_dead ids (tick_at env w.calls) w.db).1
          → OnDb
              (Evolves traced)
              w
              ((if none_dead then pure tt else statement env (mark_dead ids)) w).1
      buries env w true ids h = (IsLawful-pure tt).at w
      buries env w false ids h = statement-follows (Evolves-Preorder traced) env (mark_dead ids) w h

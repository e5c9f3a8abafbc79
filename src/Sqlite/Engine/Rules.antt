-- ===== src/Sqlite/Engine/Rules.antt =====
-- What statements and transactions do to the database, by the relation that each statement follows.
use novaque.Prelude.{ℕ, suc, ◌≡◌, refl, ap, none, Option-cases, inl, inr}
use novaque.Store.Errors.{Error, Result, ok, err, engine}
use novaque.Action.{Action}
use novaque.Action.Follows.{Preorder, Follows}
use novaque.Sqlite.Schema.{Db}
use novaque.Sqlite.Engine.{
  Env, World, Tick, tick_at, Stmt, settle, statement, others_commit, autocommit, finish_tx,
  transaction,
}

-- A relation of databases, read on worlds.
pub record OnDb (R : Db → Db → Type 0) (w w' : World) : Type 0 where
  pub holds : R w.db w'.db

pub OnDb-Preorder : {R : Db → Db → Type 0} → Preorder R → Preorder (OnDb R)
OnDb-Preorder o = record {
  same = λ w. record { holds = o.same w.db };
  chain = λ h k. record { holds = o.chain h.holds k.holds };
}

-- A statement's changes follow `R`.
pub record Safe {A : Type 0} (R : Db → Db → Type 0) (f : Stmt A) : Type 0 where
  pub step : (t : Tick) (db : Db) → R db (f t db).1

module _ {R : Db → Db → Type 0} (o : Preorder R) where
  settle-follows : {A : Type 0} (old : Db) (r : Result A × Db) → R old r.1 → R old (settle old r)
  settle-follows old (ok a, new) h = h
  settle-follows old (err e, new) h = o.same old

  module _ (env : Env) where
    pub statement-follows :
        {A : Type 0} (f : Stmt A) (w : World)
        → R w.db (f (tick_at env w.calls) w.db).1
        → OnDb R w (statement env f w).1
    unfolding statement
    statement-follows f w h = elim (Option-cases (env.fault w.calls)) [
      | inl e ↦
          rw (e, statement)
            (record { holds = settle-follows w.db (f (tick_at env w.calls) w.db) h })
      | inr (x, e) ↦ rw (e, statement) (record { holds = o.same w.db })
    ]

    pub Follows-statement :
        {A : Type 0} (f : Stmt A) → Safe R f → Follows (OnDb R) (statement env f)
    Follows-statement f k = record { at = λ w. statement-follows f w (k.step _ _) }

  module _ (env : Env) (quiet : (n : ℕ) (db : Db) → R db (env.others n db)) where
    pub Follows-autocommit :
        {A : Type 0} (f : Stmt A) → Safe R f → Follows (OnDb R) (autocommit env f)
    unfolding autocommit others_commit
    Follows-autocommit f k = record {
      at = λ w. record {
        holds =
            o.chain (quiet w.calls w.db)
              ((Follows-statement env f k).at (others_commit env w)).holds;
      };
    }

    finish_tx-follows :
        {A : Type 0} (start snapshot : Db) (r : Result A) (w : World)
        → R start snapshot
        → R start w.db
        → R start (finish_tx env snapshot (r, w)).1.db
    unfolding finish_tx
    finish_tx-follows start snapshot (err e) w h k = h
    finish_tx-follows start snapshot (ok a) w h k = elim (Option-cases (env.fault w.calls)) [
      | inl e ↦ rw (e, finish_tx) k
      | inr (x, e) ↦ rw (e, finish_tx) h
    ]

    -- A transaction follows what its body follows: a rollback is to the state that was begun with.
    pub Follows-transaction :
        {A : Type 0} (body : Action World A)
        → Follows (OnDb R) body
        → Follows (OnDb R) (transaction env body)
    unfolding transaction others_commit
    Follows-transaction body k = record {
      at = λ w. elim (Option-cases (env.fault w.calls)) [
        | inl e ↦
            rw (e, transaction)
              (record {
                holds =
                    let started = record (others_commit env w) { calls = suc w.calls } in
                    finish_tx-follows w.db (env.others w.calls w.db) (body started).0
                      (body started).1 (quiet w.calls w.db)
                      (o.chain (quiet w.calls w.db) (k.at started).holds);
              })
        | inr (x, e) ↦ rw (e, transaction) (record { holds = quiet w.calls w.db })
      ];
    }

settle-ok : {A : Type 0} (old : Db) (r : Result A × Db) (a : A) → r.0 ≡ ok a → settle old r ≡ r.1
settle-ok old (ok b, new) a h = refl
settle-ok old (err e, new) a h = cc

module _ (env : Env) where
  -- A statement that succeeds has run once, at its call's tick.
  pub statement-eq-ok :
      {A : Type 0} (f : Stmt A) (w : World) (a : A)
      → (statement env f w).0 ≡ ok a
      → ((f (tick_at env w.calls) w.db).0 ≡ ok a)
        × ((statement env f w).1
            ≡ record w { db = (f (tick_at env w.calls) w.db).1; calls = suc w.calls })
  unfolding statement
  statement-eq-ok f w a h = elim (Option-cases (env.fault w.calls)) [
    | inl e ↦
        let r = f (tick_at env w.calls) w.db in
        let ran : r.0 ≡ ok a = rw (e, statement) at h in
        (
          ran,
          rw (e, statement)
              (ap (λ (d : Db). record w { db = d; calls = suc w.calls }) (settle-ok w.db r a ran)),
        )
    | inr (x, e) ↦ let refused : err (engine x) ≡ ok a = rw (e, statement) at h in cc
  ]

  finish_tx-eq-ok :
      {A : Type 0} (snapshot : Db) (r : Result A) (w : World) (a : A)
      → (finish_tx env snapshot (r, w)).0 ≡ ok a
      → (r ≡ ok a) × ((finish_tx env snapshot (r, w)).1 ≡ record w { calls = suc w.calls })
  unfolding finish_tx
  finish_tx-eq-ok snapshot (err e) w a h = cc
  finish_tx-eq-ok snapshot (ok b) w a h = elim (Option-cases (env.fault w.calls)) [
    | inl e ↦ (rw (e, finish_tx) at h, rw (e, finish_tx))
    | inr (x, e) ↦ let refused : err (engine x) ≡ ok a = rw (e, finish_tx) at h in cc
  ]

  finish_tx-eq-err :
      {A : Type 0} (snapshot : Db) (r : Result A) (w : World) (x : Error)
      → (finish_tx env snapshot (r, w)).0 ≡ err x
      → (finish_tx env snapshot (r, w)).1.db ≡ snapshot
  unfolding finish_tx
  finish_tx-eq-err snapshot (err e) w x h = refl
  finish_tx-eq-err {A} snapshot (ok b) w x h = elim (Option-cases (env.fault w.calls)) [
    | inl e ↦ let done : ok b ≡ err x = rw (e, finish_tx) at h in cc
    | inr (y, e) ↦ rw (e, finish_tx)
  ]

  -- A transaction that succeeds has begun, run its body to the same value, and committed its changes.
  pub transaction-eq-ok :
      {A : Type 0} (body : Action World A) (w : World) (a : A)
      → (transaction env body w).0 ≡ ok a
      → let started = record (others_commit env w) { calls = suc w.calls } in
        ((body started).0 ≡ ok a)
        × ((transaction env body w).1
            ≡ record (body started).1 { calls = suc (body started).1.calls })
  unfolding transaction others_commit
  transaction-eq-ok {A} body w a h = elim (Option-cases (env.fault w.calls)) [
    | inl e ↦
        let started = record (others_commit env w) { calls = suc w.calls } in
        let ended : (finish_tx env (env.others w.calls w.db) (body started)).0 ≡ ok a =
          rw (e, transaction) at h in
        let done =
          finish_tx-eq-ok (env.others w.calls w.db) (body started).0 (body started).1 a ended in
        (done.0, rw (e, transaction) done.1)
    | inr (x, e) ↦ let refused : err (engine x) ≡ ok a = rw (e, transaction) at h in cc
  ]

  -- One that fails leaves the database as the others had committed it.
  pub transaction-eq-err :
      {A : Type 0} (body : Action World A) (w : World) (x : Error)
      → (transaction env body w).0 ≡ err x
      → (transaction env body w).1.db ≡ env.others w.calls w.db
  unfolding transaction others_commit
  transaction-eq-err body w x h = elim (Option-cases (env.fault w.calls)) [
    | inl e ↦
        let started = record (others_commit env w) { calls = suc w.calls } in
        let ended : (finish_tx env (env.others w.calls w.db) (body started)).0 ≡ err x =
          rw (e, transaction) at h in
        rw (e, transaction)
          (finish_tx-eq-err (env.others w.calls w.db) (body started).0 (body started).1 x ended)
    | inr (y, e) ↦ rw (e, transaction)
  ]

  -- While the engine works, a statement on its own runs once on what others have committed.
  pub autocommit-up :
      {A : Type 0} (f : Stmt A) (w : World)
      → env.fault w.calls ≡ none
      → autocommit env f w ≡ (
        (f (tick_at env w.calls) (env.others w.calls w.db)).0,
        record w {
          db = settle (env.others w.calls w.db) (f (tick_at env w.calls) (env.others w.calls w.db));
          calls = suc w.calls;
        },
      )
  unfolding autocommit others_commit statement
  autocommit-up f w up = rw (statement, up) refl

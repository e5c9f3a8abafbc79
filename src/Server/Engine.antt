-- ===== src/Server/Engine.antt =====
-- The engine under driver/postgres and driver/mysql: statements on their own, and transactions at READ
-- COMMITTED, in which each statement sees what others have committed before it. The tables are those of
-- Sqlite/Schema, which the three schema.sql files declare alike.
pub mod Rules
use novaque.Prelude.{ℕ, zero, suc, String, Bool, Option, none, some, List, [], ◌++◌}
use novaque.Store.Errors.{Result, ok, err, engine}
use novaque.Action.{Action, pure, ◌>>=◌, ◌>>◌}
use novaque.Sqlite.Schema.{Db, StatsRow}
use novaque.Sqlite.Engine.{Env, World, Tick, Stmt, statement, autocommit}

-- What the code does not decide, besides `env`: at the n-th call, `beside` is what others commit before
-- it while this transaction has locked the given deliveries, `held_elsewhere` are the deliveries that
-- others have locked, and `meanwhile` is what they commit between the subquery of a statement and its
-- writes.
pub record Server : Type 0 where
  pub env : Env
  pub beside : ℕ → List ℕ → Db → Db
  pub held_elsewhere : ℕ → ℕ → Bool
  pub meanwhile : ℕ → Db → Db

-- Where the two engines differ under the same code: the statements that set timeouts at the start of a
-- transaction, equality of texts, the order of names, and which rows a bounded DELETE takes first.
pub record Dialect : Type 0 where
  pub timeouts : ℕ
  pub same_text : String → String → Bool
  pub name_leb : String → String → Bool
  pub scan_order : StatsRow → StatsRow → Bool

-- A transaction: the database with its own changes, the one that a rollback leaves, and the deliveries
-- that it has locked.
pub record Session : Type 0 where
  pub world : World
  pub committed : Db
  pub locked : List ℕ

-- One of the set_config calls of setTxTimeouts.
unfoldable pub set_config : Stmt (Unit {0})
set_config t db = (ok tt, db)

abbrev pub ids_of : Result (List ℕ) → List ℕ
ids_of (ok ids) = ids
ids_of (err e) = []

module _ (server : Server) where
  unfoldable pub meet_others : Session → Session
  meet_others s =
      let others = server.beside s.world.calls s.locked in
      record s { world = record s.world { db = others s.world.db }; committed = others s.committed }

  -- A statement in a transaction.
  unfoldable pub query : {A : Type 0} → Stmt A → Action Session A
  unfolding meet_others
  query f s =
      let s' = meet_others s in
      let (r, w) = statement server.env f s'.world in (r, record s' { world = w })

  unfoldable pub close : {A : Type 0} → Result A × Session → Result A × World
  close (err e, s) = (err e, record s.world { db = s.committed })
  close (ok a, s) = elim (server.env.fault s.world.calls) [
    | some e ↦ (err (engine e), record s.world { db = s.committed; calls = suc s.world.calls })
    | none ↦ (ok a, record s.world { calls = suc s.world.calls })
  ]

  abbrev pub begin : World → Session
  begin w = record { world = record w { calls = suc w.calls }; committed = w.db; locked = [] }

  -- `db.BeginTx`, the body, and commit or rollback.
  unfoldable pub transaction : {A : Type 0} → Action Session A → Action World A
  unfolding close
  transaction body w = elim (server.env.fault w.calls) [
    | some e ↦ (err (engine e), record w { calls = suc w.calls })
    | none ↦ close (body (begin w))
  ]

  -- A statement whose subquery is read first: others may commit before its writes.
  unfoldable pub split_statement : {A B : Type 0} → (Tick → Db → B) → (B → Stmt A) → Action World A
  split_statement read write w =
      autocommit server.env (λ t db. write (read t db) t (server.meanwhile w.calls db)) w

  unfoldable pub set_timeouts : ℕ → Action Session (Unit {0})
  set_timeouts zero = pure tt
  set_timeouts (suc n) = do query set_config; set_timeouts n

  -- SELECT ... FOR UPDATE: the rows stay locked to the end of the transaction.
  unfoldable pub query_for_update : Stmt (List ℕ) → Action Session (List ℕ)
  unfolding query
  query_for_update f s =
      let (r, s') = query f s in (r, record s' { locked = ids_of r ++ s'.locked })

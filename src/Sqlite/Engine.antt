-- ===== src/Sqlite/Engine.antt =====
-- The database engine as the driver uses it through database/sql: numbered calls, each of which may
-- fail, transactions that roll back, and the commits of other processes between them.
pub mod Rules
use novaque.Prelude.{ℕ, suc, ◌/◌, String, Option, none, some, List, Bool}
use novaque.Store.Errors.{DbError, Error, Result, ok, err, engine}
use novaque.Action.{Action}
use novaque.Sqlite.Schema.{Db}

pub data StatKind : Type 0 where
  stat_publish stat_claim stat_ack stat_requeue stat_dead stat_purged : StatKind

pub record StatCoord : Type 0 where
  pub topic_id : ℕ
  pub channel_id : ℕ

pub record StatKey : Type 0 where
  pub coord : StatCoord
  pub open coord use *
  pub kind : StatKind

-- What the code does not decide. At the n-th engine call: the clock, a failure, the random blob
-- for a row, and what other processes have committed just before it. `cancelled n` tells whether
-- the context is done when the code waits after n calls.
pub record Env : Type 0 where
  pub clock : ℕ → ℕ
  pub fault : ℕ → Option DbError
  pub blob : ℕ → ℕ → String
  pub others : ℕ → Db → Db
  pub cancelled : ℕ → Bool

-- The database, the Store's in-process counter buffer `statBuf`, and the number of engine calls.
pub record World : Type 0 where
  pub db : Db
  pub stat_buf : List (StatKey × ℕ)
  pub calls : ℕ

-- What a statement sees: `unixepoch()`, which is constant within it, and `randomblob` by row.
pub record Tick : Type 0 where
  pub now : ℕ
  pub blob : ℕ → String

abbrev pub Stmt : Type 0 → Type 0
Stmt A = Tick → Db → Result A × Db

-- `date('now')`.
abbrev pub today : Tick → ℕ
today t = t.now / 86400

-- A statement that fails changes nothing.
abbrev pub settle : {A : Type 0} → Db → Result A × Db → Db
settle old (ok a, new) = new
settle old (err e, new) = old

module _ (env : Env) where
  abbrev pub tick_at : ℕ → Tick
  tick_at n = record { now = env.clock n; blob = env.blob n }

  -- One statement inside a transaction.
  unfoldable pub statement : {A : Type 0} → Stmt A → Action World A
  statement f w = elim (env.fault w.calls) [
    | some e ↦ (err (engine e), record w { calls = suc w.calls })
    | none ↦
        let r = f (tick_at w.calls) w.db in
        (r.0, record w { db = settle w.db r; calls = suc w.calls })
  ]

  unfoldable pub others_commit : World → World
  others_commit w = record w { db = env.others w.calls w.db }

  -- One statement on its own: what others have committed is seen first.
  unfoldable pub autocommit : {A : Type 0} → Stmt A → Action World A
  unfolding others_commit
  autocommit f w = statement f (others_commit w)

  -- `tx.Commit()`, or the deferred rollback to the snapshot.
  unfoldable pub finish_tx : {A : Type 0} → Db → Result A × World → Result A × World
  finish_tx snapshot (err e, w) = (err e, record w { db = snapshot })
  finish_tx snapshot (ok a, w) = elim (env.fault w.calls) [
    | some e ↦ (err (engine e), record w { db = snapshot; calls = suc w.calls })
    | none ↦ (ok a, record w { calls = suc w.calls })
  ]

  -- `db.BeginTx`, the body, and commit or rollback.
  unfoldable pub transaction : {A : Type 0} → Action World A → Action World A
  unfolding others_commit finish_tx
  transaction body w = elim (env.fault w.calls) [
    | some e ↦ (err (engine e), record (others_commit w) { calls = suc w.calls })
    | none ↦
        finish_tx (others_commit w).db (body (record (others_commit w) { calls = suc w.calls }))
  ]

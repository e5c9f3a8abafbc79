-- ===== src/Server/Engine/Rules.antt =====
-- What statements and transactions at READ COMMITTED do to the database, by the relation that each
-- statement follows, and what row locks promise.
use novaque.Prelude.{ℕ, zero, suc, ◌≡◌, ◌≤◌, refl, inl, inr, true, Option-cases, List}
use novaque.Prelude.Lists.{elem}
use novaque.Store.Errors.{Error, Result, ok, err, engine}
use novaque.Action.{Action, pure, fail, lift, gets, ◌>>=◌}
use novaque.Action.Follows.{
  Preorder, Follows, Follows-pure, Follows-fail, Follows-lift, Follows-gets, Follows-attempt,
  Follows-map_err, Follows-if, Follows-bind,
}
use novaque.Sqlite.Schema.{Db}
use novaque.Sqlite.Lifecycle.{Tracing, row_of}
use novaque.Sqlite.Evolution.{
  Evolves, Evolves-Preorder, OthersEvolve, IsLawful, IsLawful-autocommit, Safe-read,
}
use novaque.Sqlite.Engine.{World, Tick, Stmt, tick_at}
use novaque.Sqlite.Engine.Rules.{OnDb, Safe, statement-follows}
use novaque.Server.Engine.{
  Server, Session, meet_others, query, close, begin, transaction, split_statement, set_config,
  set_timeouts, query_for_update,
}

-- Other processes run the same code, row locks keep them off the rows that are locked, and the clock
-- does not run back.
pub record OthersKeep (traced : Tracing) (server : Server) : Type 0 where
  pub alone : OthersEvolve traced server.env
  pub beside : (n : ℕ) (ids : List ℕ) (db : Db) → Evolves traced db (server.beside n ids db)
  pub meanwhile : (n : ℕ) (db : Db) → Evolves traced db (server.meanwhile n db)
  pub locks :
      (n : ℕ) (ids : List ℕ) (db : Db) (i : ℕ)
      → elem i ids ≡ true
      → row_of (server.beside n ids db).deliveries i ≡ row_of db.deliveries i
  pub clock : (n m : ℕ) → n ≤ m → server.env.clock n ≤ server.env.clock m

-- Both the changed database and the one that a rollback leaves.
pub record OnSession (R : Db → Db → Type 0) (s t : Session) : Type 0 where
  pub view : R s.world.db t.world.db
  pub base : R s.committed t.committed

pub OnSession-Preorder : {R : Db → Db → Type 0} → Preorder R → Preorder (OnSession R)
OnSession-Preorder o = record {
  same = λ s. record { view = o.same s.world.db; base = o.same s.committed };
  chain = λ h k. record { view = o.chain h.view k.view; base = o.chain h.base k.base };
}

abbrev pub IsLawfulTx : Tracing → {A : Type 0} → Action Session A → Type 0
IsLawfulTx traced m = Follows (OnSession (Evolves traced)) m

order : (traced : Tracing) → Preorder (OnSession (Evolves traced))
order traced = OnSession-Preorder (Evolves-Preorder traced)

module _ {traced : Tracing} {A : Type 0} where
  pub IsLawfulTx-pure : (a : A) → IsLawfulTx traced (pure a)
  IsLawfulTx-pure = Follows-pure (order traced)

  pub IsLawfulTx-fail : (e : Error) → IsLawfulTx traced (fail {A = A} e)
  IsLawfulTx-fail = Follows-fail (order traced)

  pub IsLawfulTx-lift : (r : Result A) → IsLawfulTx traced (lift r)
  IsLawfulTx-lift = Follows-lift (order traced)

  pub IsLawfulTx-gets : (f : Session → A) → IsLawfulTx traced (gets f)
  IsLawfulTx-gets = Follows-gets (order traced)

  pub IsLawfulTx-bind :
      {B : Type 0} (m : Action Session A) (f : A → Action Session B)
      → IsLawfulTx traced m
      → ((a : A) → IsLawfulTx traced (f a))
      → IsLawfulTx traced (m >>= f)
  IsLawfulTx-bind = Follows-bind (order traced)

pub ruleset tx_rules = (
  IsLawfulTx-pure, IsLawfulTx-fail, IsLawfulTx-lift, IsLawfulTx-gets, Follows-attempt,
  Follows-map_err, Follows-if, IsLawfulTx-bind,
)

module _ {traced : Tracing} (server : Server) (keeps : OthersKeep traced server) where
  pub meet_others-follows : (s : Session) → OnSession (Evolves traced) s (meet_others server s)
  unfolding meet_others
  meet_others-follows s = record {
    view = keeps.beside s.world.calls s.locked s.world.db;
    base = keeps.beside s.world.calls s.locked s.committed;
  }

  -- One statement at one session: what it does to the database that it meets.
  pub query-follows :
      {A : Type 0} (f : Stmt A) (s : Session)
      → let db = (meet_others server s).world.db in
        Evolves traced db (f (tick_at server.env s.world.calls) db).1
        → OnSession (Evolves traced) s (query server f s).1
  unfolding query meet_others
  query-follows f s h = (order traced).chain (meet_others-follows s) (record {
    view =
        let ran =
          statement-follows (Evolves-Preorder traced) server.env f (meet_others server s).world h in
        ran.holds;
    base = (Evolves-Preorder traced).same _;
  })

  pub IsLawfulTx-query :
      {A : Type 0} (f : Stmt A) → Safe (Evolves traced) f → IsLawfulTx traced (query server f)
  IsLawfulTx-query f k = record { at = λ s. query-follows f s (k.step _ _) }

  pub set_timeouts-IsLawfulTx : (n : ℕ) → IsLawfulTx traced (set_timeouts server n)
  unfolding set_timeouts set_config
  set_timeouts-IsLawfulTx zero = search tx_rules
  set_timeouts-IsLawfulTx (suc n) =
      IsLawfulTx-bind _ _ (IsLawfulTx-query set_config (Safe-read _ (λ t db. refl)))
        (λ _. set_timeouts-IsLawfulTx n)

  pub IsLawfulTx-query_for_update :
      (f : Stmt (List ℕ)) → Safe (Evolves traced) f → IsLawfulTx traced (query_for_update server f)
  unfolding query_for_update
  IsLawfulTx-query_for_update f k = record {
    at = λ s.
        let done = (IsLawfulTx-query f k).at s in record { view = done.view; base = done.base };
  }

  close-follows :
      {A : Type 0} (start : Db) (r : Result A) (s : Session)
      → Evolves traced start s.world.db
      → Evolves traced start s.committed
      → Evolves traced start (close server (r, s)).1.db
  unfolding close
  close-follows start (err e) s h k = k
  close-follows start (ok a) s h k = elim (Option-cases (server.env.fault s.world.calls)) [
    | inl e ↦ rw (e, close) h
    | inr (x, e) ↦ rw (e, close) k
  ]

  -- A transaction follows what its body follows at its start.
  pub transaction-follows :
      {A : Type 0} (body : Action Session A) (w : World)
      → OnSession (Evolves traced) (begin server w) (body (begin server w)).1
      → OnDb (Evolves traced) w (transaction server body w).1
  unfolding transaction
  transaction-follows body w h = elim (Option-cases (server.env.fault w.calls)) [
    | inl e ↦
        rw (e, transaction)
          (record {
            holds =
                close-follows w.db (body (begin server w)).0 (body (begin server w)).1 h.view
                  h.base;
          })
    | inr (x, e) ↦ rw (e, transaction) (record { holds = (Evolves-Preorder traced).same w.db })
  ]

  pub IsLawful-tx :
      {A : Type 0} (body : Action Session A)
      → IsLawfulTx traced body
      → IsLawful traced (transaction server body)
  IsLawful-tx body k = record { at = λ w. transaction-follows body w (k.at (begin server w)) }

  pub IsLawful-split :
      {A B : Type 0} (read : Tick → Db → B) (write : B → Stmt A)
      → ((b : B) → Safe (Evolves traced) (write b))
      → IsLawful traced (split_statement server read write)
  unfolding split_statement
  IsLawful-split read write k = record {
    at = λ w.
        let both = λ (t : Tick) (db : Db). write (read t db) t (server.meanwhile w.calls db) in
        let one = IsLawful-autocommit server.env keeps.alone both (record {
          step = λ t db.
              (Evolves-Preorder traced).chain (keeps.meanwhile w.calls db)
                ((k (read t db)).step t (server.meanwhile w.calls db));
        }) in
        one.at w;
  }

close-eq-ok :
    {A : Type 0} (server : Server) (r : Result A) (s : Session) (a : A)
    → (close server (r, s)).0 ≡ ok a
    → r ≡ ok a
unfolding close
close-eq-ok server (err x) s a h = cc
close-eq-ok server (ok b) s a h = elim (Option-cases (server.env.fault s.world.calls)) [
  | inl e ↦ rw (e, close) at h
  | inr (x, e) ↦ let refused : err (engine x) ≡ ok a = rw (e, close) at h in cc
]

-- A transaction that succeeds has run its body to that result.
pub transaction-eq-ok_server :
    {A : Type 0} (server : Server) (body : Action Session A) (w : World) (a : A)
    → (transaction server body w).0 ≡ ok a
    → (body (begin server w)).0 ≡ ok a
unfolding transaction
transaction-eq-ok_server {A} server body w a h = elim (Option-cases (server.env.fault w.calls)) [
  | inl e ↦
      close-eq-ok server (body (begin server w)).0 (body (begin server w)).1 a
        (rw (e, transaction) at h)
  | inr (x, e) ↦ let refused : err (engine x) ≡ ok a = rw (e, transaction) at h in cc
]

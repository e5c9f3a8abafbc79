-- ===== src/Sqlite/Publish/Atomic.antt =====
-- A publish that fails leaves no trace.
use novaque.Prelude.{ℕ, suc, ◌≡◌, refl, ap, ◌∙◌, inl, inr, Option-cases, List, [], ◌∷◌}
use novaque.Prelude.Int.{positive_or}
use novaque.Store.Errors.{Error, Result, ok, err}
use novaque.Store.Types.{PublishOpts}
use novaque.Action.{Action, pure, lift, update, ◌>>=◌, ◌>>◌}
use novaque.Action.Follows.{Preorder, Follows, Follows-pure, Follows-lift, Follows-bind}
use novaque.Sqlite.Engine.{Env, World, Stmt, statement, others_commit, finish_tx, transaction}
use novaque.Sqlite.Engine.Rules.{transaction-eq-err}
use novaque.Sqlite.Sink.{record_stat}
use novaque.Sqlite.Publish.{
  default_max_attempts, record_each, record_publish, publish_body, publish_tx,
}

-- The counter buffer is the same.
record SameBuffer (w w' : World) : Type 0 where
  same : w'.stat_buf ≡ w.stat_buf

buffers : Preorder SameBuffer
buffers = record {
  same = λ w. record { same = refl };
  chain = λ h k. record { same = k.same ∙ h.same };
}

module _ (env : Env) where
  Follows-statement_buf : {A : Type 0} (f : Stmt A) → Follows SameBuffer (statement env f)
  unfolding statement
  Follows-statement_buf f = record {
    at = λ w. elim (Option-cases (env.fault w.calls)) [
      | inl e ↦ rw (e, statement) (record { same = refl })
      | inr (x, e) ↦ rw (e, statement) (record { same = refl })
    ];
  }

  finish_tx-buf :
      {A : Type 0} (snapshot : _) (r : Result A) (w : World)
      → (finish_tx env snapshot (r, w)).1.stat_buf ≡ w.stat_buf
  unfolding finish_tx
  finish_tx-buf snapshot (err e) w = refl
  finish_tx-buf snapshot (ok a) w = elim (Option-cases (env.fault w.calls)) [
    | inl e ↦ rw (e, finish_tx) refl
    | inr (x, e) ↦ rw (e, finish_tx) refl
  ]

  Follows-transaction_buf :
      {A : Type 0} (body : Action World A)
      → Follows SameBuffer body
      → Follows SameBuffer (transaction env body)
  unfolding transaction others_commit
  Follows-transaction_buf body k = record {
    at = λ w. elim (Option-cases (env.fault w.calls)) [
      | inl e ↦
          rw (e, transaction)
            (record {
              same =
                  let started = record (others_commit env w) { calls = suc w.calls } in
                  finish_tx-buf (env.others w.calls w.db) (body started).0 (body started).1
                  ∙ (k.at started).same;
            })
      | inr (x, e) ↦ rw (e, transaction) (record { same = refl })
    ];
  }

  body-buf :
      (topic : ℕ) (body : List ℕ) (opts : PublishOpts) (max : ℕ)
      → Follows SameBuffer (publish_body env topic body opts max)
  unfolding publish_body
  body-buf topic body opts max =
      search
        (Follows-pure buffers, Follows-lift buffers, Follows-bind buffers, Follows-statement_buf)
        depth 12

-- Counting never fails.
record_each-ok : (topic : ℕ) (cs : List ℕ) (w : World) → (record_each topic cs w).0 ≡ ok tt
unfolding record_each record_stat pure ◌>>=◌ update
record_each-ok topic [] w = refl
record_each-ok topic (c ∷ cs) w = record_each-ok topic cs _

record_publish-ok : (topic : ℕ) (cs : List ℕ) (w : World) → (record_publish topic cs w).0 ≡ ok tt
unfolding record_publish record_stat update
record_publish-ok topic [] w = refl
record_publish-ok topic (c ∷ cs) w = record_each-ok topic (c ∷ cs) w

-- After a committed transaction nothing fails.
counted-never-err :
    (topic : ℕ) (r : Result (ℕ × List ℕ)) (w : World) (x : Error)
    → ((lift r >>= λ p. (record_publish topic p.1 >> pure p.0)) w).0 ≡ err x
    → (r ≡ err x) × (((lift r >>= λ p. (record_publish topic p.1 >> pure p.0)) w).1 ≡ w)
unfolding ◌>>=◌ pure lift
counted-never-err topic (ok (id, fanout)) w x h =
    let fine = record_publish-ok topic fanout w in
    let done : ok id ≡ err x = rw fine at h in absurd (cc)
counted-never-err topic (err e) w x h = let same : e ≡ x = cc in (ap err same, refl)

-- A publish that fails, at whichever engine call, leaves the database as other processes had committed
-- it when the transaction began, and the counter buffer as it was.
pub publish_tx-atomic :
    (env : Env) (topic : ℕ) (body : List ℕ) (opts : PublishOpts) (w : World) (x : Error)
    → (publish_tx env topic body opts w).0 ≡ err x
    → ((publish_tx env topic body opts w).1.db ≡ env.others w.calls w.db)
      × ((publish_tx env topic body opts w).1.stat_buf ≡ w.stat_buf)
unfolding publish_tx ◌>>=◌ lift
publish_tx-atomic env topic body opts w x h =
    let m =
      transaction env
        (publish_body env topic body opts (positive_or default_max_attempts opts.max_attempts)) in
    let r = counted-never-err topic (m w).0 (m w).1 x h in
    let same : (publish_tx env topic body opts w).1 ≡ (m w).1 = r.1 in
    (
      rw same (
          transaction-eq-err env
            (publish_body env topic body opts (positive_or default_max_attempts opts.max_attempts))
            w x r.0),
      rw same
          ((Follows-transaction_buf env _ (
              body-buf env topic body opts (positive_or default_max_attempts opts.max_attempts))).at
            w).same,
    )

-- ===== src/Sqlite/Admin/Cascade/Gone.antt =====
-- What a deletion of a topic leaves.
use novaque.Prelude.{
  ℕ, suc, ◌≡◌, refl, ap, sym, subst, ◌∙◌, inl, inr, Bool, false, ◌&&◌, ◌||◌, not, List, [], ◌∷◌,
  ◌==◌, Bool-cases,
}
use novaque.Prelude.Int.{pos}
use novaque.Prelude.Lists.{select, exists}
use novaque.Store.Errors.{Result, ok, err, engine, foreign_key}
use novaque.Action.{pure, update, >>=-eq-ok}
use novaque.Sqlite.Schema.{Db, ChannelRow}
use novaque.Sqlite.Engine.{Env, World, Tick, tick_at, Stmt, statement, others_commit}
use novaque.Sqlite.Engine.Rules.{statement-eq-ok, transaction-eq-ok}
use novaque.Sqlite.Sink.{discard_topic_stats}
use novaque.Sqlite.Admin.Cascade.{
  delete_topic_messages, delete_channels, delete_topic_stats, delete_topic_row, topic_steps,
  cascade_steps, run_cascade, delete_topic,
}

-- The statements succeeded one after the other, from `a` to `b`.
abbrev Ran : List (Stmt (Unit {0})) → Db → Db → Type 0
Ran [] a b = b ≡ a
Ran (s ∷ ss) a b = (t : Tick) × ((s t a).0 ≡ ok tt) × Ran ss (s t a).1 b

cascade_steps-Ran :
    (env : Env) (ss : List (Stmt (Unit {0}))) (w : World)
    → (cascade_steps env ss w).0 ≡ ok tt
    → Ran ss w.db (cascade_steps env ss w).1.db
unfolding cascade_steps pure
cascade_steps-Ran env [] w h = refl
cascade_steps-Ran env (s ∷ ss) w h =
    let (u, ran, h', e) = >>=-eq-ok (statement env s) (λ _. cascade_steps env ss) w h in
    let r = statement-eq-ok env s w u ran in
    let w' = (statement env s w).1 in
    let rest = cascade_steps-Ran env ss w' h' in
    (
      tick_at env w.calls,
      r.0,
      subst (λ (db : Db). Ran ss db (cascade_steps env (s ∷ ss) w).1.db)
          (ap (λ (x : World). x.db) r.1)
          (subst (λ (z : Result (Unit {0}) × World). Ran ss w'.db z.1.db) (sym e) rest),
    )

none-select :
    {A : Type 0} (p : A → Bool) (xs : List A) → exists p (select (λ x. not (p x)) xs) ≡ false
none-select p [] = refl
none-select p (x ∷ xs) = elim (Bool-cases (p x)) [
  | inl e ↦ rw e (none-select p xs)
  | inr e ↦ rw (e, e) (none-select p xs)
]

-- No row and no buffered counter names the topic.
pub record Gone (topic : ℕ) (w : World) : Type 0 where
  pub no_topic : exists (λ r. r.id == topic) w.db.topics ≡ false
  pub no_channel : exists (λ c. c.topic_id == topic) w.db.channels ≡ false
  pub no_message : exists (λ m. m.topic_id == topic) w.db.messages ≡ false
  pub no_stats : exists (λ r. r.topic_id == topic) w.db.stats ≡ false
  pub no_delta : exists (λ e. e.0.topic_id == topic) w.stat_buf ≡ false

delete_channels-eq :
    (p : ChannelRow → Bool) (t : Tick) (db : Db)
    → (delete_channels p t db).0 ≡ ok tt
    → (delete_channels p t db).1 ≡ record db { channels = select (λ c. not (p c)) db.channels }
unfolding delete_channels
delete_channels-eq p t db h =
    elim (Bool-cases
      (exists (λ d. exists (λ c. p c && c.id == d.channel_id) db.channels) db.deliveries)) [
        | inl e ↦
            let refused : err (engine foreign_key) ≡ ok tt = rw (e, delete_channels) at h in
            absurd (cc)
        | inr e ↦ rw (e, delete_channels) refl
      ]

delete_topic_row-eq :
    (topic : ℕ) (t : Tick) (db : Db)
    → (delete_topic_row topic t db).0 ≡ ok tt
    → (delete_topic_row topic t db).1
      ≡ record db { topics = select (λ r. not (r.id == topic)) db.topics }
unfolding delete_topic_row
delete_topic_row-eq topic t db h =
    elim (Bool-cases (
      exists (λ r. r.id == topic) db.topics
      && (exists (λ c. c.topic_id == topic) db.channels
          || exists (λ m. m.topic_id == topic) db.messages))) [
            | inl e ↦
                let refused : err (engine foreign_key) ≡ ok tt = rw (e, delete_topic_row) at h in
                absurd (cc)
            | inr e ↦ rw (e, delete_topic_row) refl
          ]

topic_steps-clean :
    (topic : ℕ) (a b : Db)
    → Ran (topic_steps topic) a b
    → (exists (λ r. r.id == topic) b.topics ≡ false)
      × (exists (λ c. c.topic_id == topic) b.channels ≡ false)
      × (exists (λ m. m.topic_id == topic) b.messages ≡ false)
      × (exists (λ r. r.topic_id == topic) b.stats ≡ false)
unfolding delete_topic_messages delete_topic_stats
topic_steps-clean topic a b (t1, _, rest) =
    let (t2, r2, rest') = rest in
    let (t3, _, rest'') = rest' in
    let (t4, r4, e) = rest'' in
    let same = e ∙ delete_topic_row-eq topic t4 _ r4 in
    let c = delete_channels-eq (λ c. c.topic_id == topic) t2 _ r2 in
    rw (same, c)
      (
        none-select (λ r. r.id == topic) a.topics,
        none-select (λ c. c.topic_id == topic) a.channels,
        none-select (λ m. m.topic_id == topic) a.messages,
        none-select (λ r. r.topic_id == topic) a.stats,
      )

-- A DeleteTopic that succeeds leaves no row of any table that names the topic, and no buffered counter
-- of it that a later flush could write.
pub delete_topic-Gone :
    (env : Env) (topic : ℕ) (w : World)
    → (delete_topic env (pos (suc topic)) w).0 ≡ ok tt
    → Gone (suc topic) (delete_topic env (pos (suc topic)) w).1
unfolding delete_topic run_cascade others_commit discard_topic_stats update
delete_topic-Gone env topic w h =
    let i = suc topic in
    let m = run_cascade env (topic_steps i) in
    let (u, ran, h', e) = >>=-eq-ok m (λ _. discard_topic_stats i) w h in
    let r = transaction-eq-ok env (cascade_steps env (topic_steps i)) w u ran in
    let started = record (others_commit env w) { calls = suc w.calls } in
    let clean = topic_steps-clean i started.db (m w).1.db (
      subst (λ (x : World). Ran (topic_steps i) started.db x.db) (sym r.1)
        (cascade_steps-Ran env (topic_steps i) started r.0)) in
    subst (λ (z : Result (Unit {0}) × World). Gone i z.1) (sym e)
      (record {
        no_topic = clean.0;
        no_channel = clean.1;
        no_message = clean.2;
        no_stats = clean.3;
        no_delta = none-select (λ e. e.0.topic_id == i) (m w).1.stat_buf;
      })

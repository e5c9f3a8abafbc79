-- ===== src/Sqlite/Admin/Cascade/Valid.antt =====
-- The cascade deletes keep the database well-formed.
use novaque.Sqlite.Lifecycle.{Tracing}
use novaque.Prelude.{
  ℕ, zero, suc, ◌≡◌, refl, ◌⊎◌, inl, inr, Bool, false, ◌&&◌, ◌||◌, not, List, [], ◌∷◌, ◌==◌, arith,
  Bool-cases,
}
use novaque.Prelude.Int.{ℤ, pos, negsuc}
use novaque.Prelude.Lists.{All, select, exists}
use novaque.Prelude.Rows.{
  Asc-select, All-select, All-select_test, All-mono, All-mono₂, All-has, exists-select_keep,
  exists-false,
}
use novaque.Sqlite.Schema.{Db, TopicRow, ChannelRow}
use novaque.Sqlite.Engine.{Env, Stmt}
use novaque.Sqlite.Engine.Rules.{Safe}
use novaque.Sqlite.Sink.Valid.{discard_topic_stats-IsLawful, discard_channel_stats-IsLawful}
use novaque.Sqlite.Invariant.{IsValid, IsValid-select_deliveries, IsValid-stats}
use novaque.Sqlite.Evolution.{
  Evolves, Evolves-Preorder, Evolves-still, Evolves-select, OthersEvolve, IsLawful, IsLawful-bind,
  IsLawful-statement, IsLawful-transaction, lawful_rules,
}
use novaque.Prelude.{Bool, ◌≡◌, refl}
use novaque.Sqlite.Admin.Cascade.{
  delete_topic_messages, delete_channels, delete_topic_stats, delete_topic_row,
  delete_channel_deliveries, delete_channel_stats, topic_steps, channel_steps, cascade_steps,
  run_cascade, delete_topic, delete_channel,
}

and_or_left : (a b c : Bool) → (a && (b || c)) ≡ false → (a && b) ≡ false
and_or_left a b c h = ground arith

and_or_right : (a b c : Bool) → (a && (b || c)) ≡ false → (a && c) ≡ false
and_or_right a b c h = ground arith

-- A topic survives that is not the deleted one.
kept_topic :
    (topic i : ℕ) (ts : List TopicRow)
    → (exists (λ r. r.id == topic) ts ≡ false) ⊎ ((i == topic) ≡ false)
    → exists (λ r. r.id == topic && r.id == i) ts ≡ false
kept_topic topic i [] h = refl
kept_topic topic i (r ∷ rs) (inl h) = ground (arith, kept_topic topic i rs (inl (ground arith)))
kept_topic topic i (r ∷ rs) (inr h) = ground (arith, kept_topic topic i rs (inr h))

-- Where the test of the foreign key passes, no row of a table names the topic, or it is not there.
unnamed :
    {A : Type 0} (key : A → ℕ) (topic : ℕ) (ts : List TopicRow) (xs : List A)
    → (exists (λ r. r.id == topic) ts && exists (λ x. key x == topic) xs) ≡ false
    → All (λ x. (exists (λ r. r.id == topic) ts ≡ false) ⊎ ((key x == topic) ≡ false)) xs
unnamed key topic ts xs h = elim (Bool-cases (exists (λ r. r.id == topic) ts)) [
  | inl e ↦ All-mono xs (λ x k. inr k) (exists-false _ xs (rw e at h))
  | inr e ↦ All-mono xs (λ x _. inl e) (All-has key xs)
]

topic_row_deleted :
    (topic : ℕ) (db : Db)
    → (exists (λ r. r.id == topic) db.topics && exists (λ c. c.topic_id == topic) db.channels)
      ≡ false
    → (exists (λ r. r.id == topic) db.topics && exists (λ m. m.topic_id == topic) db.messages)
      ≡ false
    → IsValid db
    → IsValid (record db { topics = select (λ r. not (r.id == topic)) db.topics })
topic_row_deleted topic db no_channel no_message v = record {
  topic_ids = Asc-select _ _ 1 db.topics _ v.topic_ids;
  channel_ids = v.channel_ids;
  message_ids = v.message_ids;
  delivery_ids = v.delivery_ids;
  channel_topics =
      All-mono₂ db.channels
        (λ c h k. exists-select_keep _ _ db.topics h (kept_topic topic c.topic_id db.topics k))
        v.channel_topics (unnamed (λ c. c.topic_id) topic db.topics db.channels no_channel);
  message_topics =
      All-mono₂ db.messages
        (λ m h k. exists-select_keep _ _ db.topics h (kept_topic topic m.topic_id db.topics k))
        v.message_topics (unnamed (λ m. m.topic_id) topic db.topics db.messages no_message);
  delivery_messages = v.delivery_messages;
  delivery_channels = v.delivery_channels;
  leases = v.leases;
}

module _ {traced : Tracing} where
  delete_topic_messages-Safe : (topic : ℕ) → Safe (Evolves traced) (delete_topic_messages topic)
  unfolding delete_topic_messages
  delete_topic_messages-Safe topic = record {
    step = λ t db.
        Evolves-select db _
          (λ v. record {
            topic_ids = v.topic_ids;
            channel_ids = v.channel_ids;
            message_ids = Asc-select _ _ 1 db.messages _ v.message_ids;
            delivery_ids = Asc-select _ _ 1 db.deliveries _ v.delivery_ids;
            channel_topics = v.channel_topics;
            message_topics = All-select _ _ db.messages v.message_topics;
            delivery_messages =
                All-mono₂
                  (select
                    (λ d.
                      not (exists (λ m. m.topic_id == topic && m.id == d.message_id) db.messages))
                    db.deliveries)
                  (λ d h k. exists-select_keep _ _ db.messages h (ground arith))
                  (All-select _ _ db.deliveries v.delivery_messages)
                  (All-select_test
                    (λ d.
                      not (exists (λ m. m.topic_id == topic && m.id == d.message_id) db.messages))
                    db.deliveries);
            delivery_channels = All-select _ _ db.deliveries v.delivery_channels;
            leases = All-select _ _ db.deliveries v.leases;
          })
          _ refl refl;
  }

  -- The foreign key stops the delete of a channel that a delivery names.
  delete_channels-Safe : (p : ChannelRow → Bool) → Safe (Evolves traced) (delete_channels p)
  unfolding delete_channels
  delete_channels-Safe p = record {
    step = λ t db.
        elim (Bool-cases
          (exists (λ d. exists (λ c. p c && c.id == d.channel_id) db.channels) db.deliveries)) [
            | inl e ↦ rw (e, delete_channels) ((Evolves-Preorder traced).same db)
            | inr e ↦
                rw (e, delete_channels)
                  (Evolves-still db _
                    (λ v. record {
                      topic_ids = v.topic_ids;
                      channel_ids = Asc-select _ _ 1 db.channels _ v.channel_ids;
                      message_ids = v.message_ids;
                      delivery_ids = v.delivery_ids;
                      channel_topics = All-select _ _ db.channels v.channel_topics;
                      message_topics = v.message_topics;
                      delivery_messages = v.delivery_messages;
                      delivery_channels =
                          All-mono₂ db.deliveries (λ d h k. exists-select_keep p _ db.channels h k)
                            v.delivery_channels (exists-false _ db.deliveries e);
                      leases = v.leases;
                    })
                    refl refl)
          ];
  }

  delete_topic_stats-Safe : (topic : ℕ) → Safe (Evolves traced) (delete_topic_stats topic)
  unfolding delete_topic_stats
  delete_topic_stats-Safe topic = record {
    step = λ t db. Evolves-still db _ (IsValid-stats _ db) refl refl;
  }

  delete_channel_stats-Safe : (channel : ℕ) → Safe (Evolves traced) (delete_channel_stats channel)
  unfolding delete_channel_stats
  delete_channel_stats-Safe channel = record {
    step = λ t db. Evolves-still db _ (IsValid-stats _ db) refl refl;
  }

  delete_channel_deliveries-Safe :
      (channel : ℕ) → Safe (Evolves traced) (delete_channel_deliveries channel)
  unfolding delete_channel_deliveries
  delete_channel_deliveries-Safe channel = record {
    step = λ t db. Evolves-select db _ (IsValid-select_deliveries _ db) _ refl refl;
  }

  delete_topic_row-Safe : (topic : ℕ) → Safe (Evolves traced) (delete_topic_row topic)
  unfolding delete_topic_row
  delete_topic_row-Safe topic = record {
    step = λ t db.
        let there : Bool = exists (λ r. r.id == topic) db.topics in
        let channel : Bool = exists (λ c. c.topic_id == topic) db.channels in
        let message : Bool = exists (λ m. m.topic_id == topic) db.messages in
        elim (Bool-cases (there && (channel || message))) [
          | inl e ↦ rw (e, delete_topic_row) ((Evolves-Preorder traced).same db)
          | inr e ↦
              rw (e, delete_topic_row)
                (Evolves-still db _
                  (topic_row_deleted topic db (and_or_left there channel message e)
                    (and_or_right there channel message e))
                  refl refl)
        ];
  }

  pub topic_steps-Safe : (i : ℕ) → All (λ s. Safe (Evolves traced) s) (topic_steps i)
  topic_steps-Safe i = (
    delete_topic_messages-Safe i,
    (delete_channels-Safe _, (delete_topic_stats-Safe i, (delete_topic_row-Safe i, tt))),
  )

  pub channel_steps-Safe : (i : ℕ) → All (λ s. Safe (Evolves traced) s) (channel_steps i)
  channel_steps-Safe i = (
    delete_channel_deliveries-Safe i,
    (delete_channel_stats-Safe i, (delete_channels-Safe _, tt)),
  )

  module _ (env : Env) where
    cascade_steps-IsLawful :
        (ss : List (Stmt (Unit {0})))
        → All (λ s. Safe (Evolves traced) s) ss
        → IsLawful traced (cascade_steps env ss)
    unfolding cascade_steps
    cascade_steps-IsLawful [] h = search lawful_rules
    cascade_steps-IsLawful (s ∷ ss) h =
        IsLawful-bind _ _ (IsLawful-statement env s h.0) (λ _. cascade_steps-IsLawful ss h.1)

  module _ (env : Env) (quiet : OthersEvolve traced env) where
    run_cascade-IsLawful :
        (ss : List (Stmt (Unit {0})))
        → All (λ s. Safe (Evolves traced) s) ss
        → IsLawful traced (run_cascade env ss)
    unfolding run_cascade
    run_cascade-IsLawful ss h = IsLawful-transaction env quiet _ (cascade_steps-IsLawful env ss h)

    pub delete_topic-IsLawful : (topic : ℤ) → IsLawful traced (delete_topic env topic)
    unfolding delete_topic
    delete_topic-IsLawful (pos zero) = search lawful_rules
    delete_topic-IsLawful (pos (suc i)) =
        IsLawful-bind _ _ (run_cascade-IsLawful (topic_steps (suc i)) (topic_steps-Safe (suc i)))
          (λ _. discard_topic_stats-IsLawful (suc i))
    delete_topic-IsLawful (negsuc i) = search lawful_rules

    pub delete_channel-IsLawful : (channel : ℤ) → IsLawful traced (delete_channel env channel)
    unfolding delete_channel
    delete_channel-IsLawful (pos zero) = search lawful_rules
    delete_channel-IsLawful (pos (suc i)) =
        IsLawful-bind _ _
          (run_cascade-IsLawful (channel_steps (suc i)) (channel_steps-Safe (suc i)))
          (λ _. discard_channel_stats-IsLawful (suc i))
    delete_channel-IsLawful (negsuc i) = search lawful_rules

-- ===== src/Sqlite/Publish/Valid.antt =====
-- Publish keeps the database well-formed.
use novaque.Sqlite.Lifecycle.{Tracing}
use novaque.Prelude.{
  ℕ, ◌≤◌, zero, suc, ◌≡◌, refl, inl, inr, true, List, [], ◌∷◌, ◌==◌, arith, Bool-cases,
  Option-cases,
}
use novaque.Prelude.Int.{ℤ, pos, negsuc}
use novaque.Prelude.Lists.{All, select, exists}
use novaque.Prelude.Rows.{
  Asc, Asc-append, All-append, All-select, All-mono, All-has, exists-append_left, exists_of_first,
}
use novaque.Store.Types.{PublishOpts}
use novaque.Sqlite.Schema.{ChannelRow, MessageRow, message_by_id}
use novaque.Sqlite.Engine.{Env}
use novaque.Sqlite.Engine.Rules.{Safe}
use novaque.Sqlite.Sink.Valid.{record_stat-IsLawful}
use novaque.Sqlite.Invariant.{LeaseOk}
use novaque.Sqlite.Evolution.{
  Evolves, Evolves-Preorder, Evolves-still, Evolves-append, OthersEvolve, IsLawful, IsLawful-bind,
  IsLawful-statement, IsLawful-transaction, Safe-read, lawful_rules,
}
use novaque.Sqlite.Lifecycle.{IsNew}
use novaque.Sqlite.Evolution.Rows.{Asc-le}
use novaque.Prelude.{◌≡◌, refl}
use novaque.Sqlite.Publish.{
  select_now, insert_message, fan_out, after_last, insert_fan_out, record_each, record_publish,
  publish_body, publish_tx, publish,
}

-- The new ids follow one another.
pub fan_out-Asc :
    (next : ℕ) (m : MessageRow) (available max : ℕ) (cs : List ChannelRow)
    → Asc (λ d. d.id) next (fan_out next m available max cs) (after_last next cs)
unfolding fan_out after_last
fan_out-Asc next m available max [] = omega arith
fan_out-Asc next m available max (c ∷ cs) = (omega arith, fan_out-Asc (suc next) m available max cs)

fan_out-All :
    (P : ℕ → Type 0) (Q : ℕ → Type 0) (next : ℕ) (m : MessageRow) (available max : ℕ)
    (cs : List ChannelRow)
    → P m.id
    → All (λ c. Q c.id) cs
    → All (λ d. P d.message_id × Q d.channel_id × LeaseOk d) (fan_out next m available max cs)
unfolding fan_out
fan_out-All P Q next m available max [] h k = tt
fan_out-All P Q next m available max (c ∷ cs) h k =
    ((h, k.0, (refl, refl, refl)), fan_out-All P Q (suc next) m available max cs h k.1)

-- They are the ids that the sequence has not given yet, and the rows are new.
fan_out-fresh :
    (lo next : ℕ) (m : MessageRow) (available max : ℕ) (cs : List ChannelRow)
    → lo ≤ next
    → All (λ d. (lo ≤ d.id) × IsNew d) (fan_out next m available max cs)
unfolding fan_out
fan_out-fresh lo next m available max [] h = tt
fan_out-fresh lo next m available max (c ∷ cs) h = (
  (h, record { waits = refl; unclaimed = refl }),
  fan_out-fresh lo (suc next) m available max cs (omega arith),
)

module _ {traced : Tracing} where
  pub select_now-Safe : Safe (Evolves traced) select_now
  unfolding select_now
  select_now-Safe = Safe-read _ (λ t db. refl)

  pub insert_message-Safe :
      (topic : ℕ) (body : List ℕ) (expires : ℕ)
      → Safe (Evolves traced) (insert_message topic body expires)
  unfolding insert_message
  insert_message-Safe topic body expires = record {
    step = λ t db. elim (Bool-cases (exists (λ r. r.id == topic) db.topics)) [
      | inl e ↦
          rw (e, insert_message)
            (Evolves-still db _
              (λ v. record {
                topic_ids = v.topic_ids;
                channel_ids = v.channel_ids;
                message_ids = Asc-append _ 1 db.messages _ _ _ v.message_ids (omega arith);
                delivery_ids = v.delivery_ids;
                channel_topics = v.channel_topics;
                message_topics = All-append _ db.messages _ v.message_topics (e, tt);
                delivery_messages =
                    All-mono db.deliveries (λ d h. exists-append_left _ db.messages _ h)
                      v.delivery_messages;
                delivery_channels = v.delivery_channels;
                leases = v.leases;
              })
              refl refl)
      | inr e ↦ rw (e, insert_message) ((Evolves-Preorder traced).same db)
    ];
  }

  pub insert_fan_out-Safe :
      (topic message available max : ℕ)
      → Safe (Evolves traced) (insert_fan_out topic message available max)
  unfolding insert_fan_out message_by_id
  insert_fan_out-Safe topic message available max = record {
    step = λ t db. elim (Option-cases (message_by_id db.messages message)) [
      | inl e ↦ rw (e, insert_fan_out) ((Evolves-Preorder traced).same db)
      | inr (m, e) ↦
          let cs = select (λ c. c.topic_id == topic) db.channels in
          let fresh =
            fan_out-All (λ i. exists (λ r. r.id == i) db.messages ≡ true)
              (λ i. exists (λ r. r.id == i) db.channels ≡ true) db.next_delivery m available max cs
              (exists_of_first (λ r. r.id == m.id) _ db.messages m e (ground arith))
              (All-select _ _ db.channels (All-has (λ c. c.id) db.channels)) in
          rw (e, insert_fan_out)
            (Evolves-append db _
              (λ v. record {
                topic_ids = v.topic_ids;
                channel_ids = v.channel_ids;
                message_ids = v.message_ids;
                delivery_ids =
                    Asc-append _ 1 db.deliveries _ _ _ v.delivery_ids
                      (fan_out-Asc db.next_delivery m available max _);
                channel_topics = v.channel_topics;
                message_topics = v.message_topics;
                delivery_messages =
                    All-append _ db.deliveries _ v.delivery_messages
                      (All-mono _ (λ d h. h.0) fresh);
                delivery_channels =
                    All-append _ db.deliveries _ v.delivery_channels
                      (All-mono _ (λ d h. h.1) fresh);
                leases = All-append _ db.deliveries _ v.leases (All-mono _ (λ d h. h.2) fresh);
              })
              _ refl
              (Asc-le db.next_delivery (fan_out db.next_delivery m available max cs) _
                (fan_out-Asc db.next_delivery m available max cs))
              (fan_out-fresh db.next_delivery db.next_delivery m available max cs (omega arith)))
    ];
  }

  record_each-IsLawful : (topic : ℕ) (cs : List ℕ) → IsLawful traced (record_each topic cs)
  unfolding record_each
  record_each-IsLawful topic [] = search lawful_rules
  record_each-IsLawful topic (c ∷ cs) =
      IsLawful-bind _ _ (record_stat-IsLawful topic c _ 1) (λ _. record_each-IsLawful topic cs)

  pub record_publish-IsLawful :
      (topic : ℕ) (cs : List ℕ) → IsLawful traced (record_publish topic cs)
  unfolding record_publish
  record_publish-IsLawful topic [] = search record_stat-IsLawful
  record_publish-IsLawful topic (c ∷ cs) = record_each-IsLawful topic (c ∷ cs)

  module _ (env : Env) (quiet : OthersEvolve traced env) where
    publish_body-IsLawful :
        (topic : ℕ) (body : List ℕ) (opts : PublishOpts) (max : ℕ)
        → IsLawful traced (publish_body env topic body opts max)
    unfolding publish_body
    publish_body-IsLawful topic body opts max =
        search
          (
            lawful_rules,
            IsLawful-statement env,
            select_now-Safe,
            insert_message-Safe,
            insert_fan_out-Safe,
          )
          depth 12

    publish_tx-IsLawful :
        (topic : ℕ) (body : List ℕ) (opts : PublishOpts)
        → IsLawful traced (publish_tx env topic body opts)
    unfolding publish_tx
    publish_tx-IsLawful topic body opts = search (
      lawful_rules,
      IsLawful-transaction env quiet,
      publish_body-IsLawful,
      record_publish-IsLawful,
    )

    pub publish-IsLawful :
        (topic : ℤ) (body : List ℕ) (opts : PublishOpts)
        → IsLawful traced (publish env topic body opts)
    unfolding publish
    publish-IsLawful (pos zero) body opts = search lawful_rules
    publish-IsLawful (pos (suc n)) body opts = search (lawful_rules, publish_tx-IsLawful)
    publish-IsLawful (negsuc n) body opts = search lawful_rules

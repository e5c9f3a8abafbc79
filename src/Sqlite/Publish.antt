-- ===== src/Sqlite/Publish.antt =====
-- driver/sqlite/publish.go: one message and one delivery per channel, in one transaction.
pub mod Valid
pub mod Atomic
pub mod Fanout
pub mod Window
mod Examples
use novaque.Prelude.{
  ℕ, suc, ◌+◌, Bool, Option, none, some, List, [], ◌∷◌, ◌++◌, map, ◌==◌, if◌then◌else◌,
}
use novaque.Prelude.Int.{ℤ, pos, positive?, positive_or}
use novaque.Prelude.Lists.{select, exists}
use novaque.Store.Errors.{Error, Result, ok, err, topic_gone, invalid_id, engine, foreign_key}
use novaque.Store.Types.{PublishOpts, pending}
use novaque.Store.Delay.{duration_sec, delay_sec, default_publish_ttl, validate_publish_delay}
use novaque.Action.{Action, pure, fail, lift, map_err, ◌>>=◌, ◌>>◌}
use novaque.Sqlite.Schema.{Db, ChannelRow, MessageRow, DeliveryRow, message_by_id}
use novaque.Sqlite.Engine.{Env, World, Stmt, stat_publish, statement, transaction}
use novaque.Sqlite.Sink.{record_stat}

abbrev pub default_max_attempts : ℕ
default_max_attempts = 5

-- The message's expiry: the absolute one if there is no TTL, else now plus the TTL or its default.
pub message_expiry : PublishOpts → ℕ → ℕ
message_expiry opts now = elim (positive? opts.ttl) [
  | some d ↦ now + duration_sec (pos d)
  | none ↦ elim opts.expires_at [ some at ↦ at | none ↦ now + duration_sec default_publish_ttl ]
]

-- SELECT unixepoch()
pub select_now : Stmt ℕ
select_now t db = (ok t.now, db)

-- The insert of the message: its id, or a violation of the foreign key on the topic.
pub insert_message : ℕ → List ℕ → ℕ → Stmt ℕ
insert_message topic_id body expires t db =
    if exists (λ r. r.id == topic_id) db.topics
    then (
      ok db.next_message,
      record db {
        messages =
            db.messages
            ++ record {
              id = db.next_message;
              topic_id = topic_id;
              body = body;
              expires_at = expires;
            }
              ∷ [];
        next_message = suc db.next_message;
      },
    )
    else (err (engine foreign_key), db)

-- One pending delivery for each channel, with consecutive ids from `next`.
pub fan_out : ℕ → MessageRow → ℕ → ℕ → List ChannelRow → List DeliveryRow
fan_out next m available max [] = []
fan_out next m available max (c ∷ cs) =
    record {
      id = next;
      message_id = m.id;
      channel_id = c.id;
      status = pending;
      available_at = available;
      expires_at = m.expires_at;
      attempts = 0;
      max_attempts = max;
      lease_until = none;
      lease_owner = none;
      lease_token = none;
    }
    ∷ fan_out (suc next) m available max cs

pub after_last : ℕ → List ChannelRow → ℕ
after_last next [] = next
after_last next (c ∷ cs) = after_last (suc next) cs

-- INSERT ... SELECT: the channels that got a delivery. With no such message the join is empty.
pub insert_fan_out : ℕ → ℕ → ℕ → ℕ → Stmt (List ℕ)
unfolding fan_out after_last message_by_id
insert_fan_out topic_id message_id available max t db =
    elim (message_by_id db.messages message_id) [
      | none ↦ (ok [], db)
      | some m ↦
          let targets = select (λ c. c.topic_id == topic_id) db.channels in
          (
            ok (map (λ c. c.id) targets),
            record db {
              deliveries = db.deliveries ++ fan_out db.next_delivery m available max targets;
              next_delivery = after_last db.next_delivery targets;
            },
          )
    ]

-- A publish that reached no channel counts on channel 0.
record_each : ℕ → List ℕ → Action World (Unit {0})
record_each topic [] = pure tt
record_each topic (c ∷ cs) = do record_stat topic c stat_publish 1; record_each topic cs

pub record_publish : ℕ → List ℕ → Action World (Unit {0})
unfolding record_each
record_publish topic [] = record_stat topic 0 stat_publish 1
record_publish topic (c ∷ cs) = record_each topic (c ∷ cs)

pub map_topic_gone : Error → Error
map_topic_gone (engine foreign_key) = topic_gone
map_topic_gone e = e

module _ (env : Env) where
  -- The body of the transaction: the message id and the channels that got a delivery.
  pub publish_body : ℕ → List ℕ → PublishOpts → ℕ → Action World (ℕ × List ℕ)
  publish_body topic_id body opts max = do
    now ← statement env select_now
    lift (validate_publish_delay opts now)
    id ← statement env (insert_message topic_id body (message_expiry opts now))
    fanout ← statement env (insert_fan_out topic_id id (now + delay_sec opts.delay) max)
    pure (id, fanout)

  -- `publish`: the counters change only after the commit.
  pub publish_tx : ℕ → List ℕ → PublishOpts → Action World ℕ
  publish_tx topic_id body opts = do
    (id, fanout) ←
        transaction env
          (publish_body topic_id body opts (positive_or default_max_attempts opts.max_attempts))
    record_publish topic_id fanout
    pure id

  pub publish : ℤ → List ℕ → PublishOpts → Action World ℕ
  unfolding publish_tx
  publish topic_id body opts = elim (positive? topic_id) [
    | none ↦ fail invalid_id
    | some i ↦ map_err map_topic_gone (publish_tx i body opts)
  ]

-- ===== src/Sqlite/Admin/Dead.antt =====
-- driver/sqlite/admin.go: browsing, requeueing and deleting dead deliveries of one channel.
pub mod Valid
pub mod Pages
use novaque.Prelude.{
  ℕ, suc, ◌+◌, String, Bool, ◌&&◌, ◌||◌, not, Option, none, some, List, [], ◌∷◌, map, ltb, leb,
  ◌==◌, if◌then◌else◌,
}
use novaque.Prelude.Int.{ℤ, pos, negsuc, positive?, positive_or}
use novaque.Prelude.Lists.{length, take, select, modify, elem, sort_by}
use novaque.Store.Errors.{Result, ok, err, invalid_id, invalid_ttl, dead_gone}
use novaque.Store.Types.{DeadDelivery, pending}
use novaque.Store.Delay.{duration_sec}
use novaque.Action.{Action, pure, fail, ◌>>=◌, ◌>>◌}
use novaque.Sqlite.Schema.{
  Db, MessageRow, DeliveryRow, is_dead, topic_by_id, channel_by_id, message_by_id,
}
use novaque.Sqlite.Engine.{
  Env, World, Stmt, stat_requeue, stat_purged, statement, autocommit, transaction,
}
use novaque.Sqlite.Claim.{sec_to_time, keep_some}
use novaque.Sqlite.Finish.{returned, release_row, record_at}

abbrev pub default_dead_page : ℕ
default_dead_page = 50

-- `CASE WHEN prefix = 0 THEN body ELSE substr(body, 1, prefix) END`
abbrev pub body_part : ℕ → List ℕ → List ℕ
body_part prefix body = if prefix == 0 then body else take prefix body

-- `before = 0 OR id < before`, on a signed `before`.
abbrev pub before_key : ℤ → ℕ → Bool
before_key (pos b) i = b == 0 || ltb i b
before_key (negsuc b) i = ltb i 0

abbrev pub later_id : DeliveryRow → DeliveryRow → Bool
later_id a b = leb b.id a.id

unfoldable pub dead_row : Db → ℕ → DeliveryRow → Option DeadDelivery
unfolding sec_to_time topic_by_id channel_by_id message_by_id
dead_row db prefix d = elim (message_by_id db.messages d.message_id) [
  | none ↦ none
  | some m ↦ elim (channel_by_id db.channels d.channel_id) [
    | none ↦ none
    | some c ↦ elim (topic_by_id db.topics c.topic_id) [
      | none ↦ none
      | some t ↦ some (record {
        id = d.id;
        message_id = d.message_id;
        channel_id = d.channel_id;
        topic = t.name;
        channel = c.name;
        body = body_part prefix m.body;
        body_len = length m.body;
        status = d.status;
        attempts = d.attempts;
        max_attempts = d.max_attempts;
        available_at = sec_to_time d.available_at;
        expires_at = sec_to_time d.expires_at;
      })
    ]
  ]
]

unfoldable pub dead_rows : Db → ℕ → List DeliveryRow → List DeadDelivery
unfolding dead_row
dead_rows db prefix [] = []
dead_rows db prefix (d ∷ ds) = keep_some (dead_row db prefix d) (dead_rows db prefix ds)

-- The page of the join: the LIMIT counts joined rows.
unfoldable pub select_dead : ℕ → ℤ → ℕ → ℕ → Stmt (List DeadDelivery)
unfolding dead_rows
select_dead channel before limit prefix t db =
    let rows =
      select (λ d. d.channel_id == channel && is_dead d.status && before_key before d.id)
        db.deliveries in
    (ok (take limit (dead_rows db prefix (sort_by later_id rows))), db)

-- WHERE id = ? AND channel_id = ? AND status = 'dead'
abbrev pub dead_at : ℕ → ℕ → DeliveryRow → Bool
dead_at i channel d = d.id == i && d.channel_id == channel && is_dead d.status

abbrev pub revive_row : ℕ → ℕ → DeliveryRow → DeliveryRow
revive_row now ttl d = record (release_row now d) { attempts = 0; expires_at = now + ttl }

pub revive_dead : ℕ → ℕ → ℕ → Stmt (Option (Option ℕ × ℕ))
revive_dead i channel ttl t db = (
  ok (returned db (dead_at i channel)),
  record db { deliveries = modify (dead_at i channel) (revive_row t.now ttl) db.deliveries },
)

-- The message of the delivery gets the fresh expiry too.
pub extend_message : ℕ → ℕ → Stmt (Unit {0})
extend_message i ttl t db =
    let named = map (λ d. d.message_id) (take 1 (select (λ d. d.id == i) db.deliveries)) in
    (
      ok tt,
      record db {
        messages =
            modify (λ m. elem m.id named) (λ m. record m { expires_at = t.now + ttl }) db.messages;
      },
    )

pub delete_dead_row : ℕ → ℕ → Stmt (Option (Option ℕ × ℕ))
delete_dead_row i channel t db = (
  ok (returned db (dead_at i channel)),
  record db { deliveries = select (λ d. not (dead_at i channel d)) db.deliveries },
)

-- The prefix of the bodies: negative means whole bodies, as 0 does.
abbrev pub prefix_of : ℤ → ℕ
prefix_of = positive_or 0

-- No row: the delivery is not dead in this channel.
or_dead_gone : Option (Option ℕ × ℕ) → Action World (Option ℕ × ℕ)
or_dead_gone none = fail dead_gone
or_dead_gone (some at) = pure at

module _ (env : Env) where
  pub list_dead : ℤ → ℤ → ℤ → ℤ → Action World (List DeadDelivery)
  unfolding select_dead
  list_dead channel before limit prefix = elim (positive? channel) [
    | none ↦ fail invalid_id
    | some c ↦
        autocommit env
          (select_dead c before (positive_or default_dead_page limit) (prefix_of prefix))
  ]

  pub requeue_dead_body : ℕ → ℕ → ℕ → Action World (Option ℕ × ℕ)
  unfolding revive_dead extend_message or_dead_gone
  requeue_dead_body delivery channel ttl = do
    row ← statement env (revive_dead delivery channel ttl)
    at ← or_dead_gone row
    statement env (extend_message delivery ttl)
    pure at

  pub requeue_dead : ℕ → ℕ → ℤ → Action World (Unit {0})
  unfolding requeue_dead_body
  requeue_dead delivery channel fresh_ttl = elim (positive? fresh_ttl) [
    | none ↦ fail invalid_ttl
    | some d ↦ do
      at ← transaction env (requeue_dead_body delivery channel (duration_sec (pos d)))
      record_at stat_requeue at
  ]

  pub delete_dead : ℕ → ℕ → Action World (Unit {0})
  unfolding delete_dead_row or_dead_gone
  delete_dead delivery channel = do
    row ← autocommit env (delete_dead_row delivery channel)
    at ← or_dead_gone row
    record_at stat_purged at

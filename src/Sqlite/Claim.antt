-- ===== src/Sqlite/Claim.antt =====
-- driver/sqlite/claim.go: leasing eligible deliveries, with retries on a stale snapshot.
pub mod Valid
pub mod Lease
pub mod Bury
pub mod Examples
use novaque.Prelude.{
  ℕ, zero, suc, ◌+◌, ◌*◌, ◌/◌, ◌^◌, String, Bool, true, false, ◌&&◌, ◌||◌, not, Option, none, some,
  List, [], ◌∷◌, map, ltb, leb, ◌==◌, if◌then◌else◌,
}
use novaque.Prelude.Int.{ℤ, pos, positive?, positive_or}
use novaque.Prelude.Lists.{length, take, is_empty, select, modify, first, elem, sort_by}
use novaque.Store.Errors.{
  DbError, busy, busy_snapshot, Error, Result, ok, err, invalid_id, context_done,
  busy_after_retries, engine,
}
use novaque.Store.Types.{Delivery, pending, in_flight, dead}
use novaque.Store.Delay.{second, duration_sec}
use novaque.Action.{Action, pure, fail, gets, attempt, ◌>>=◌, ◌>>◌}
use novaque.Sqlite.Schema.{Db, DeliveryRow, is_pending, topic_by_id, channel_by_id, message_by_id}
use novaque.Sqlite.Engine.{Env, World, Stmt, stat_claim, stat_dead, statement, transaction}
use novaque.Sqlite.Sink.{record_stat}

abbrev pub claim_max_attempts : ℕ
claim_max_attempts = 10

-- time.go: Unix second 0 is the zero time.
unfoldable pub sec_to_time : ℕ → Option ℕ
sec_to_time zero = none
sec_to_time (suc n) = some (suc n)

-- The wait before an attempt, in nanoseconds, with the random number `r` that is drawn below its
-- argument: 1ms doubled, at most 50ms, and up to half of it more.
pub claim_backoff : ℕ → (ℕ → ℕ) → ℕ
claim_backoff attempt r =
    let d =
      (if ltb 50_000_000 (1_000_000 * 2 ^ attempt) then 50_000_000 else 1_000_000 * 2 ^ attempt) in
    d + r (d / 2 + 1)

-- Claimable now: pending, due, and not expired.
abbrev pub due : ℕ → DeliveryRow → Bool
due now d = is_pending d.status && leb d.available_at now && ltb now d.expires_at

-- ORDER BY available_at ASC, id ASC
abbrev pub earlier : DeliveryRow → DeliveryRow → Bool
earlier a b = ltb a.available_at b.available_at || a.available_at == b.available_at && leb a.id b.id

-- The poll: ids of claimable deliveries of the channel.
unfoldable pub poll_ready : ℕ → ℕ → Stmt (List ℕ)
poll_ready channel limit t db =
    let ready = select (λ d. d.channel_id == channel && due t.now d) db.deliveries in
    (ok (map (λ d. d.id) (take limit (sort_by earlier ready))), db)

-- The guarded UPDATE tests the eligibility again, and gives each row a token of its own.
abbrev pub leasable : List ℕ → ℕ → DeliveryRow → Bool
leasable ids now d = elem d.id ids && due now d

abbrev pub lease_row : String → ℕ → ℕ → (ℕ → String) → DeliveryRow → DeliveryRow
lease_row owner sec now blob d = record d {
  status = in_flight;
  attempts = d.attempts + 1;
  lease_owner = some owner;
  lease_token = some (blob d.id);
  lease_until = some (now + sec);
}

pub lease_ready : String → ℕ → List ℕ → Stmt (List ℕ)
lease_ready owner sec ids t db = (
  ok (map (λ d. d.id) (select (leasable ids t.now) db.deliveries)),
  record db {
    deliveries = modify (leasable ids t.now) (lease_row owner sec t.now t.blob) db.deliveries;
  },
)

-- A leased row has a token.
abbrev pub token_text : Option String → String
token_text none = ""
token_text (some t) = t

-- A row of the join of deliveries, messages, channels and topics: the topic id and the delivery.
abbrev pub Joined : Type 0
Joined = ℕ × Delivery

unfoldable pub join_row : Db → DeliveryRow → Option Joined
unfolding sec_to_time topic_by_id channel_by_id message_by_id
join_row db d = elim (message_by_id db.messages d.message_id) [
  | none ↦ none
  | some m ↦ elim (channel_by_id db.channels d.channel_id) [
    | none ↦ none
    | some c ↦ elim (topic_by_id db.topics c.topic_id) [
      | none ↦ none
      | some t ↦ some (
        c.topic_id,
        record {
          id = d.id;
          message_id = d.message_id;
          channel_id = d.channel_id;
          topic = t.name;
          channel = c.name;
          body = m.body;
          status = d.status;
          attempts = d.attempts;
          max_attempts = d.max_attempts;
          lease_token = token_text d.lease_token;
          available_at = sec_to_time d.available_at;
          lease_until = elim d.lease_until [ none ↦ none | some s ↦ sec_to_time s ];
        },
      )
    ]
  ]
]

abbrev pub keep_some : {A : Type 0} → Option A → List A → List A
keep_some none rest = rest
keep_some (some a) rest = a ∷ rest

unfoldable pub join_rows : Db → List DeliveryRow → List Joined
unfolding join_row
join_rows db [] = []
join_rows db (d ∷ ds) = keep_some (join_row db d) (join_rows db ds)

unfoldable pub load_claimed : List ℕ → Stmt (List Joined)
unfolding join_rows
load_claimed ids t db = (ok (join_rows db (select (λ d. elem d.id ids) db.deliveries)), db)

abbrev pub poisoned : Joined → Bool
poisoned j = ltb j.1.max_attempts j.1.attempts

abbrev pub bury_row : DeliveryRow → DeliveryRow
bury_row d = record d { status = dead; lease_owner = none; lease_token = none; lease_until = none }

unfoldable pub mark_dead : List ℕ → Stmt (Unit {0})
mark_dead ids t db =
    (ok tt, record db { deliveries = modify (λ d. elem d.id ids) bury_row db.deliveries })

-- The topic of the last row read, 0 if there was none.
unfoldable pub last_topic : ℕ → List Joined → ℕ
last_topic t [] = t
last_topic t (j ∷ js) = last_topic j.0 js

-- The deliveries in the order of the claimed ids.
unfoldable pub in_claim_order : List ℕ → List Joined → List Delivery
in_claim_order [] live = []
in_claim_order (i ∷ is) live = elim (first (λ j. j.1.id == i) live) [
  | none ↦ in_claim_order is live
  | some j ↦ j.1 ∷ in_claim_order is live
]

pub record ClaimTx : Type 0 where
  pub out : List Delivery
  pub stat_topic : ℕ
  pub claimed_count : ℕ
  pub dead_count : ℕ

abbrev pub no_claim : ClaimTx
no_claim = record { out = []; stat_topic = 0; claimed_count = 0; dead_count = 0 }

abbrev pub dead_ids : List Joined → List ℕ
dead_ids rows = map (λ j. j.1.id) (select poisoned rows)

unfoldable pub claim_result : List ℕ → List Joined → ClaimTx
unfolding in_claim_order last_topic
claim_result claimed rows = record {
  out = in_claim_order claimed (select (λ j. not (poisoned j)) rows);
  stat_topic = last_topic 0 rows;
  claimed_count = length claimed;
  dead_count = length (dead_ids rows);
}

module _ (env : Env) (channel : ℕ) (owner : String) (lease_sec : ℕ) (limit : ℕ) where
  -- Rows over their cap are dead, and not handed out.
  pub bury : List ℕ → Action World (Unit {0})
  unfolding mark_dead
  bury ids = if is_empty ids then pure tt else statement env (mark_dead ids)

  -- From the ids that were leased, in poll order, to the result.
  pub load_and_bury : List ℕ → Action World ClaimTx
  unfolding load_claimed bury claim_result
  load_and_bury claimed = do
    rows ← statement env (load_claimed claimed)
    bury (dead_ids rows)
    pure (claim_result claimed rows)

  pub claim_leased : List ℕ → Action World ClaimTx
  unfolding lease_ready load_and_bury
  claim_leased ids = do
    leased ← statement env (lease_ready owner lease_sec ids)
    let claimed = select (λ i. elem i leased) ids
    if is_empty claimed then pure no_claim else load_and_bury claimed

  pub claim_body : Action World ClaimTx
  unfolding poll_ready claim_leased
  claim_body = do
    ids ← statement env (poll_ready channel limit)
    if is_empty ids then pure no_claim else claim_leased ids

  pub run_claim_tx : Action World ClaimTx
  unfolding claim_body
  run_claim_tx = transaction env claim_body

  record_claim : ClaimTx → Action World (List Delivery)
  record_claim c = do
    record_stat c.stat_topic channel stat_claim c.claimed_count
    if c.dead_count == 0 then pure tt else record_stat c.stat_topic channel stat_dead c.dead_count
    pure c.out

  -- Whether the context is done while the code waits for its next attempt.
  wait_turn : ℕ → Action World Bool
  wait_turn zero = pure false
  wait_turn (suc n) = gets (λ w. env.cancelled w.calls)

  -- A busy engine is tried again, any other error is passed on.
  settle_claim :
      Result ClaimTx → (DbError → Action World (List Delivery)) → Action World (List Delivery)
  unfolding record_claim
  settle_claim (ok c) retry = record_claim c
  settle_claim (err (engine busy)) retry = retry busy
  settle_claim (err (engine busy_snapshot)) retry = retry busy_snapshot
  settle_claim (err e) retry = fail e

  -- `left` attempts remain of which the next is number `n`.
  pub claim_loop : ℕ → ℕ → DbError → Action World (List Delivery)
  unfolding run_claim_tx wait_turn settle_claim
  claim_loop zero n last = fail (busy_after_retries last)
  claim_loop (suc left) n last = do
    stopped ← wait_turn n
    if stopped
        then fail context_done
        else do r ← attempt run_claim_tx; settle_claim r (λ e. claim_loop left (suc n) e)

abbrev pub lease_or_default : ℤ → ℤ
lease_or_default d = pos (positive_or (30 * second) d)

module _ (env : Env) where
  pub claim : ℤ → String → ℤ → ℤ → Action World (List Delivery)
  unfolding claim_loop
  claim channel owner lease_for limit = elim (positive? channel) [
    | none ↦ fail invalid_id
    | some c ↦
        claim_loop env c owner (duration_sec (lease_or_default lease_for)) (positive_or 1 limit)
          claim_max_attempts 0 busy
  ]

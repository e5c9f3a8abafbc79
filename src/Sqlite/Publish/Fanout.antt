-- ===== src/Sqlite/Publish/Fanout.antt =====
-- A publish reaches each channel of its topic once, and no other.
use novaque.Prelude.{
  ℕ, suc, ◌+◌, ◌≤◌, ◌<◌, ◌≡◌, refl, ap, subst, sym, ◌∙◌, inl, inr, Bool, true, false, ◌&&◌, none,
  some, List, [], ◌∷◌, ◌++◌, ◌==◌, if◌then◌else◌, arith, Bool-cases,
}
use novaque.Prelude.Int.{positive_or}
use novaque.Prelude.Lists.{All, select, first, exists, count}
use novaque.Prelude.Rows.{Asc}
use novaque.Store.Errors.{Result, ok, err, engine, foreign_key}
use novaque.Store.Types.{PublishOpts}
use novaque.Store.Delay.{delay_sec, validate_publish_delay}
use novaque.Action.{Action, pure, lift, update, >>=-eq-ok, ◌>>=◌}
use novaque.Sqlite.Schema.{Db, ChannelRow, MessageRow, DeliveryRow, message_by_id}
use novaque.Sqlite.Engine.{Env, World, Tick, tick_at, statement, others_commit, transaction}
use novaque.Sqlite.Engine.Rules.{statement-eq-ok, transaction-eq-ok}
use novaque.Sqlite.Invariant.{IsValid, has_message}
use novaque.Sqlite.Sink.{record_stat}
use novaque.Sqlite.Publish.{
  default_max_attempts, message_expiry, select_now, insert_message, fan_out, insert_fan_out,
  record_each, record_publish, publish_body, publish_tx,
}

-- The deliveries of a message to a channel.
abbrev pub copies : ℕ → ℕ → List DeliveryRow → ℕ
copies message channel = count (λ d. d.message_id == message && d.channel_id == channel)

-- One if the channel is one of the topic's, else none.
abbrev pub subscribed : ℕ → ℕ → List ChannelRow → ℕ
subscribed topic channel cs =
    if exists (λ c. c.id == channel && c.topic_id == topic) cs then 1 else 0

copies-append :
    (m ch : ℕ) (xs ys : List DeliveryRow) → copies m ch (xs ++ ys) ≡ copies m ch xs + copies m ch ys
copies-append m ch [] ys = omega arith
copies-append m ch (x ∷ xs) ys = ground (arith, copies-append m ch xs ys)

Asc-le : {A : Type 0} (key : A → ℕ) (lo : ℕ) (xs : List A) (hi : ℕ) → Asc key lo xs hi → lo ≤ hi
Asc-le key lo [] hi a = a
Asc-le key lo (x ∷ xs) hi a = omega (arith, a.0, Asc-le key (suc (key x)) xs hi a.1)

-- A key that some row has is below the sequence.
has_below :
    {A : Type 0} (key : A → ℕ) (lo i : ℕ) (xs : List A) (hi : ℕ)
    → Asc key lo xs hi
    → exists (λ r. key r == i) xs ≡ true
    → i < hi
has_below key lo i [] hi a h = absurd (cc)
has_below key lo i (x ∷ xs) hi a h = elim (Bool-cases (key x == i)) [
  | inl e ↦ ground (arith, Asc-le key (suc (key x)) xs hi a.1)
  | inr e ↦ has_below key (suc (key x)) i xs hi a.1 (rw e at h)
]

copies_none :
    (ms : List MessageRow) (m ch : ℕ) (ds : List DeliveryRow)
    → ((i : ℕ) → has_message ms i ≡ true → i < m)
    → All (λ d. has_message ms d.message_id ≡ true) ds
    → copies m ch ds ≡ 0
copies_none ms m ch [] f h = refl
copies_none ms m ch (d ∷ ds) f h = ground (arith, f d.message_id h.0, copies_none ms m ch ds f h.1)

copies-fan_out :
    (next : ℕ) (m : MessageRow) (available max ch : ℕ) (cs : List ChannelRow)
    → copies m.id ch (fan_out next m available max cs) ≡ count (λ c. c.id == ch) cs
unfolding fan_out
copies-fan_out next m available max ch [] = refl
copies-fan_out next m available max ch (c ∷ cs) =
    ground (arith, copies-fan_out (suc next) m available max ch cs)

targets_below :
    (topic ch lo : ℕ) (cs : List ChannelRow) (hi : ℕ)
    → Asc (λ c. c.id) lo cs hi
    → ch < lo
    → (count (λ c. c.id == ch) (select (λ c. c.topic_id == topic) cs) ≡ 0)
      × (exists (λ c. c.id == ch && c.topic_id == topic) cs ≡ false)
targets_below topic ch lo [] hi a h = (refl, refl)
targets_below topic ch lo (c ∷ cs) hi a h =
    ground (arith, targets_below topic ch (suc c.id) cs hi a.1)

-- Ids are unique, so a channel is at most once among the targets.
targets_once :
    (topic ch lo : ℕ) (cs : List ChannelRow) (hi : ℕ)
    → Asc (λ c. c.id) lo cs hi
    → count (λ c. c.id == ch) (select (λ c. c.topic_id == topic) cs) ≡ subscribed topic ch cs
targets_once topic ch lo [] hi a = refl
targets_once topic ch lo (c ∷ cs) hi a =
    ground (
      arith,
      targets_below topic ch (suc c.id) cs hi a.1,
      targets_once topic ch (suc c.id) cs hi a.1,
    )

pub first-append_last :
    {A : Type 0} (p : A → Bool) (xs : List A) (x : A)
    → first p xs ≡ none
    → p x ≡ true
    → first p (xs ++ x ∷ []) ≡ some x
first-append_last p [] x h k = rw k refl
first-append_last p (y ∷ ys) x h k = elim (Bool-cases (p y)) [
  | inl e ↦ let found : some y ≡ none = rw e at h in absurd (cc)
  | inr e ↦ rw e (first-append_last p ys x (rw e at h) k)
]

pub no_message : (db : Db) → IsValid db → first (λ m. m.id == db.next_message) db.messages ≡ none
no_message db v = none_from 1 db.messages v.message_ids
  where
    none_from :
        (lo : ℕ) (ms : List MessageRow)
        → Asc (λ m. m.id) lo ms db.next_message
        → first (λ m. m.id == db.next_message) ms ≡ none
    none_from lo [] a = refl
    none_from lo (m ∷ ms) a =
        ground
          (arith, Asc-le (λ r. r.id) (suc m.id) ms db.next_message a.1, none_from (suc m.id) ms a.1)

zero_add : (n : ℕ) → 0 + n ≡ n
zero_add n = omega arith

fanned :
    (topic ch available max expires : ℕ) (body : List ℕ) (t : Tick) (db : Db)
    → IsValid db
    → let m : MessageRow = record {
      id = db.next_message;
      topic_id = topic;
      body = body;
      expires_at = expires;
    } in
      copies m.id ch
        (insert_fan_out topic m.id available max t
          (record db { messages = db.messages ++ m ∷ []; next_message = suc m.id })).1.deliveries
      ≡ subscribed topic ch db.channels
unfolding insert_fan_out message_by_id
fanned topic ch available max expires body t db v =
    let m : MessageRow = record {
      id = db.next_message;
      topic_id = topic;
      body = body;
      expires_at = expires;
    } in
    let targets = select (λ c. c.topic_id == topic) db.channels in
    let found =
      first-append_last (λ r. r.id == db.next_message) db.messages m (no_message db v)
        (ground arith) in
    let old =
      copies_none db.messages db.next_message ch db.deliveries
        (λ i h. has_below (λ r. r.id) 1 i db.messages db.next_message v.message_ids h)
        v.delivery_messages in
    rw (found, insert_fan_out)
      (copies-append db.next_message ch db.deliveries
          (fan_out db.next_delivery m available max targets)
        ∙ ap (λ n. n + copies db.next_message ch (fan_out db.next_delivery m available max targets))
            old
        ∙ zero_add (copies db.next_message ch (fan_out db.next_delivery m available max targets))
        ∙ copies-fan_out db.next_delivery m available max ch targets
        ∙ targets_once topic ch 1 db.channels db.next_channel v.channel_ids)

-- The message and its deliveries, inserted one after the other.
inserted :
    (topic id ch available max expires : ℕ) (body : List ℕ) (t t' : Tick) (db : Db)
    → IsValid db
    → (insert_message topic body expires t db).0 ≡ ok id
    → copies id ch
        (insert_fan_out topic id available max t'
          (insert_message topic body expires t db).1).1.deliveries
      ≡ subscribed topic ch db.channels
unfolding insert_message
inserted topic id ch available max expires body t t' db v h =
    elim (Bool-cases (exists (λ r. r.id == topic) db.topics)) [
      | inr e ↦
          let refused : err (engine foreign_key) ≡ ok id = rw (e, insert_message) at h in
          absurd (cc)
      | inl e ↦
          let same : ok db.next_message ≡ ok id = rw (e, insert_message) at h in
          let same' : db.next_message ≡ id = cc in
          subst
            (λ i.
              copies i ch
                (insert_fan_out topic i available max t'
                  (insert_message topic body expires t db).1).1.deliveries
              ≡ subscribed topic ch db.channels)
            same' (rw (e, insert_message) (fanned topic ch available max expires body t' db v))
    ]

record_each-db : (topic : ℕ) (cs : List ℕ) (w : World) → (record_each topic cs w).1.db ≡ w.db
unfolding record_each record_stat pure ◌>>=◌ update
record_each-db topic [] w = refl
record_each-db topic (c ∷ cs) w = record_each-db topic cs _

pub record_publish-db :
    (topic : ℕ) (cs : List ℕ) (w : World) → (record_publish topic cs w).1.db ≡ w.db
unfolding record_publish record_stat update
record_publish-db topic [] w = refl
record_publish-db topic (c ∷ cs) w = record_each-db topic (c ∷ cs) w

same_first :
    (i id : ℕ) (f fanout : List ℕ)
    → ◌≡◌ {A = Result (ℕ × List ℕ)} (ok (i, f)) (ok (id, fanout))
    → i ≡ id
same_first i id f fanout h =
    let same : ◌≡◌ {A = ℕ × List ℕ} (i, f) (id, fanout) = cc in ap (λ (p : ℕ × List ℕ). p.0) same

module _ (env : Env) (topic : ℕ) (body : List ℕ) (max : ℕ) where
  insert_both : ℕ → ℕ → Action World (ℕ × List ℕ)
  insert_both available expires = statement env (insert_message topic body expires) >>= λ i.
      (statement env (insert_fan_out topic i available max) >>= λ f. pure (i, f))

  insert_both-copies :
      (available expires : ℕ) (w : World) (id ch : ℕ) (fanout : List ℕ)
      → IsValid w.db
      → (insert_both available expires w).0 ≡ ok (id, fanout)
      → copies id ch (insert_both available expires w).1.db.deliveries
        ≡ subscribed topic ch w.db.channels
  unfolding insert_both pure
  insert_both-copies available expires w id ch fanout v h =
      let (i, ran, h', e) = >>=-eq-ok (statement env (insert_message topic body expires)) _ w h in
      let r = statement-eq-ok env (insert_message topic body expires) w i ran in
      let w' = (statement env (insert_message topic body expires) w).1 in
      let (f, ran', h'', e') =
        >>=-eq-ok (statement env (insert_fan_out topic i available max)) _ w' h' in
      let r' = statement-eq-ok env (insert_fan_out topic i available max) w' f ran' in
      let same = same_first i id f fanout h'' in
      let there =
        inserted topic id ch available max expires body (tick_at env w.calls) (tick_at env w'.calls)
          w.db v (r.0 ∙ ap ok same) in
      let copied = λ (j : ℕ) (db : Db).
        copies id ch
          (insert_fan_out topic j available max (tick_at env w'.calls) db).1.deliveries in
      ap (λ (z : Result (ℕ × List ℕ) × World). copies id ch z.1.db.deliveries) (e ∙ e')
      ∙ ap (λ (u : World). copies id ch u.db.deliveries) r'.1
      ∙ ap (λ (u : World). copied i u.db) r.1
      ∙ ap (λ (j : ℕ). copied j (insert_message topic body expires (tick_at env w.calls) w.db).1)
          same
      ∙ there

  body-copies :
      (opts : PublishOpts) (w : World) (id ch : ℕ) (fanout : List ℕ)
      → IsValid w.db
      → (publish_body env topic body opts max w).0 ≡ ok (id, fanout)
      → copies id ch (publish_body env topic body opts max w).1.db.deliveries
        ≡ subscribed topic ch w.db.channels
  unfolding publish_body select_now lift insert_both
  body-copies opts w id ch fanout v h =
      let (now, ran, h1, e1) = >>=-eq-ok (statement env select_now) _ w h in
      let r1 = statement-eq-ok env select_now w now ran in
      let w1 = (statement env select_now w).1 in
      let (_, _, h2, e2) = >>=-eq-ok (lift (validate_publish_delay opts now)) _ w1 h1 in
      let same : w1.db ≡ w.db = ap (λ (u : World). u.db) r1.1 in
      let v' = subst IsValid (sym same) v in
      ap (λ (z : Result (ℕ × List ℕ) × World). copies id ch z.1.db.deliveries) (e1 ∙ e2)
      ∙ (insert_both-copies (now + delay_sec opts.delay) (message_expiry opts now) w1 id ch fanout
            v' h2
          ∙ ap (λ (db : Db). subscribed topic ch db.channels) same)

-- A publish that succeeds on a well-formed database has one delivery of the new message for each channel
-- of the topic, and none for any other channel.
pub publish_tx-copies :
    (env : Env) (topic : ℕ) (body : List ℕ) (opts : PublishOpts) (w : World) (id channel : ℕ)
    → IsValid (env.others w.calls w.db)
    → (publish_tx env topic body opts w).0 ≡ ok id
    → copies id channel (publish_tx env topic body opts w).1.db.deliveries
      ≡ subscribed topic channel (env.others w.calls w.db).channels
unfolding publish_tx others_commit pure
publish_tx-copies env topic body opts w id ch v h =
    let max = positive_or default_max_attempts opts.max_attempts in
    let b = publish_body env topic body opts max in
    let (p, ran, h', e) = >>=-eq-ok (transaction env b) _ w h in
    let r = transaction-eq-ok env b w p ran in
    let started = record (others_commit env w) { calls = suc w.calls } in
    let w' = (transaction env b w).1 in
    let (_, _, h'', e') = >>=-eq-ok (record_publish topic p.1) _ w' h' in
    let same : ok p.0 ≡ ok id = h'' in
    let same' : p.0 ≡ id = cc in
    ap (λ (z : Result ℕ × World). copies id ch z.1.db.deliveries) (e ∙ e')
    ∙ ap (λ (db : Db). copies id ch db.deliveries) (record_publish-db topic p.1 w')
    ∙ ap (λ (u : World). copies id ch u.db.deliveries) r.1
    ∙ ap (λ (i : ℕ). copies i ch (b started).1.db.deliveries) (sym same')
    ∙ body-copies env topic body max opts started p.0 ch p.1 v r.0

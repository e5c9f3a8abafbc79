-- ===== src/Sqlite/Publish/Window.antt =====
-- The check of the delay and the insert of the message agree on the expiry.
use novaque.Prelude.{
  ℕ, suc, ◌+◌, ◌/◌, ◌≤◌, ◌<◌, ◌≡◌, refl, ap, subst, sym, ◌∙◌, ◌⊎◌, inl, inr, List, [], ◌∷◌, ◌++◌,
  ◌==◌, arith, Bool-cases,
}
use novaque.Prelude.Int.{pos, positive_or}
use novaque.Prelude.Lists.{All, select, exists}
use novaque.Store.Errors.{Result, ok, err, engine, foreign_key}
use novaque.Store.Types.{PublishOpts}
use novaque.Store.Delay.{second, delay_sec, expires_at_unix, validate_publish_delay}
use novaque.Store.Delay.Window.{validate_publish_delay_iff}
use novaque.Action.{pure, lift, >>=-eq-ok}
use novaque.Sqlite.Schema.{Db, ChannelRow, MessageRow, DeliveryRow, message_by_id}
use novaque.Sqlite.Engine.{Env, World, Tick, tick_at, statement, others_commit, transaction}
use novaque.Sqlite.Engine.Rules.{statement-eq-ok, transaction-eq-ok}
use novaque.Sqlite.Invariant.{IsValid}
use novaque.Sqlite.Publish.{
  default_max_attempts, message_expiry, select_now, insert_message, fan_out, insert_fan_out,
  record_publish, publish_body, publish_tx,
}
use novaque.Sqlite.Publish.Fanout.{first-append_last, no_message, record_publish-db}

pos-injective : (a b : ℕ) → pos a ≡ pos b → a ≡ b
pos-injective a b h = cc

expiry-agrees : (opts : PublishOpts) (now : ℕ) → message_expiry opts now ≡ expires_at_unix opts now
unfolding message_expiry expires_at_unix
expiry-agrees opts now = refl

window_of :
    (d now e : ℕ) → second ≤ d → (d < second) ⊎ (now + d / second < e) → now + d / second < e
window_of d now e h (inl k) = absurd (omega arith)
window_of d now e h (inr k) = k

-- The expiry of the insert comes after the end of the delay that the check accepted.
expiry-after_delay :
    (opts : PublishOpts) (now d : ℕ)
    → validate_publish_delay opts now ≡ ok tt
    → opts.delay ≡ pos d
    → second ≤ d
    → now + delay_sec opts.delay < message_expiry opts now
unfolding delay_sec expires_at_unix
expiry-after_delay opts now d valid is h =
    let a = (validate_publish_delay_iff opts now).0 valid in
    let same : a.delay ≡ d = pos-injective a.delay d (sym a.is_delay ∙ is) in
    rw (expiry-agrees opts now, a.is_delay)
      (window_of a.delay now (expires_at_unix opts now) (rw same h) a.window)

-- What was added to the deliveries: rows of the message that can be claimed before they expire.
pub record Opened (old : List DeliveryRow) (id : ℕ) (all : List DeliveryRow) : Type 0 where
  pub new : List DeliveryRow
  pub added : all ≡ old ++ new
  pub of_message : All (λ d. d.message_id ≡ id) new
  pub window : All (λ d. d.available_at < d.expires_at) new

fan_out-window :
    (next : ℕ) (m : MessageRow) (available max : ℕ) (cs : List ChannelRow)
    → available < m.expires_at
    → All (λ d. d.message_id ≡ m.id) (fan_out next m available max cs)
      × All (λ d. d.available_at < d.expires_at) (fan_out next m available max cs)
unfolding fan_out
fan_out-window next m available max [] h = (tt, tt)
fan_out-window next m available max (c ∷ cs) h =
    let rest = fan_out-window (suc next) m available max cs h in ((refl, rest.0), (h, rest.1))

fanned-Opened :
    (topic available expires max : ℕ) (body : List ℕ) (t : Tick) (db : Db)
    → IsValid db
    → available < expires
    → let m : MessageRow = record {
      id = db.next_message;
      topic_id = topic;
      body = body;
      expires_at = expires;
    } in
      Opened db.deliveries m.id
        (insert_fan_out topic m.id available max t
          (record db { messages = db.messages ++ m ∷ []; next_message = suc m.id })).1.deliveries
unfolding insert_fan_out message_by_id
fanned-Opened topic available expires max body t db v h =
    let m : MessageRow = record {
      id = db.next_message;
      topic_id = topic;
      body = body;
      expires_at = expires;
    } in
    let found =
      first-append_last (λ r. r.id == db.next_message) db.messages m (no_message db v)
        (ground arith) in
    let targets = select (λ c. c.topic_id == topic) db.channels in
    let rows = fan_out-window db.next_delivery m available max targets h in
    rw (found, insert_fan_out)
      (record {
        new = fan_out db.next_delivery m available max targets;
        added = refl;
        of_message = rows.0;
        window = rows.1;
      })

inserted-Opened :
    (topic available expires max : ℕ) (body : List ℕ) (t t' : Tick) (db : Db) (i : ℕ)
    → IsValid db
    → available < expires
    → (insert_message topic body expires t db).0 ≡ ok i
    → Opened db.deliveries i
        (insert_fan_out topic i available max t'
          (insert_message topic body expires t db).1).1.deliveries
unfolding insert_message
inserted-Opened topic available expires max body t t' db i v h ran =
    elim (Bool-cases (exists (λ r. r.id == topic) db.topics)) [
      | inl e ↦
          let given : ok db.next_message ≡ ok i = rw (e, insert_message) at ran in
          let same : db.next_message ≡ i = cc in
          subst
            (λ j.
              Opened db.deliveries j
                (insert_fan_out topic j available max t'
                  (insert_message topic body expires t db).1).1.deliveries)
            same (rw (e, insert_message) (fanned-Opened topic available expires max body t' db v h))
      | inr e ↦
          let refused : err (engine foreign_key) ≡ ok i = rw (e, insert_message) at ran in
          absurd (cc)
    ]

body-Opened :
    (env : Env) (topic : ℕ) (body : List ℕ) (opts : PublishOpts) (max : ℕ) (w : World) (d : ℕ)
    (p : ℕ × List ℕ)
    → IsValid w.db
    → opts.delay ≡ pos d
    → second ≤ d
    → (publish_body env topic body opts max w).0 ≡ ok p
    → Opened w.db.deliveries p.0 (publish_body env topic body opts max w).1.db.deliveries
unfolding publish_body select_now lift pure
body-Opened env topic body opts max w d p v is long h =
    let (now, ran, h1, e1) = >>=-eq-ok (statement env select_now) _ w h in
    let r1 = statement-eq-ok env select_now w now ran in
    let w1 = (statement env select_now w).1 in
    let (_, valid, h2, e2) = >>=-eq-ok (lift (validate_publish_delay opts now)) _ w1 h1 in
    let expires = message_expiry opts now in
    let available = now + delay_sec opts.delay in
    let insert = insert_message topic body expires in
    let (i, ran2, h3, e3) = >>=-eq-ok (statement env insert) _ w1 h2 in
    let r2 = statement-eq-ok env insert w1 i ran2 in
    let w2 = (statement env insert w1).1 in
    let fan = insert_fan_out topic i available max in
    let (f, ran3, h4, e4) = >>=-eq-ok (statement env fan) _ w2 h3 in
    let r3 = statement-eq-ok env fan w2 f ran3 in
    let still : w1.db ≡ w.db = ap (λ (u : World). u.db) r1.1 in
    let same : i ≡ p.0 = first_of i f p h4 in
    let opened =
      inserted-Opened topic available expires max body (tick_at env w1.calls) (tick_at env w2.calls)
        w1.db i (subst IsValid (sym still) v) (expiry-after_delay opts now d valid is long) r2.0 in
    let ends : (publish_body env topic body opts max w).1.db.deliveries
        ≡ (fan (tick_at env w2.calls) (insert (tick_at env w1.calls) w1.db).1).1.deliveries =
      ap (λ (z : Result (ℕ × List ℕ) × World). z.1.db.deliveries) (e1 ∙ e2 ∙ e3 ∙ e4)
      ∙ ap (λ (u : World). u.db.deliveries) r3.1
      ∙ ap (λ (u : World). (fan (tick_at env w2.calls) u.db).1.deliveries) r2.1 in
    subst (λ j. Opened w.db.deliveries j (publish_body env topic body opts max w).1.db.deliveries)
      same
      (subst (λ ds. Opened w.db.deliveries i ds) (sym ends)
        (subst
          (λ (db : Db).
            Opened db.deliveries i
              (fan (tick_at env w2.calls) (insert (tick_at env w1.calls) w1.db).1).1.deliveries)
          still opened))
  where
    first_of : (i : ℕ) (f : List ℕ) (p : ℕ × List ℕ) → ok (i, f) ≡ ok p → i ≡ p.0
    first_of i f p k = ap (λ (q : ℕ × List ℕ). q.0) (pair k)
      where
        pair : ok (i, f) ≡ ok p → (i, f) ≡ p
        pair k = cc

-- A publish that succeeds with a delay of a second or more, on a well-formed database, adds deliveries of
-- its message only, and each of them becomes available before it expires: the insert computes the
-- same expiry as the check of the delay.
pub publish_tx-Opened :
    (env : Env) (topic : ℕ) (body : List ℕ) (opts : PublishOpts) (w : World) (d id : ℕ)
    → IsValid (env.others w.calls w.db)
    → opts.delay ≡ pos d
    → second ≤ d
    → (publish_tx env topic body opts w).0 ≡ ok id
    → Opened
        (env.others w.calls w.db).deliveries
        id
        (publish_tx env topic body opts w).1.db.deliveries
unfolding publish_tx others_commit pure
publish_tx-Opened env topic body opts w d id v is long h =
    let b = publish_body env topic body opts (positive_or default_max_attempts opts.max_attempts) in
    let (p, ran, h', e) = >>=-eq-ok (transaction env b) _ w h in
    let r = transaction-eq-ok env b w p ran in
    let started = record (others_commit env w) { calls = suc w.calls } in
    let w' = (transaction env b w).1 in
    let (_, _, h'', e') = >>=-eq-ok (record_publish topic p.1) _ w' h' in
    let given : ok p.0 ≡ ok id = h'' in
    let same : p.0 ≡ id = cc in
    let ends : (publish_tx env topic body opts w).1.db.deliveries ≡ (b started).1.db.deliveries =
      ap (λ (z : Result ℕ × World). z.1.db.deliveries) (e ∙ e')
      ∙ ap (λ (db : Db). db.deliveries) (record_publish-db topic p.1 w')
      ∙ ap (λ (u : World). u.db.deliveries) r.1 in
    let opened =
      body-Opened env topic body opts (positive_or default_max_attempts opts.max_attempts) started d
        p v is long r.0 in
    subst (λ ds. Opened (env.others w.calls w.db).deliveries id ds) (sym ends)
      (subst (λ j. Opened (env.others w.calls w.db).deliveries j (b started).1.db.deliveries) same
        opened)

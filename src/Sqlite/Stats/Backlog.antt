-- ===== src/Sqlite/Stats/Backlog.antt =====
-- The backlog's ready count is what a claim's poll would find.
use novaque.Prelude.{
  ℕ, zero, suc, ◌+◌, ◌≤◌, ◌≡◌, refl, ap, ◌∙◌, Bool, ◌&&◌, List, [], ◌∷◌, map, ◌==◌, leb, ltb,
  if◌then◌else◌, arith,
}
use novaque.Prelude.Lists.{length, take, select, count, sort_by}
use novaque.Prelude.Keys.{length-map, length-sort_by}
use novaque.Store.Errors.{ok}
use novaque.Store.Types.{ChannelBacklog, Status, pending, in_flight, dead}
use novaque.Sqlite.Schema.{Db, DeliveryRow, is_pending, is_in_flight, is_dead}
use novaque.Sqlite.Engine.{Tick}
use novaque.Sqlite.Claim.{due, earlier, poll_ready}
use novaque.Sqlite.Stats.{backlog_of, select_backlog}

length-take :
    (n : ℕ) (ds : List DeliveryRow)
    → length (take n ds) ≡ (if leb (length ds) n then length ds else n)
length-take zero [] = refl
length-take zero (d ∷ ds) = ground arith
length-take (suc n) [] = ground arith
length-take (suc n) (d ∷ ds) = ground (arith, length-take n ds)

count-select_and :
    (p q : DeliveryRow → Bool) (ds : List DeliveryRow)
    → length (select (λ d. p d && q d) ds) ≡ count q (select p ds)
count-select_and p q [] = refl
count-select_and p q (d ∷ ds) = ground (arith, count-select_and p q ds)

status_step :
    (s : Status) (x y : Bool) (r p i d n : ℕ)
    → r ≤ p
    → p + i + d ≡ n
    → ((if is_pending s && x && y then suc r else r) ≤ (if is_pending s then suc p else p))
      × ((if is_pending s then suc p else p)
            + (if is_in_flight s then suc i else i)
            + (if is_dead s then suc d else d)
          ≡ suc n)
status_step pending x y r p i d n h k = ground arith
status_step in_flight x y r p i d n h k = ground arith
status_step dead x y r p i d n h k = ground arith

counts_split :
    (now : ℕ) (ds : List DeliveryRow)
    → (count (due now) ds ≤ count (λ d. is_pending d.status) ds)
      × (count (λ d. is_pending d.status) ds
            + count (λ d. is_in_flight d.status) ds
            + count (λ d. is_dead d.status) ds
          ≡ length ds)
counts_split now [] = (omega arith, omega arith)
counts_split now (d ∷ ds) =
    status_step d.status (leb d.available_at now) (ltb now d.expires_at) _ _ _ _ _
      (counts_split now ds).0 (counts_split now ds).1

-- On one snapshot, a poll of the channel finds as many ids as the backlog's ready count, or `limit` of them if that is less; ready
-- is within pending, and pending, in flight and dead make up all deliveries of the channel.
pub poll_ready-backlog :
    (channel limit : ℕ) (t : Tick) (db : Db) (ids : List ℕ) (b : ChannelBacklog)
    → (poll_ready channel limit t db).0 ≡ ok ids
    → (select_backlog channel t db).0 ≡ ok b
    → (length ids ≡ (if leb b.ready limit then b.ready else limit))
      × (b.ready ≤ b.pending)
      × (b.pending + b.in_flight + b.dead
          ≡ length (select (λ d. d.channel_id == channel) db.deliveries))
unfolding poll_ready select_backlog backlog_of
poll_ready-backlog channel limit t db ids b h k =
    let mine = select (λ d. d.channel_id == channel) db.deliveries in
    let ready = select (λ d. d.channel_id == channel && due t.now d) db.deliveries in
    let polled : map (λ d. d.id) (take limit (sort_by earlier ready)) ≡ ids = cc in
    let counted : backlog_of t.now mine ≡ b = cc in
    let number : length (sort_by earlier ready) ≡ count (due t.now) mine =
      length-sort_by earlier ready
      ∙ count-select_and (λ d. d.channel_id == channel) (due t.now) db.deliveries in
    let found =
      length-map (λ (d : DeliveryRow). d.id) (take limit (sort_by earlier ready))
      ∙ length-take limit (sort_by earlier ready)
      ∙ ap (λ n. if leb n limit then n else limit) number in
    rw (← polled, ← counted) (found, (counts_split t.now mine).0, (counts_split t.now mine).1)

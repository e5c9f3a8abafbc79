-- ===== src/Sqlite/Lifecycle.antt =====
-- The life of a delivery, as the drivers' statements change its row.
use novaque.Prelude.{
  ℕ, String, ◌≡◌, ◌≤◌, refl, ◌∙◌, Bool, true, arith, ltb, List, not, ap, ◌&&◌, false, ◌==◌, Option,
}
use novaque.Prelude.Lists.{first}
use novaque.Store.Types.{Status, pending, in_flight, dead}
use novaque.Prelude.Keys.{and_left}
use novaque.Sqlite.Schema.{DeliveryRow, is_pending, is_in_flight, is_dead, token_is}
use novaque.Sqlite.Claim.{due, lease_row, bury_row}
use novaque.Sqlite.Finish.{leased_as, release_row}
use novaque.Sqlite.Maintenance.{lapsed}
use novaque.Sqlite.Admin.Dead.{revive_row}

-- Whether lives are followed, and then how a claim's lease may come after its poll: in the same instant,
-- as within one SQLite transaction, or at any time from then on.
pub data Pace : Type 0 where
  unfollowed same_instant from_then_on : Pace

-- Also which deliveries may be revived from dead.
pub record Tracing : Type 0 where
  pub pace : Pace
  pub revivable : ℕ → Bool

abbrev pub unseen : Tracing
unseen = record { pace = unfollowed; revivable = λ i. true }

abbrev pub at_once : Tracing
at_once = record { pace = same_instant; revivable = λ i. true }

abbrev pub in_turn : Tracing
in_turn = record { pace = from_then_on; revivable = λ i. true }

-- All but the delivery `i` may be revived.
abbrev pub sparing : ℕ → Tracing → Tracing
sparing i t = record t { revivable = λ j. not (j == i) }

abbrev follows : Pace → Bool
follows unfollowed = false
follows same_instant = true
follows from_then_on = true

abbrev pub traces : Tracing → Bool
traces t = follows t.pace

abbrev Paced : Pace → ℕ → ℕ → Type 0
Paced same_instant polled now = polled ≡ now
Paced unfollowed polled now = polled ≤ now
Paced from_then_on polled now = polled ≤ now

abbrev pub Timely : Tracing → ℕ → ℕ → Type 0
Timely t = Paced t.pace

Paced-same : (p : Pace) (now : ℕ) → Paced p now now
Paced-same same_instant now = refl
Paced-same unfollowed now = omega arith
Paced-same from_then_on now = omega arith

pub Timely-same : (t : Tracing) (now : ℕ) → Timely t now now
Timely-same t now = Paced-same t.pace now

-- One change of a row. A claim needs a pending row that is due and not expired; a row over its cap is
-- buried; a requeue needs the lease's token, and the reaper a deadline that is past; only a dead row
-- is revived.
pub data Move (t : Tracing) : DeliveryRow → DeliveryRow → Type 0 where
  claimed :
      (d : DeliveryRow) (owner : String) (sec polled now : ℕ) (blob : ℕ → String)
      → Timely t polled now
      → due polled d ≡ true
      → Move t d (lease_row owner sec now blob d)
  buried : (d : DeliveryRow) → ltb d.max_attempts d.attempts ≡ true → Move t d (bury_row d)
  requeued :
      (d : DeliveryRow) (i : ℕ) (token : String) (at : ℕ)
      → leased_as i token d ≡ true
      → Move t d (release_row at d)
  reaped : (d : DeliveryRow) (now : ℕ) → lapsed now d ≡ true → Move t d (release_row now d)
  revived :
      (d : DeliveryRow) (now ttl : ℕ)
      → t.revivable d.id ≡ true
      → is_dead d.status ≡ true
      → Move t d (revive_row now ttl d)

pub data Steps (t : Tracing) : DeliveryRow → DeliveryRow → Type 0 where
  here : (d : DeliveryRow) → Steps t d d
  step : {d e f : DeliveryRow} → Move t d e → Steps t e f → Steps t d f

pub Steps-append : {t : Tracing} {d e f : DeliveryRow} → Steps t d e → Steps t e f → Steps t d f
Steps-append (here d) k = k
Steps-append (step m s) k = step m (Steps-append s k)

-- A delivery that a publish has just inserted.
pub record IsNew (d : DeliveryRow) : Type 0 where
  pub waits : is_pending d.status ≡ true
  pub unclaimed : d.attempts ≡ 0

-- The row of an id.
abbrev pub row_of : List DeliveryRow → ℕ → Option DeliveryRow
row_of ds i = first (λ r. r.id == i) ds

-- What no move changes.
pub record SameDelivery (d e : DeliveryRow) : Type 0 where
  pub id : e.id ≡ d.id
  pub message_id : e.message_id ≡ d.message_id
  pub channel_id : e.channel_id ≡ d.channel_id
  pub max_attempts : e.max_attempts ≡ d.max_attempts

Move-SameDelivery : {t : Tracing} {d e : DeliveryRow} → Move t d e → SameDelivery d e
Move-SameDelivery (claimed d owner sec polled now blob k h) = record {
  id = refl;
  message_id = refl;
  channel_id = refl;
  max_attempts = refl;
}
Move-SameDelivery (buried d h) = record {
  id = refl;
  message_id = refl;
  channel_id = refl;
  max_attempts = refl;
}
Move-SameDelivery (requeued d i token at h) = record {
  id = refl;
  message_id = refl;
  channel_id = refl;
  max_attempts = refl;
}
Move-SameDelivery (reaped d now h) = record {
  id = refl;
  message_id = refl;
  channel_id = refl;
  max_attempts = refl;
}
Move-SameDelivery (revived d now ttl m h) = record {
  id = refl;
  message_id = refl;
  channel_id = refl;
  max_attempts = refl;
}

pub Steps-SameDelivery : {t : Tracing} {d e : DeliveryRow} → Steps t d e → SameDelivery d e
Steps-SameDelivery (here d) = record {
  id = refl;
  message_id = refl;
  channel_id = refl;
  max_attempts = refl;
}
Steps-SameDelivery (step m s) =
    let one = Move-SameDelivery m in
    let rest = Steps-SameDelivery s in
    record {
      id = rest.id ∙ one.id;
      message_id = rest.message_id ∙ one.message_id;
      channel_id = rest.channel_id ∙ one.channel_id;
      max_attempts = rest.max_attempts ∙ one.max_attempts;
    }

-- What holds as long as a delivery is not revived: its expiry stays, its claims are only ever counted up,
-- and once dead it stays dead.
pub record Onward (d e : DeliveryRow) : Type 0 where
  pub expires_at : e.expires_at ≡ d.expires_at
  pub attempts : d.attempts ≤ e.attempts
  pub stays_dead : is_dead d.status ≡ true → is_dead e.status ≡ true

pending_dead : (s : Status) → is_pending s ≡ true → is_dead s ≡ true → ⊥
pending_dead pending h k = cc
pending_dead in_flight h k = cc
pending_dead dead h k = cc

in_flight_dead : (s : Status) → is_in_flight s ≡ true → is_dead s ≡ true → ⊥
in_flight_dead pending h k = cc
in_flight_dead in_flight h k = cc
in_flight_dead dead h k = cc

due-pending : (a b c : Bool) → (a && b && c) ≡ true → a ≡ true
due-pending a b c h = ground arith

leased-in_flight : (a b c : Bool) → (a && b && c) ≡ true → c ≡ true
leased-in_flight a b c h = ground arith

Move-Onward : {t : Tracing} {d e : DeliveryRow} → Move t d e → t.revivable d.id ≡ false → Onward d e
Move-Onward (claimed d owner sec polled now blob k h) n = record {
  expires_at = refl;
  attempts = omega arith;
  stays_dead = λ x. absurd (pending_dead d.status (due-pending (is_pending d.status) _ _ h) x);
}
Move-Onward (buried d h) n = record {
  expires_at = refl;
  attempts = omega arith;
  stays_dead = λ x. refl;
}
Move-Onward (requeued d i token at h) n = record {
  expires_at = refl;
  attempts = omega arith;
  stays_dead = λ x. absurd (
      in_flight_dead d.status
        (leased-in_flight (d.id == i) (token_is d.lease_token token) (is_in_flight d.status) h) x);
}
Move-Onward (reaped d now h) n = record {
  expires_at = refl;
  attempts = omega arith;
  stays_dead = λ x. absurd (in_flight_dead d.status (and_left (is_in_flight d.status) _ h) x);
}
Move-Onward (revived d now ttl may h) n = absurd (cc)

pub Steps-Onward :
    {t : Tracing} {d e : DeliveryRow} → Steps t d e → t.revivable d.id ≡ false → Onward d e
Steps-Onward (here d) n = record { expires_at = refl; attempts = omega arith; stays_dead = λ x. x }
Steps-Onward {t} (step m s) n =
    let one = Move-Onward m n in
    let rest = Steps-Onward s (ap t.revivable (Move-SameDelivery m).id ∙ n) in
    record {
      expires_at = rest.expires_at ∙ one.expires_at;
      attempts = omega (arith, one.attempts, rest.attempts);
      stays_dead = λ x. rest.stays_dead (one.stays_dead x);
    }

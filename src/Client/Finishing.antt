-- ===== src/Client/Finishing.antt =====
-- client.go, dispatch and finishWithRetry: what a consumer does with one claimed delivery.
pub mod Tries
mod Examples
use novaque.Prelude.{
  ℕ, zero, suc, ◌*◌, ◌/◌, ◌+◌, String, Bool, true, false, Option, none, some, List, if◌then◌else◌,
}
use novaque.Store.Errors.{Error, Result, ok, err, context_done}
use novaque.Store.Types.{Delivery}
use novaque.Store.Interface.{Store}
use novaque.Action.{Action, pure, fail, attempt, ◌>>=◌, ◌>>◌}

module _ {S : Type 0} where
  pub settle_try : ℕ → Bool → Result (Unit {0}) → Action S (Unit {0}) → Action S (Unit {0})
  settle_try left expired (ok _) next = pure tt
  settle_try left true (err e) next = fail context_done
  settle_try zero false (err e) next = fail e
  settle_try (suc left) false (err e) next = next

  -- After try number `i` fails, `expired i` tells whether the context ends before the 50ms are over.
  -- `left` tries remain after this one.
  pub try_finish : (ℕ → Bool) → Action S (Unit {0}) → ℕ → ℕ → Action S (Unit {0})
  unfolding settle_try
  try_finish expired fn zero i = do r ← attempt fn; settle_try zero (expired i) r (pure tt)
  try_finish expired fn (suc left) i = do
    r ← attempt fn
    settle_try (suc left) (expired i) r (try_finish expired fn left (suc i))

  pub finish_with_retry : (ℕ → Bool) → Action S (Unit {0}) → Action S (Unit {0})
  unfolding try_finish
  finish_with_retry expired fn = try_finish expired fn 2 0

-- What the handler sees of a delivery.
pub record Message : Type 0 where
  pub delivery_id : ℕ
  pub lease_token : String
  pub message_id : ℕ
  pub topic : String
  pub channel : String
  pub body : List ℕ
  pub attempts : ℕ

pub message_of : Delivery → Message
message_of d = record {
  delivery_id = d.id;
  lease_token = d.lease_token;
  message_id = d.message_id;
  topic = d.topic;
  channel = d.channel;
  body = d.body;
  attempts = d.attempts;
}

module _ {S : Type 0} (store : Store S) (expired : ℕ → Bool) where
  -- A nil result of the handler acks, an error requeues at once.
  pub finish_of : Message → Bool → Action S (Unit {0})
  finish_of msg handled =
      if handled
      then store.ack msg.delivery_id msg.lease_token
      else store.requeue msg.delivery_id msg.lease_token none

  -- The handler tells whether it succeeded.
  call_handler : (Message → S → Bool × S) → Message → Action S Bool
  call_handler handler msg s = let (handled, s') = handler msg s in (ok handled, s')

  -- The handler, then the finish; a failure of that is logged and swallowed.
  pub dispatch : (Message → S → Bool × S) → Delivery → Action S (Unit {0})
  unfolding finish_with_retry message_of finish_of call_handler
  dispatch handler d = do
    let msg = message_of d
    handled ← call_handler handler msg
    attempt (finish_with_retry expired (finish_of msg handled))
    pure tt

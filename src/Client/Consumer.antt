-- ===== src/Client/Consumer.antt =====
-- client.go, Consumer: the poller, the work channel and the handler workers, as steps of which any
-- interleaving may happen. What Claim returns, when it fails, how long a handler takes, and when the
-- context ends are not determined here.
pub mod Sound
pub mod Steps
pub mod Shutdown
pub mod Progress
mod Examples
use Prim.Native.String
use novaque.Store.Errors.{handler_nil}
use novaque.Store.Types.{Delivery}
use novaque.Store.Interface.{Store}
use novaque.Action.{Action, fail}
use novaque.Client.Options.{Options}
use novaque.Prelude.{
  ℕ, String, if◌then◌else◌, zero, suc, ◌+◌, ◌-◌, ◌≤◌, ◌<◌, ◌≡◌, Bool, true, false, List, [], ◌∷◌,
  ◌++◌,
}
use novaque.Prelude.Int.{ℤ, pos, positive_or}
use novaque.Prelude.Lists.{length}

-- Where the poll loop is: at its head; in Claim, for `free` deliveries; with deliveries in hand that it
-- has to send; waiting for its timer; or returned.
pub data Poller (A : Type 0) : Type 0 where
  at_head : Poller A
  claiming : ℕ → Poller A
  sending : List A → Poller A
  waiting : Poller A
  returned : Poller A

-- `stopped` is that the context is done. The channel `work` is closed when the poller returns. A worker is
-- idle, busy with a delivery, or has exited. The lists `claimed`, `sent`, `left_to_lease` and `dispatched` record
-- what has happened to deliveries.
pub record Consumer (A : Type 0) : Type 0 where
  pub stopped : Bool
  pub poller : Poller A
  pub work : List A
  pub closed : Bool
  pub idle : ℕ
  pub busy : List A
  pub exited : ℕ
  pub claimed : List A
  pub sent : List A
  pub left_to_lease : List A
  pub dispatched : List A

-- Start with MaxInFlight workers, one if the option is not positive.
abbrev pub workers : ℤ → ℕ
workers n = positive_or 1 n

abbrev pub start : {A : Type 0} → ℕ → Consumer A
start n = record {
  stopped = false;
  poller = at_head;
  work = [];
  closed = false;
  idle = n;
  busy = [];
  exited = 0;
  claimed = [];
  sent = [];
  left_to_lease = [];
  dispatched = [];
}

-- After Claim: wait if there is nothing, or else send.
abbrev pub after_claim : {A : Type 0} → List A → Poller A
after_claim [] = waiting
after_claim (d ∷ ds) = sending (d ∷ ds)

-- After a send: the next one, or the head of the loop.
abbrev pub after_send : {A : Type 0} → List A → Poller A
after_send [] = at_head
after_send (d ∷ ds) = sending (d ∷ ds)

module _ {A : Type 0} (n : ℕ) where
  pub data Step : Consumer A → Consumer A → Type 0 where
    -- The context ends: Shutdown calls stop, or the caller's context does.
    cancel : (s : Consumer A) → Step s (record s { stopped = true })
    -- The poller returns from the head of the loop or from a wait, and closes the channel.
    head_return :
        (s : Consumer A)
        → s.poller ≡ at_head
        → s.stopped ≡ true
        → Step s (record s { poller = returned; closed = true })
    wait_return :
        (s : Consumer A)
        → s.poller ≡ waiting
        → s.stopped ≡ true
        → Step s (record s { poller = returned; closed = true })
    -- The channel is full: wait.
    head_full :
        (s : Consumer A)
        → s.poller ≡ at_head
        → n ≤ length s.work
        → Step s (record s { poller = waiting })
    -- There is room: claim as many as fit.
    head_claim :
        (s : Consumer A)
        → s.poller ≡ at_head
        → length s.work < n
        → Step s (record s { poller = claiming (n - length s.work) })
    -- Claim fails, or gives at most what was asked for.
    claim_failed :
        (s : Consumer A) (free : ℕ)
        → s.poller ≡ claiming free
        → Step s (record s { poller = waiting })
    claim_ok :
        (s : Consumer A) (free : ℕ) (ds : List A)
        → s.poller ≡ claiming free
        → length ds ≤ free
        → Step s (record s { poller = after_claim ds; claimed = s.claimed ++ ds })
    wake : (s : Consumer A) → s.poller ≡ waiting → Step s (record s { poller = at_head })
    -- A send needs room in the channel. With the context done the poller may return instead; what it
    -- has in hand is left to the end of its lease.
    send :
        (s : Consumer A) (d : A) (ds : List A)
        → s.poller ≡ sending (d ∷ ds)
        → length s.work < n
        → Step s
            (record s { poller = after_send ds; work = s.work ++ d ∷ []; sent = s.sent ++ d ∷ [] })
    send_return :
        (s : Consumer A) (d : A) (ds : List A)
        → s.poller ≡ sending (d ∷ ds)
        → s.stopped ≡ true
        → Step s (record s {
          poller = returned;
          closed = true;
          left_to_lease = s.left_to_lease ++ d ∷ ds;
        })
    -- An idle worker takes the next delivery, dispatches it, and exits when the channel is closed and
    -- empty.
    take_work :
        (s : Consumer A) (d : A) (ds : List A) (k : ℕ)
        → s.work ≡ d ∷ ds
        → s.idle ≡ suc k
        → Step s (record s { work = ds; idle = k; busy = d ∷ s.busy })
    dispatch :
        (s : Consumer A) (before : List A) (d : A) (behind : List A)
        → s.busy ≡ before ++ d ∷ behind
        → Step s (record s {
          idle = suc s.idle;
          busy = before ++ behind;
          dispatched = s.dispatched ++ d ∷ [];
        })
    exit :
        (s : Consumer A) (k : ℕ)
        → s.work ≡ []
        → s.closed ≡ true
        → s.idle ≡ suc k
        → Step s (record s { idle = k; exited = suc s.exited })

  -- The states that some interleaving leads to.
  pub data Reached : Consumer A → Type 0 where
    started : Reached (start n)
    next : {s t : Consumer A} → Reached s → Step s t → Reached t

-- Shutdown returns nil when the wait group is done: the poller has returned and all workers have exited.
pub record IsShutDown {A : Type 0} (n : ℕ) (s : Consumer A) : Type 0 where
  pub poller_returned : s.poller ≡ returned
  pub workers_exited : s.exited ≡ n

module _ {S : Type 0} (store : Store S) (opts : Options) where
  -- Subscribe: the id of the channel, which is created if it is missing.
  pub subscribe : Bool → String → String → Action S ℕ
  subscribe handler_is_nil topic channel =
      if handler_is_nil then fail handler_nil else store.ensure_channel topic channel

  -- The claim of the poller, for `free` deliveries under the default lease.
  pub poll_claim : ℤ → String → ℕ → Action S (List Delivery)
  poll_claim channel owner free =
      store.claim channel (String.◌++◌ owner "#poller") opts.default_lease (pos free)

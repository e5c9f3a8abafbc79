-- ===== src/Client/Consumer/Examples.antt =====
-- One worker: a delivery is claimed, sent and dispatched, and the consumer is shut down.
use novaque.Prelude.{ℕ, ◌+◌, ◌≤◌, ◌≡◌, refl, ◌⊎◌, Bool, true, List, [], ◌∷◌, arith}
use novaque.Prelude.Lists.{length, count}
use novaque.Client.Consumer.{
  Consumer, start, sending, returned, head_claim, claim_ok, send, take_work, dispatch, cancel,
  head_return, exit, Reached, started, next, IsShutDown,
}
use novaque.Client.Consumer.Shutdown.{shutdown-drains, send-fits}
use novaque.Client.Consumer.Progress.{PathTo, Reached-IsShutDown}

abbrev seven : List ℕ
seven = 7 ∷ []

abbrev in_hand : Consumer ℕ
in_hand = record (start 1) { poller = sending (7 ∷ []); claimed = 7 ∷ [] }

abbrev queued : Consumer ℕ
queued = record (start 1) { claimed = 7 ∷ []; sent = 7 ∷ []; work = 7 ∷ [] }

abbrev finished : Consumer ℕ
finished = record (start 1) {
  claimed = 7 ∷ [];
  sent = 7 ∷ [];
  dispatched = 7 ∷ [];
  stopped = true;
  poller = returned;
  closed = true;
  idle = 0;
  exited = 1;
}

in_hand-Reached : Reached 1 in_hand
in_hand-Reached =
    next (next started (head_claim _ refl (omega arith))) (claim_ok _ 1 (7 ∷ []) refl (omega arith))

queued-Reached : Reached 1 queued
queued-Reached = next in_hand-Reached (send in_hand 7 [] refl (omega arith))

finished-Reached : Reached 1 finished
finished-Reached =
    next
      (next
        (next (next (next queued-Reached (take_work _ 7 [] 0 refl refl)) (dispatch _ [] 7 [] refl))
          (cancel _))
        (head_return _ refl refl))
      (exit _ 0 refl refl refl)

shutdown-drains_example :
    (finished.work ≡ [])
    × (finished.busy ≡ [])
    × ((p : ℕ → Bool)
        → count p finished.claimed ≡ count p finished.dispatched + count p finished.left_to_lease)
    × ((finished.left_to_lease ≡ []) ⊎ (finished.stopped ≡ true))
shutdown-drains_example =
    shutdown-drains 1 finished (omega arith) finished-Reached
      (record { poller_returned = refl; workers_exited = refl })

send-fits_example : length in_hand.work + length seven ≤ 1
send-fits_example = send-fits 1 in_hand in_hand-Reached

-- The context ends while the poller has a delivery in hand.
interrupted-Reached : Reached 1 (record in_hand { stopped = true })
interrupted-Reached = next in_hand-Reached (cancel in_hand)

Reached-IsShutDown_example :
    (t : Consumer ℕ) × PathTo 1 (record in_hand { stopped = true }) t × IsShutDown 1 t
Reached-IsShutDown_example =
    Reached-IsShutDown 1 (record in_hand { stopped = true }) interrupted-Reached refl

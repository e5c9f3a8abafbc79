-- ===== src/Client/Consumer/Shutdown.antt =====
-- What Shutdown leaves behind, and why the poller never waits to send.
use novaque.Prelude.{
  ℕ, ◌+◌, ◌≤◌, ◌<◌, ◌≡◌, refl, ap, ◌⊎◌, inl, inr, Bool, true, List, [], ◌∷◌, arith,
}
use novaque.Prelude.Lists.{length, count}
use novaque.Client.Consumer.{
  Poller, at_head, claiming, sending, waiting, returned, Consumer, Reached, IsShutDown,
}
use novaque.Client.Consumer.Sound.{hand, room, Sound}
use novaque.Client.Consumer.Steps.{reached-Sound}

module _ {A : Type 0} (n : ℕ) where
  empty_of : (xs : List A) → length xs ≡ 0 → xs ≡ []
  empty_of [] h = refl
  empty_of (x ∷ xs) h = absurd (omega (arith, h))

  drained : (s : Consumer A) → 0 < n → s.exited ≡ n → Sound n s → s.work ≡ []
  drained s some h v = go v.quit
    where
      go : (s.exited ≡ 0) ⊎ ((s.closed ≡ true) × (s.work ≡ [])) → s.work ≡ []
      go (inl e) = absurd (omega (arith, e, h, some))
      go (inr (c, w)) = w

  -- When the poller has returned and all of the workers, one at least, have exited, no delivery is in
  -- the channel or in a worker: each one that was claimed has been dispatched as often as it was
  -- claimed or left to its lease, and one is left to its lease only if the context was done. This
  -- holds for every interleaving of the poller, the workers and the end of the context.
  pub shutdown-drains :
      (s : Consumer A)
      → 0 < n
      → Reached n s
      → IsShutDown n s
      → (s.work ≡ [])
        × (s.busy ≡ [])
        × ((p : A → Bool) → count p s.claimed ≡ count p s.dispatched + count p s.left_to_lease)
        × ((s.left_to_lease ≡ []) ⊎ (s.stopped ≡ true))
  shutdown-drains s some r done =
      let v = reached-Sound n s r in
      let no_work = drained s some done.workers_exited v in
      let no_busy = empty_of s.busy (omega (arith, v.staffed, done.workers_exited)) in
      (
        no_work,
        no_busy,
        λ p. omega (
          arith,
          v.claimed_all p,
          v.sent_all p,
          ap (count p) no_work,
          ap (count p) no_busy,
          ap (λ q. count p (hand q)) done.poller_returned,
        ),
        v.left_when,
      )

  hand-room : (p : Poller A) → length (hand p) ≤ room p
  hand-room at_head = omega arith
  hand-room (claiming free) = omega arith
  hand-room (sending ds) = omega arith
  hand-room waiting = omega arith
  hand-room returned = omega arith

  -- Under every interleaving, and wherever the poller is, the deliveries in the channel and those that the
  -- poller has in hand are together at most as many as there are workers, so that each send finds room.
  pub send-fits : (s : Consumer A) → Reached n s → length s.work + length (hand s.poller) ≤ n
  send-fits s r = omega (arith, (reached-Sound n s r).fits, hand-room s.poller)

-- ===== src/Client/Consumer/Sound.antt =====
-- What holds of a consumer at every moment.
use novaque.Prelude.{
  ℕ, ◌+◌, ◌≤◌, ◌≡◌, refl, sym, subst, ◌∙◌, ◌⊎◌, inl, inr, Bool, true, List, [], ◌∷◌, ◌++◌, arith,
  Bool-cases,
}
use novaque.Prelude.Lists.{length, count}
use novaque.Client.Consumer.{
  Poller, at_head, claiming, sending, waiting, returned, Consumer, start, after_claim, after_send,
}

module _ {A : Type 0} where
  -- What the poller has in hand, and the room that it counts on.
  abbrev pub hand : Poller A → List A
  hand at_head = []
  hand (claiming free) = []
  hand (sending ds) = ds
  hand waiting = []
  hand returned = []

  abbrev pub room : Poller A → ℕ
  room at_head = 0
  room (claiming free) = free
  room (sending ds) = length ds
  room waiting = 0
  room returned = 0

  pub hand-after_claim : (ds : List A) → hand (after_claim ds) ≡ ds
  hand-after_claim [] = refl
  hand-after_claim (d ∷ ds) = refl

  pub room-after_claim : (ds : List A) → room (after_claim ds) ≡ length ds
  room-after_claim [] = refl
  room-after_claim (d ∷ ds) = refl

  pub hand-after_send : (ds : List A) → hand (after_send ds) ≡ ds
  hand-after_send [] = refl
  hand-after_send (d ∷ ds) = refl

  pub room-after_send : (ds : List A) → room (after_send ds) ≡ length ds
  room-after_send [] = refl
  room-after_send (d ∷ ds) = refl

  pub length-append : (xs ys : List A) → length (xs ++ ys) ≡ length xs + length ys
  length-append [] ys = omega arith
  length-append (x ∷ xs) ys = omega (arith, length-append xs ys)

  pub count-append : (p : A → Bool) (xs ys : List A) → count p (xs ++ ys) ≡ count p xs + count p ys
  count-append p [] ys = omega arith
  count-append p (x ∷ xs) ys = elim (Bool-cases (p x)) [
    | inl e ↦ rw e (omega (arith, count-append p xs ys))
    | inr e ↦ rw e (count-append p xs ys)
  ]

-- The channel never holds more than the workers, and has room for what the poller has in hand; every
-- delivery that was sent is dispatched, in a worker or in the channel, and every one that was claimed is
-- sent, in hand or left to its lease, which happens only when the context is done.
pub record Sound {A : Type 0} (n : ℕ) (s : Consumer A) : Type 0 where
  pub fits : length s.work + room s.poller ≤ n
  pub staffed : s.idle + length s.busy + s.exited ≡ n
  pub closed_after : s.closed ≡ true → s.poller ≡ returned
  pub quit : (s.exited ≡ 0) ⊎ ((s.closed ≡ true) × (s.work ≡ []))
  pub sent_all :
      (p : A → Bool) → count p s.sent ≡ count p s.dispatched + count p s.busy + count p s.work
  pub claimed_all :
      (p : A → Bool)
      → count p s.claimed ≡ count p s.sent + count p (hand s.poller) + count p s.left_to_lease
  pub left_when : (s.left_to_lease ≡ []) ⊎ (s.stopped ≡ true)

module _ {A : Type 0} (n : ℕ) where
  pub start-Sound : Sound n (start {A = A} n)
  start-Sound = record {
    fits = omega arith;
    staffed = omega arith;
    closed_after = λ h. absurd (cc);
    quit = inl refl;
    sent_all = λ p. omega arith;
    claimed_all = λ p. omega arith;
    left_when = inl refl;
  }

  -- A step of the poller that leaves the deliveries where they are.
  pub moved :
      (s : Consumer A) (p : Poller A)
      → Sound n s
      → length s.work + room p ≤ n
      → hand p ≡ hand s.poller
      → (s.closed ≡ true → p ≡ returned)
      → Sound n (record s { poller = p })
  moved s p v fits same closed = record {
    fits = fits;
    staffed = v.staffed;
    closed_after = closed;
    quit = v.quit;
    sent_all = v.sent_all;
    claimed_all = λ q.
        subst
          (λ (ds : List A).
            count q s.claimed ≡ count q s.sent + count q ds + count q s.left_to_lease)
          (sym same) (v.claimed_all q);
    left_when = v.left_when;
  }

  -- A closed channel contradicts a poller that runs.
  pub open_while :
      (s : Consumer A) (p : Poller A) {B : Type 0}
      → Sound n s
      → s.poller ≡ p
      → (p ≡ returned → ⊥)
      → s.closed ≡ true
      → B
  open_while s p v h k c = absurd (k (sym h ∙ v.closed_after c))

  -- The poller returns with nothing in hand.
  pub return_empty :
      (s : Consumer A)
      → Sound n s
      → hand s.poller ≡ []
      → Sound n (record s { poller = returned; closed = true })
  return_empty s v empty = record {
    fits = omega (arith, v.fits);
    staffed = v.staffed;
    closed_after = λ _. refl;
    quit = closed_too v.quit;
    sent_all = v.sent_all;
    claimed_all = λ q.
        subst
          (λ (ds : List A).
            count q s.claimed ≡ count q s.sent + count q ds + count q s.left_to_lease)
          empty (v.claimed_all q);
    left_when = v.left_when;
  }
    where
      closed_too :
          (s.exited ≡ 0) ⊎ ((s.closed ≡ true) × (s.work ≡ []))
          → (s.exited ≡ 0) ⊎ ((true ≡ true) × (s.work ≡ []))
      closed_too (inl none_yet) = inl none_yet
      closed_too (inr (c, w)) = inr (refl, w)

  -- While the poller runs no worker has exited.
  pub none_exited : (s : Consumer A) → Sound n s → (s.poller ≡ returned → ⊥) → s.exited ≡ 0
  none_exited s v runs = go v.quit
    where
      go : (s.exited ≡ 0) ⊎ ((s.closed ≡ true) × (s.work ≡ [])) → s.exited ≡ 0
      go (inl e) = e
      go (inr (c, w)) = absurd (runs (v.closed_after c))

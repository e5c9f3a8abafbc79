-- ===== src/Client/Consumer/Steps.antt =====
-- Every step of a consumer keeps it sound.
use novaque.Prelude.{
  ℕ, suc, ◌-◌, ◌≤◌, ◌≡◌, refl, sym, ap, ◌⊎◌, inl, inr, true, List, [], ◌∷◌, ◌++◌, arith,
}
use novaque.Prelude.Lists.{length, count}
use novaque.Client.Consumer.{
  at_head, claiming, sending, waiting, returned, Consumer, after_claim, after_send, Step, cancel,
  head_return, wait_return, head_full, head_claim, claim_failed, claim_ok, wake, send, send_return,
  take_work, dispatch, exit, Reached, started, next,
}
use novaque.Client.Consumer.Sound.{
  hand, room, hand-after_claim, room-after_claim, hand-after_send, room-after_send, length-append,
  count-append, Sound, start-Sound, moved, open_while, return_empty, none_exited,
}

module _ {A : Type 0} (n : ℕ) where
  claim_ok-Sound :
      (s : Consumer A) (free : ℕ) (ds : List A)
      → s.poller ≡ claiming free
      → length ds ≤ free
      → Sound n s
      → Sound n (record s { poller = after_claim ds; claimed = s.claimed ++ ds })
  claim_ok-Sound s free ds h k v = record {
    fits = omega (arith, v.fits, ap room h, room-after_claim ds, k);
    staffed = v.staffed;
    closed_after = open_while n s (claiming free) v h (λ e. cc);
    quit = v.quit;
    sent_all = v.sent_all;
    claimed_all = λ q. omega (
      arith,
      v.claimed_all q,
      count-append q s.claimed ds,
      ap (λ p. count q (hand p)) h,
      ap (count q) (hand-after_claim ds),
    );
    left_when = v.left_when;
  }

  send-Sound :
      (s : Consumer A) (d : A) (ds : List A)
      → s.poller ≡ sending (d ∷ ds)
      → Sound n s
      → Sound n
          (record s { poller = after_send ds; work = s.work ++ d ∷ []; sent = s.sent ++ d ∷ [] })
  send-Sound s d ds h v = record {
    fits = omega (arith, v.fits, ap room h, room-after_send ds, length-append s.work (d ∷ []));
    staffed = v.staffed;
    closed_after = open_while n s (sending (d ∷ ds)) v h (λ e. cc);
    quit = inl (none_exited n s v (λ e. cc));
    sent_all = λ q.
        omega (arith, v.sent_all q, count-append q s.sent (d ∷ []), count-append q s.work (d ∷ []));
    claimed_all = λ q. omega (
      arith,
      v.claimed_all q,
      count-append q s.sent (d ∷ []),
      ap (λ p. count q (hand p)) h,
      count-append q (d ∷ []) ds,
      ap (count q) (hand-after_send ds),
    );
    left_when = v.left_when;
  }

  send_return-Sound :
      (s : Consumer A) (d : A) (ds : List A)
      → s.poller ≡ sending (d ∷ ds)
      → s.stopped ≡ true
      → Sound n s
      → Sound n
          (record s { poller = returned; closed = true; left_to_lease = s.left_to_lease ++ d ∷ ds })
  send_return-Sound s d ds h k v = record {
    fits = omega (arith, v.fits);
    staffed = v.staffed;
    closed_after = λ _. refl;
    quit = inl (none_exited n s v (λ e. cc));
    sent_all = v.sent_all;
    claimed_all = λ q. omega (
      arith,
      v.claimed_all q,
      ap (λ p. count q (hand p)) h,
      count-append q s.left_to_lease (d ∷ ds),
    );
    left_when = inr k;
  }

  take_work-Sound :
      (s : Consumer A) (d : A) (ds : List A) (k : ℕ)
      → s.work ≡ d ∷ ds
      → s.idle ≡ suc k
      → Sound n s
      → Sound n (record s { work = ds; idle = k; busy = d ∷ s.busy })
  take_work-Sound s d ds k h j v = record {
    fits = omega (arith, v.fits, ap length h);
    staffed = omega (arith, v.staffed, j);
    closed_after = v.closed_after;
    quit = still v.quit;
    sent_all = λ q. omega (
      arith,
      v.sent_all q,
      ap (count q) h,
      count-append q (d ∷ []) ds,
      count-append q (d ∷ []) s.busy,
    );
    claimed_all = v.claimed_all;
    left_when = v.left_when;
  }
    where
      still :
          (s.exited ≡ 0) ⊎ ((s.closed ≡ true) × (s.work ≡ []))
          → (s.exited ≡ 0) ⊎ ((s.closed ≡ true) × (ds ≡ []))
      still (inl e) = inl e
      still (inr (c, w)) = absurd (cc)

  dispatch-Sound :
      (s : Consumer A) (before : List A) (d : A) (behind : List A)
      → s.busy ≡ before ++ d ∷ behind
      → Sound n s
      → Sound n (record s {
        idle = suc s.idle;
        busy = before ++ behind;
        dispatched = s.dispatched ++ d ∷ [];
      })
  dispatch-Sound s before d behind h v = record {
    fits = v.fits;
    staffed = omega (
      arith,
      v.staffed,
      ap length h,
      length-append before (d ∷ behind),
      length-append before behind,
    );
    closed_after = v.closed_after;
    quit = v.quit;
    sent_all = λ q. omega (
      arith,
      v.sent_all q,
      ap (count q) h,
      count-append q before (d ∷ behind),
      count-append q before behind,
      count-append q (d ∷ []) behind,
      count-append q s.dispatched (d ∷ []),
    );
    claimed_all = v.claimed_all;
    left_when = v.left_when;
  }

  step-Sound : {s t : Consumer A} → Step n s t → Sound n s → Sound n t
  step-Sound (cancel s) v = record {
    fits = v.fits;
    staffed = v.staffed;
    closed_after = v.closed_after;
    quit = v.quit;
    sent_all = v.sent_all;
    claimed_all = v.claimed_all;
    left_when = inr refl;
  }
  step-Sound (head_return s h k) v = return_empty n s v (ap hand h)
  step-Sound (wait_return s h k) v = return_empty n s v (ap hand h)
  step-Sound (head_full s h k) v =
      moved n s waiting v (omega (arith, v.fits)) (sym (ap hand h))
        (open_while n s at_head v h (λ e. cc))
  step-Sound (head_claim s h k) v =
      moved n s (claiming (n - length s.work)) v (omega (arith, k)) (sym (ap hand h))
        (open_while n s at_head v h (λ e. cc))
  step-Sound (claim_failed s free h) v =
      moved n s waiting v (omega (arith, v.fits)) (sym (ap hand h))
        (open_while n s (claiming free) v h (λ e. cc))
  step-Sound (claim_ok s free ds h k) v = claim_ok-Sound s free ds h k v
  step-Sound (wake s h) v =
      moved n s at_head v (omega (arith, v.fits)) (sym (ap hand h))
        (open_while n s waiting v h (λ e. cc))
  step-Sound (send s d ds h k) v = send-Sound s d ds h v
  step-Sound (send_return s d ds h k) v = send_return-Sound s d ds h k v
  step-Sound (take_work s d ds k h j) v = take_work-Sound s d ds k h j v
  step-Sound (dispatch s before d behind h) v = dispatch-Sound s before d behind h v
  step-Sound (exit s k h c j) v = record {
    fits = v.fits;
    staffed = omega (arith, v.staffed, j);
    closed_after = v.closed_after;
    quit = inr (c, h);
    sent_all = v.sent_all;
    claimed_all = v.claimed_all;
    left_when = v.left_when;
  }

  pub reached-Sound : (s : Consumer A) → Reached n s → Sound n s
  reached-Sound s started = start-Sound n
  reached-Sound s (next r m) = step-Sound m (reached-Sound _ r)

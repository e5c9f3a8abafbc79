-- ===== src/Client/Consumer/Progress.antt =====
-- A consumer whose context is done can always go on to its end.
use novaque.Prelude.{
  ℕ, zero, suc, ◌+◌, ◌*◌, ◌<◌, ◌≡◌, refl, ap, ◌⊎◌, inl, inr, true, List, [], ◌∷◌, arith,
}
use novaque.Prelude.Lists.{length}
use novaque.Client.Consumer.{
  Poller, at_head, claiming, sending, waiting, returned, Consumer, after_claim, after_send, Step,
  cancel, head_return, wait_return, head_full, head_claim, claim_failed, claim_ok, wake, send,
  send_return, take_work, dispatch, exit, Reached, started, next, IsShutDown,
}
use novaque.Client.Consumer.Steps.{reached-Sound}

List-cases : {A : Type 0} (xs : List A) → (xs ≡ []) ⊎ ((d : A) × (ds : List A) × (xs ≡ d ∷ ds))
List-cases [] = inl refl
List-cases (d ∷ ds) = inr (d, ds, refl)

Nat-cases : (n : ℕ) → (n ≡ 0) ⊎ ((k : ℕ) × (n ≡ suc k))
Nat-cases zero = inl refl
Nat-cases (suc k) = inr (k, refl)

module _ {A : Type 0} (n : ℕ) where
  -- Some interleaving of steps.
  pub data PathTo (s : Consumer A) : Consumer A → Type 0 where
    here : PathTo s s
    on : {t u : Consumer A} → PathTo s t → Step n t u → PathTo s u

  -- A poller that sends has something to send, and one that has returned has closed the channel.
  record Ready (s : Consumer A) : Type 0 where
    full : s.poller ≡ sending [] → ⊥
    shut : s.poller ≡ returned → s.closed ≡ true

  after_claim-full : (ds : List A) → after_claim ds ≡ sending [] → ⊥
  after_claim-full [] h = cc
  after_claim-full (d ∷ ds) h = cc

  after_send-full : (ds : List A) → after_send ds ≡ sending [] → ⊥
  after_send-full [] h = cc
  after_send-full (d ∷ ds) h = cc

  after_claim-open : {B : Type 0} (ds : List A) → after_claim ds ≡ returned → B
  after_claim-open [] h = absurd (cc)
  after_claim-open (d ∷ ds) h = absurd (cc)

  after_send-open : {B : Type 0} (ds : List A) → after_send ds ≡ returned → B
  after_send-open [] h = absurd (cc)
  after_send-open (d ∷ ds) h = absurd (cc)

  step-Ready : {s t : Consumer A} → Step n s t → Ready s → Ready t
  step-Ready (cancel s) r = record { full = r.full; shut = r.shut }
  step-Ready (head_return s h k) r = record { full = λ e. cc; shut = λ _. refl }
  step-Ready (wait_return s h k) r = record { full = λ e. cc; shut = λ _. refl }
  step-Ready (head_full s h k) r = record { full = λ e. cc; shut = λ e. absurd (cc) }
  step-Ready (head_claim s h k) r = record { full = λ e. cc; shut = λ e. absurd (cc) }
  step-Ready (claim_failed s free h) r = record { full = λ e. cc; shut = λ e. absurd (cc) }
  step-Ready (claim_ok s free ds h k) r = record {
    full = after_claim-full ds;
    shut = after_claim-open ds;
  }
  step-Ready (wake s h) r = record { full = λ e. cc; shut = λ e. absurd (cc) }
  step-Ready (send s d ds h k) r = record { full = after_send-full ds; shut = after_send-open ds }
  step-Ready (send_return s d ds h k) r = record { full = λ e. cc; shut = λ _. refl }
  step-Ready (take_work s d ds k h j) r = record { full = r.full; shut = r.shut }
  step-Ready (dispatch s before d behind h) r = record { full = r.full; shut = r.shut }
  step-Ready (exit s k h c j) r = record { full = r.full; shut = r.shut }

  Reached-Ready : (s : Consumer A) → Reached n s → Ready s
  Reached-Ready s started = record { full = λ e. cc; shut = λ e. absurd (cc) }
  Reached-Ready s (next r m) = step-Ready m (Reached-Ready _ r)

  -- What the workers still have to do.
  abbrev left : Consumer A → ℕ
  left s = 3 * length s.work + 2 * length s.busy + s.idle

  abbrev Ending : Consumer A → Type 0
  Ending s = (t : Consumer A) × PathTo s t × IsShutDown n t

  -- With the poller gone, either all is over or a worker can take a step that leaves less to do.
  abbrev Shorter : Consumer A → Type 0
  Shorter t =
      (u : Consumer A) × Step n t u × (u.poller ≡ returned) × (u.closed ≡ true) × (left u < left t)

  one_more :
      (t : Consumer A)
      → Reached n t
      → t.poller ≡ returned
      → t.closed ≡ true
      → IsShutDown n t ⊎ Shorter t
  one_more t r gone closed = elim (List-cases t.busy) [
    | inr (d, ds, e) ↦ inr (_, dispatch t [] d ds e, gone, closed, omega (arith, ap length e))
    | inl e ↦ elim (Nat-cases t.idle) [
      | inl z ↦
          let v = reached-Sound n t r in
          inl (record {
            poller_returned = gone;
            workers_exited = omega (arith, v.staffed, ap length e, z);
          })
      | inr (k, i) ↦ elim (List-cases t.work) [
        | inl w ↦ inr (_, exit t k w closed i, gone, closed, omega (arith, i))
        | inr (d, ds, w) ↦
            inr (_, take_work t d ds k w i, gone, closed, omega (arith, i, ap length w))
      ]
    ]
  ]

  workers_end :
      (fuel : ℕ) (s t : Consumer A)
      → PathTo s t
      → Reached n t
      → t.poller ≡ returned
      → t.closed ≡ true
      → left t < fuel
      → Ending s
  workers_end zero s t p r gone closed h = absurd (omega (arith, h))
  workers_end (suc fuel) s t p r gone closed h = elim (one_more t r gone closed) [
    | inl done ↦ (t, p, done)
    | inr (u, m, gone', closed', k) ↦
        workers_end fuel s u (on p m) (next r m) gone' closed' (omega (arith, h, k))
  ]

  -- The poller returns.
  abbrev Handover : Consumer A → Type 0
  Handover s = (t : Consumer A) × PathTo s t × Reached n t × (t.poller ≡ returned)

  poller_returns :
      (s : Consumer A) (at : Poller A) → s.poller ≡ at → s.stopped ≡ true → Reached n s → Handover s
  poller_returns s at_head e k r = let m = head_return s e k in (_, on here m, next r m, refl)
  poller_returns s waiting e k r = let m = wait_return s e k in (_, on here m, next r m, refl)
  poller_returns s returned e k r = (s, here, r, e)
  poller_returns s (sending []) e k r = absurd ((Reached-Ready s r).full e)
  poller_returns s (sending (d ∷ ds)) e k r =
      let m = send_return s d ds e k in (_, on here m, next r m, refl)
  poller_returns s (claiming free) e k r =
      let m = claim_failed s free e in
      let m' = wait_return _ refl k in (_, on (on here m) m', next (next r m) m', refl)

  -- From every state that some interleaving leads to and whose context is done, wherever the poller is
  -- and whatever is in the channel and in the workers, some further steps lead to one in which the
  -- poller has returned and all workers have exited.
  pub Reached-IsShutDown :
      (s : Consumer A)
      → Reached n s
      → s.stopped ≡ true
      → (t : Consumer A) × PathTo s t × IsShutDown n t
  Reached-IsShutDown s r k =
      let (t, p, q, gone) = poller_returns s s.poller refl k r in
      workers_end (suc (left t)) s t p q gone ((Reached-Ready t q).shut gone) (omega arith)

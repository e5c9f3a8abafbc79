-- ===== src/Client/Finishing/Tries.antt =====
-- How often a finish is tried, and what it ends with.
use novaque.Prelude.{
  ℕ, zero, suc, ◌+◌, ◌≤◌, ◌≡◌, refl, ◌⊎◌, inl, inr, Bool, true, false, List, [], ◌∷◌, arith,
}
use novaque.Prelude.Lists.{All, length}
use novaque.Store.Errors.{Error, Result, ok, err, context_done}
use novaque.Action.{Action, attempt, pure, fail, ◌>>=◌}
use novaque.Client.Finishing.{settle_try, try_finish, finish_with_retry}

-- The call with a log of its results, the newest first.
abbrev pub logged :
    {S : Type 0} → Action S (Unit {0}) → Action (S × List (Result (Unit {0}))) (Unit {0})
logged fn (s, log) = let (r, s') = fn s in (r, (s', r ∷ log))

abbrev Failed : Result (Unit {0}) → Type 0
Failed r = (e : Error) × (r ≡ err e)

-- What a finish with the result `r` leaves in the log.
pub record Tried (expired : ℕ → Bool) (log : List (Result (Unit {0}))) (r : Result (Unit {0}))
    : Type 0 where
  pub last : Result (Unit {0})
  pub before : List (Result (Unit {0}))
  pub made : log ≡ last ∷ before
  pub all_failed : All Failed before
  pub at_most : length before ≤ 2
  pub verdict :
      ((last ≡ ok tt) × (r ≡ ok tt))
      ⊎ ((Failed last × (expired (length before) ≡ true) × (r ≡ err context_done))
          ⊎ (Failed last × (expired (length before) ≡ false) × (length before ≡ 2) × (r ≡ last)))

module _ {S : Type 0} (expired : ℕ → Bool) (fn : Action S (Unit {0})) where
  abbrev Log : Type 0
  Log = List (Result (Unit {0}))

  settled :
      (left : ℕ) (late : Bool) (r : Result (Unit {0})) (s : S) (before : Log)
      (next : Action (S × Log) (Unit {0}))
      → expired (length before) ≡ late
      → left + length before ≡ 2
      → All Failed before
      → ((k : ℕ) (x : Error)
          → left ≡ suc k
          → let ran = next (s, err x ∷ before) in Tried expired ran.1.1 ran.0)
      → let ran = settle_try left late r next (s, r ∷ before) in Tried expired ran.1.1 ran.0
  unfolding settle_try pure fail
  settled left late (ok tt) s before next e sum f again = record {
    last = ok tt;
    before = before;
    made = refl;
    all_failed = f;
    at_most = omega arith;
    verdict = inl (refl, refl);
  }
  settled left true (err x) s before next e sum f again = record {
    last = err x;
    before = before;
    made = refl;
    all_failed = f;
    at_most = omega arith;
    verdict = inr (inl ((x, refl), e, refl));
  }
  settled zero false (err x) s before next e sum f again = record {
    last = err x;
    before = before;
    made = refl;
    all_failed = f;
    at_most = omega arith;
    verdict = inr (inr ((x, refl), e, omega arith, refl));
  }
  settled (suc k) false (err x) s before next e sum f again = again k x refl

  try_finish-Tried :
      (left : ℕ) (s : S) (before : Log)
      → left + length before ≡ 2
      → All Failed before
      → let ran = try_finish expired (logged fn) left (length before) (s, before) in
        Tried expired ran.1.1 ran.0
  unfolding try_finish attempt ◌>>=◌
  try_finish-Tried zero s before sum f =
      settled zero (expired (length before)) (fn s).0 (fn s).1 before (pure tt) refl sum f
        (λ k x h. absurd (omega (arith, h)))
  try_finish-Tried (suc left) s before sum f =
      settled (suc left) (expired (length before)) (fn s).0 (fn s).1 before
        (try_finish expired (logged fn) left (suc (length before))) refl sum f
        (λ k x h. try_finish-Tried left (fn s).1 (err x ∷ before) (omega arith) ((x, refl), f))

  -- A finish makes one to three tries in all, and goes on only after a failed one. It ends with success
  -- if the last try succeeds, with the context's error if the last try fails and the context ends
  -- before the next, and with the error of the third try otherwise.
  pub finish_with_retry-Tried :
      (s : S)
      → let ran = finish_with_retry expired (logged fn) (s, []) in Tried expired ran.1.1 ran.0
  unfolding finish_with_retry
  finish_with_retry-Tried s = try_finish-Tried 2 s [] (omega arith) tt

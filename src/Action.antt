-- ===== src/Action.antt =====
-- Effects of the Go code: an action reads and changes a state and returns a value or an error. A
-- change made before an error stays made.
pub mod Follows
use mathlib.Core.Path.{◌≡◌, refl, ap}
use novaque.Store.Errors.{Error, Result, ok, err}

abbrev pub Action : Type 0 → Type 0 → Type 0
Action S A = S → Result A × S

-- Where the code wraps or maps the error that it passes on.
abbrev pub map_result_err : {A : Type 0} → (Error → Error) → Result A → Result A
map_result_err f (ok a) = ok a
map_result_err f (err e) = err (f e)

module _ {S A : Type 0} where
  unfoldable pub pure : A → Action S A
  pure a s = (ok a, s)

  unfoldable pub fail : Error → Action S A
  fail e s = (err e, s)

  -- A fallible computation that does not touch the state.
  unfoldable pub lift : Result A → Action S A
  lift r s = (r, s)

  unfoldable pub gets : (S → A) → Action S A
  gets f s = (ok (f s), s)

  -- The outcome as a value, so that the code can go on after an error.
  unfoldable pub attempt : Action S A → Action S (Result A)
  attempt m s = let (r, s') = m s in (ok r, s')

  unfoldable pub map_err : (Error → Error) → Action S A → Action S A
  map_err f m s = let (r, s') = m s in (map_result_err f r, s')

unfoldable pub update : {S : Type 0} → (S → S) → Action S (Unit {0})
update f s = (ok tt, f s)

module _ {S A B : Type 0} where
  abbrev pub resume : Result A → (A → Action S B) → Action S B
  resume (ok a) f s = f a s
  resume (err e) f s = (err e, s)

  infixl 5 ◌>>=◌ ◌>>◌
  unfoldable pub ◌>>=◌ : Action S A → (A → Action S B) → Action S B
  ◌>>=◌ m f s = let (r, s') = m s in resume r f s'

  abbrev pub ◌>>◌ : Action S A → Action S B → Action S B
  m >> k = m >>= λ _. k

module _ {S A B : Type 0} where
  -- A chain that succeeds has run its first part to a value.
  pub >>=-eq-ok :
      (m : Action S A) (f : A → Action S B) (s : S) {b : B}
      → ((m >>= f) s).0 ≡ ok b
      → (a : A) × ((m s).0 ≡ ok a) × ((f a (m s).1).0 ≡ ok b) × ((m >>= f) s ≡ f a (m s).1)
  unfolding ◌>>=◌
  >>=-eq-ok m f s = go (m s).0 (m s).1
    where
      go :
          (r : Result A) (s' : S) {b : B}
          → (resume r f s').0 ≡ ok b
          → (a : A) × (r ≡ ok a) × ((f a s').0 ≡ ok b) × (resume r f s' ≡ f a s')
      go (ok a) s' h = (a, refl, h, refl)
      go (err e) s' h = absurd (cc)

module _ {S A B : Type 0} where
  -- A chain whose first part gives `a`.
  pub >>=-ok :
      (m : Action S A) (f : A → Action S B) (s s' : S) (a : A)
      → m s ≡ (ok a, s')
      → (m >>= f) s ≡ f a s'
  unfolding ◌>>=◌
  >>=-ok m f s s' a h = ap (λ (r : Result A × S). resume r.0 f r.1) h

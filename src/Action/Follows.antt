-- ===== src/Action/Follows.antt =====
-- How an action changes the state, one rule for each way to build an action.
use mathlib.Core.Path.{◌≡◌, refl}
use mathlib.Core.Bool.{Bool, true, false}
use novaque.Prelude.{if◌then◌else◌}
use novaque.Store.Errors.{Error, Result, ok, err}
use novaque.Action.{Action, pure, fail, lift, gets, attempt, map_err, ◌>>=◌}

pub record Preorder {S : Type 0} (R : S → S → Type 0) : Type 0 where
  pub same : (s : S) → R s s
  pub chain : {s t u : S} → R s t → R t u → R s u

-- `m` leads to a related state, whether it returns a value or an error.
pub record Follows {S A : Type 0} (R : S → S → Type 0) (m : Action S A) : Type 0 where
  pub at : (s : S) → R s (m s).1

module _ {S A : Type 0} {R : S → S → Type 0} (o : Preorder R) where
  pub Follows-pure : (a : A) → Follows R (pure a)
  unfolding pure
  Follows-pure a = record { at = o.same }

  pub Follows-fail : (e : Error) → Follows R (fail {A = A} e)
  unfolding fail
  Follows-fail e = record { at = o.same }

  pub Follows-lift : (r : Result A) → Follows R (lift r)
  unfolding lift
  Follows-lift r = record { at = o.same }

  pub Follows-gets : (f : S → A) → Follows R (gets f)
  unfolding gets
  Follows-gets f = record { at = o.same }

module _ {S A : Type 0} {R : S → S → Type 0} where
  pub Follows-attempt : (m : Action S A) → Follows R m → Follows R (attempt m)
  unfolding attempt
  Follows-attempt m k = record { at = λ s. k.at s }

  pub Follows-map_err : (f : Error → Error) (m : Action S A) → Follows R m → Follows R (map_err f m)
  unfolding map_err
  Follows-map_err f m k = record { at = λ s. k.at s }

  pub Follows-if :
      (b : Bool) (m n : Action S A) → Follows R m → Follows R n → Follows R (if b then m else n)
  Follows-if true m n km kn = km
  Follows-if false m n km kn = kn

module _ {S A B : Type 0} {R : S → S → Type 0} (o : Preorder R) where
  resume-follows :
      (r : Result A) (f : A → Action S B) (s : S)
      → ((a : A) → r ≡ ok a → R s (f a s).1)
      → R s ((lift r >>= f) s).1
  unfolding ◌>>=◌ lift
  resume-follows (ok a) f s h = h a refl
  resume-follows (err e) f s h = o.same s

  -- At one state, with what the first part returns there.
  pub bind-follows :
      (m : Action S A) (f : A → Action S B) (s : S)
      → R s (m s).1
      → ((a : A) → (m s).0 ≡ ok a → R (m s).1 (f a (m s).1).1)
      → R s ((m >>= f) s).1
  unfolding ◌>>=◌ lift
  bind-follows m f s h k = o.chain h (resume-follows (m s).0 f (m s).1 k)

  pub Follows-bind :
      (m : Action S A) (f : A → Action S B)
      → Follows R m
      → ((a : A) → Follows R (f a))
      → Follows R (m >>= f)
  Follows-bind m f km kf = record {
    at = λ s. bind-follows m f s (km.at s) (λ a _. (kf a).at (m s).1);
  }

-- ===== src/Store/Cache/Sweep.antt =====
-- Which entries DeleteTopic evicts, and which it leaves.
use Prim.Native.String.{String}
use novaque.Prelude.{ℕ, ◌≡◌, refl, inl, inr, Bool, true, not, none, List, [], ◌∷◌, Bool-cases}
use novaque.Prelude.Lists.{select}
use novaque.Store.Cache.{load}

module _ {K : Type 0} (eq : K → K → Bool) where
  -- A key that each entry misses gives nothing.
  pub load-missed :
      (k : K) (p : K → Bool) (es : List (K × ℕ))
      → ((j : K) → eq j k ≡ true → p j ≡ true)
      → load eq k (select (λ e. not (p e.0)) es) ≡ none
  unfolding load
  load-missed k p [] f = refl
  load-missed k p ((j, w) ∷ es) f = elim (Bool-cases (p j)) [
    | inl e ↦ rw e (load-missed k p es f)
    | inr e ↦ elim (Bool-cases (eq j k)) [
      | inl m ↦ let hit = f j m in absurd (cc)
      | inr m ↦ rw (e, load, m) (load-missed k p es f)
    ]
  ]

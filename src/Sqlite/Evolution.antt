-- ===== src/Sqlite/Evolution.antt =====
-- How a database may change: it stays well-formed, and each delivery follows its life cycle.
pub mod Rows
use novaque.Prelude.{
  ℕ, ◌≤◌, ◌<◌, ◌≡◌, refl, ap, sym, subst, ◌∙◌, inl, inr, Bool, true, false, not, Option, none, some,
  List, [], ◌∷◌, ◌==◌, arith, ==_iff, ◌++◌, Option-cases, if◌then◌else◌,
}
use novaque.Prelude.Lists.{All, select, modify, first}
use novaque.Prelude.Rows.{All-first, first-test}
use novaque.Store.Errors.{Error, Result}
use novaque.Action.{Action, pure, fail, lift, gets, ◌>>=◌}
use novaque.Action.Follows.{
  Preorder, Follows, Follows-pure, Follows-fail, Follows-lift, Follows-gets, Follows-attempt,
  Follows-map_err, Follows-if, Follows-bind,
}
use novaque.Sqlite.Schema.{Db, DeliveryRow}
use novaque.Sqlite.Engine.{Env, World, Stmt, Tick, statement, autocommit, transaction}
use novaque.Sqlite.Engine.Rules.{
  OnDb, OnDb-Preorder, Safe, Follows-statement, Follows-autocommit, Follows-transaction,
}
use novaque.Sqlite.Invariant.{IsValid, OthersValid}
use novaque.Sqlite.Lifecycle.{
  Tracing, unseen, traces, Move, Steps, here, step, Steps-append, IsNew, row_of,
}
use novaque.Sqlite.Evolution.Rows.{
  row_below, row-modify, row-modify-none, row-select, row-append, row-append-none,
}

-- A delivery that is there before and after has moved along its life cycle. One that is there only
-- after has an id that was not given before, and began as a new one.
pub record Lives (t : Tracing) (a b : Db) : Type 0 where
  pub sequence : a.next_delivery ≤ b.next_delivery
  pub moved :
      (i : ℕ) (d e : DeliveryRow)
      → row_of a.deliveries i ≡ some d
      → row_of b.deliveries i ≡ some e
      → Steps t d e
  pub born :
      (i : ℕ) (e : DeliveryRow)
      → row_of a.deliveries i ≡ none
      → row_of b.deliveries i ≡ some e
      → (a.next_delivery ≤ i) × (c : DeliveryRow) × IsNew c × Steps t c e

-- From a well-formed database to one. With `traced`, the deliveries' lives are followed too.
pub record Evolves (traced : Tracing) (a b : Db) : Type 0 where
  pub from : IsValid a → IsValid b × (traces traced ≡ true → Lives traced a b)

Steps-same : {t : Tracing} {d e : DeliveryRow} → d ≡ e → Steps t d e
Steps-same {t} {d} h = subst (Steps t d) h (here d)

clash : {A : Type 0} {d : DeliveryRow} {o : Option DeliveryRow} → o ≡ none → o ≡ some d → A
clash h k = absurd (cc)

pub same_row : {o : Option DeliveryRow} {d e : DeliveryRow} → o ≡ some d → o ≡ some e → d ≡ e
same_row h k = cc

Lives-same : {t : Tracing} (a : Db) → Lives t a a
Lives-same a = record {
  sequence = omega arith;
  moved = λ i d e h k. Steps-same (same_row h k);
  born = λ i e h k. clash h k;
}

Lives-chain : {t : Tracing} {a b c : Db} → IsValid a → Lives t a b → Lives t b c → Lives t a c
Lives-chain {a} {b} {c} v f g = record {
  sequence = omega (arith, f.sequence, g.sequence);
  moved = λ i d e h k. elim (Option-cases (row_of b.deliveries i)) [
    | inl gone ↦
        let fresh = (g.born i e gone k).0 in
        absurd (
          omega (
            arith,
            fresh,
            f.sequence,
            row_below 1 i a.deliveries a.next_delivery d v.delivery_ids h,
          ))
    | inr (m, r) ↦ Steps-append (f.moved i d m h r) (g.moved i m e r k)
  ];
  born = λ i e h k. elim (Option-cases (row_of b.deliveries i)) [
    | inl none_yet ↦
        let (fresh, c, new, steps) = g.born i e none_yet k in
        (omega (arith, fresh, f.sequence), c, new, steps)
    | inr (m, r) ↦
        let (fresh, c, new, steps) = f.born i m h r in
        (fresh, c, new, Steps-append steps (g.moved i m e r k))
  ];
}

pub Evolves-Preorder : (traced : Tracing) → Preorder (Evolves traced)
Evolves-Preorder traced = record {
  same = λ a. record { from = λ v. (v, λ _. Lives-same a) };
  chain = λ h k. record {
    from = λ v.
        let (v', l) = h.from v in
        let (v'', l') = k.from v' in (v'', λ t. Lives-chain v (l t) (l' t));
  };
}

module _ {traced : Tracing} (a b : Db) (valid : IsValid a → IsValid b) where
  -- A change that leaves the deliveries alone.
  pub Evolves-still :
      b.deliveries ≡ a.deliveries → b.next_delivery ≡ a.next_delivery → Evolves traced a b
  Evolves-still same next = record {
    from = λ v. (
      valid v,
      λ _. record {
        sequence = omega arith;
        moved = λ i d e h k. Steps-same (same_row h (sym (ap (λ ds. row_of ds i) same) ∙ k));
        born = λ i e h k. clash h (sym (ap (λ ds. row_of ds i) same) ∙ k);
      },
    );
  }

  -- One that moves the rows that pass a test.
  pub Evolves-modify :
      (p : DeliveryRow → Bool) (f : DeliveryRow → DeliveryRow)
      → b.deliveries ≡ modify p f a.deliveries
      → b.next_delivery ≡ a.next_delivery
      → ((d : DeliveryRow) → (f d).id ≡ d.id)
      → (IsValid a
          → (i : ℕ) (d : DeliveryRow) → row_of a.deliveries i ≡ some d
          → p d ≡ true
          → Move traced d (f d))
      → Evolves traced a b
  Evolves-modify p f same next id move = record {
    from = λ v. (
      valid v,
      λ _. record {
        sequence = omega arith;
        moved = λ i d e h k.
            let k' = sym (ap (λ ds. row_of ds i) same) ∙ k in
            moves (p d) f d e (same_row (row-modify i p f a.deliveries d id h) k') (move v i d h);
        born = λ i e h k.
            clash (row-modify-none i p f a.deliveries id h) (sym (ap (λ ds. row_of ds i) same) ∙ k);
      },
    );
  }
    where
      moves :
          (test : Bool) (g : DeliveryRow → DeliveryRow) (d e : DeliveryRow)
          → (if test then g d else d) ≡ e
          → (test ≡ true → Move traced d (g d))
          → Steps traced d e
      moves true g d e h m = step (m refl) (Steps-same h)
      moves false g d e h m = Steps-same h

  -- One that deletes rows.
  pub Evolves-select :
      (p : DeliveryRow → Bool)
      → b.deliveries ≡ select p a.deliveries
      → b.next_delivery ≡ a.next_delivery
      → Evolves traced a b
  Evolves-select p same next = record {
    from = λ v. (
      valid v,
      λ _. record {
        sequence = omega arith;
        moved = λ i d e h k. Steps-same (same_row h (there v i e k));
        born = λ i e h k. clash h (there v i e k);
      },
    );
  }
    where
      there :
          IsValid a
          → (i : ℕ) (e : DeliveryRow) → row_of b.deliveries i ≡ some e
          → row_of a.deliveries i ≡ some e
      there v i e k =
          row-select 1 i p a.deliveries a.next_delivery e v.delivery_ids
            (sym (ap (λ ds. row_of ds i) same) ∙ k)

  -- One that adds new deliveries at the end.
  pub Evolves-append :
      (new : List DeliveryRow)
      → b.deliveries ≡ a.deliveries ++ new
      → a.next_delivery ≤ b.next_delivery
      → All (λ d. (a.next_delivery ≤ d.id) × IsNew d) new
      → Evolves traced a b
  Evolves-append new same next fresh = record {
    from = λ v. (
      valid v,
      λ _. record {
        sequence = next;
        moved = λ i d e h k.
            Steps-same (
              same_row (row-append i a.deliveries new d h) (sym (ap (λ ds. row_of ds i) same) ∙ k));
        born = λ i e h k.
            let found =
              sym (row-append-none i a.deliveries new h) ∙ sym (ap (λ ds. row_of ds i) same) ∙ k in
            let (low, is_new) = All-first _ (λ r. r.id == i) new e fresh found in
            (
              omega (arith, low, (==_iff e.id i).0 (first-test (λ r. r.id == i) new e found)),
              e,
              is_new,
              here e,
            );
      },
    );
  }

-- An action whose changes of the database are such.
abbrev pub IsLawful : Tracing → {A : Type 0} → Action World A → Type 0
IsLawful traced m = Follows (OnDb (Evolves traced)) m

-- Other processes run the same code: what they commit is such a change.
pub record OthersEvolve (traced : Tracing) (env : Env) : Type 0 where
  pub keep : (n : ℕ) (db : Db) → Evolves traced db (env.others n db)

pub untraced : (env : Env) → OthersValid env → OthersEvolve unseen env
untraced env q = record { keep = λ n db. record { from = λ v. (q.keep n db v, λ t. absurd (cc)) } }

order : (traced : Tracing) → Preorder (OnDb (Evolves traced))
order traced = OnDb-Preorder (Evolves-Preorder traced)

module _ {traced : Tracing} {A : Type 0} where
  pub IsLawful-pure : (a : A) → IsLawful traced (pure a)
  IsLawful-pure = Follows-pure (order traced)

  pub IsLawful-fail : (e : Error) → IsLawful traced (fail {A = A} e)
  IsLawful-fail = Follows-fail (order traced)

  pub IsLawful-lift : (r : Result A) → IsLawful traced (lift r)
  IsLawful-lift = Follows-lift (order traced)

  pub IsLawful-gets : (f : World → A) → IsLawful traced (gets f)
  IsLawful-gets = Follows-gets (order traced)

  pub IsLawful-bind :
      {B : Type 0} (m : Action World A) (f : A → Action World B)
      → IsLawful traced m
      → ((a : A) → IsLawful traced (f a))
      → IsLawful traced (m >>= f)
  IsLawful-bind = Follows-bind (order traced)

  pub IsLawful-statement :
      (env : Env) (f : Stmt A) → Safe (Evolves traced) f → IsLawful traced (statement env f)
  IsLawful-statement env f = Follows-statement (Evolves-Preorder traced) env f

  pub IsLawful-autocommit :
      (env : Env) (quiet : OthersEvolve traced env) (f : Stmt A)
      → Safe (Evolves traced) f
      → IsLawful traced (autocommit env f)
  IsLawful-autocommit env quiet f = Follows-autocommit (Evolves-Preorder traced) env quiet.keep f

  pub IsLawful-transaction :
      (env : Env) (quiet : OthersEvolve traced env) (body : Action World A)
      → IsLawful traced body
      → IsLawful traced (transaction env body)
  IsLawful-transaction env quiet body =
      Follows-transaction (Evolves-Preorder traced) env quiet.keep body

-- A statement that changes nothing.
pub Safe-read :
    {traced : Tracing} {A : Type 0} (f : Stmt A)
    → ((t : Tick) (db : Db) → (f t db).1 ≡ db)
    → Safe (Evolves traced) f
Safe-read {traced} f h = record {
  step = λ t db. subst (Evolves traced db) (sym (h t db)) ((Evolves-Preorder traced).same db);
}

pub ruleset lawful_rules = (
  IsLawful-pure, IsLawful-fail, IsLawful-lift, IsLawful-gets, Follows-attempt, Follows-map_err,
  Follows-if, IsLawful-bind,
)

-- ===== src/Client/Upkeep/Order.antt =====
-- One loop of each kind, and none between a Shutdown and the next Start.
use novaque.Prelude.{
  ℕ, ◌+◌, ◌≤◌, ◌≡◌, refl, sym, ap, ◌∙◌, inl, inr, Bool, true, false, ◌&&◌, not, List, [], ◌∷◌, ◌++◌,
  map, arith, Bool-cases,
}
use novaque.Prelude.Lists.{count}
use novaque.Client.Upkeep.{
  Kind, loop_reap, loop_purge, loop_stats, Loop, Event, began, did, joined, final_flush, Upkeep,
  fresh, stop, Step, start, start_again, shutdown, shutdown_never, shutdown_joined, shutdown_done,
  shutdown_expired, context_done, tick, loop_return, Reached, at_first, next,
}

abbrev pub kind_eq : Kind → Kind → Bool
kind_eq loop_reap loop_reap = true
kind_eq loop_purge loop_purge = true
kind_eq loop_stats loop_stats = true
kind_eq _ _ = false

-- How many loops of a kind run with a context that is not done.
abbrev pub running : Kind → List Loop → ℕ
running k = count (λ l. kind_eq l.kind k && not l.stopped)

-- Whether a Shutdown has seen the loops end and nothing but final flushes came after.
abbrev pub is_settled : List Event → Bool
is_settled [] = true
is_settled (began ∷ es) = false
is_settled (did j ∷ es) = false
is_settled (joined ∷ es) = true
is_settled (final_flush ∷ es) = is_settled es

record Orderly (s : Upkeep) : Type 0 where
  once : (k : Kind) → running k s.live ≤ 1
  none_after : s.started ≡ false → (k : Kind) → running k s.live ≡ 0
  settled : is_settled s.events ≡ true → s.live ≡ []

running-append : (k : Kind) (xs ys : List Loop) → running k (xs ++ ys) ≡ running k xs + running k ys
running-append k [] ys = omega arith
running-append k (x ∷ xs) ys = elim (Bool-cases (kind_eq x.kind k && not x.stopped)) [
  | inl e ↦ rw e (omega (arith, running-append k xs ys))
  | inr e ↦ rw e (running-append k xs ys)
]

and_false : (b : Bool) → (b && false) ≡ false
and_false true = refl
and_false false = refl

running-stop : (k : Kind) (xs : List Loop) → running k (map stop xs) ≡ 0
running-stop k [] = refl
running-stop k (x ∷ xs) = rw (and_false (kind_eq x.kind k)) (running-stop k xs)

running-fresh : (k : Kind) → running k fresh ≡ 1
running-fresh loop_reap = refl
running-fresh loop_purge = refl
running-fresh loop_stats = refl

middle :
    (k : Kind) (xs : List Loop) (l : Loop) (ys : List Loop)
    → running k (xs ++ ys) ≤ running k (xs ++ l ∷ ys)
middle k xs l ys =
    omega
      (arith, running-append k xs ys, running-append k xs (l ∷ ys), running-append k (l ∷ []) ys)

not_empty : {A : Type 0} (xs : List Loop) (l : Loop) (ys : List Loop) → (xs ++ l ∷ ys) ≡ [] → A
not_empty [] l ys h = absurd (cc)
not_empty (x ∷ xs) l ys h = absurd (cc)

step-Orderly : {s t : Upkeep} → Step s t → Orderly s → Orderly t
step-Orderly (start s h) o = record {
  once = λ k. omega (arith, running-append k fresh s.live, running-fresh k, o.none_after h k);
  none_after = λ e. absurd (cc);
  settled = λ e. absurd (cc);
}
step-Orderly (start_again s h) o = o
step-Orderly (shutdown s h) o = record {
  once = λ k. omega (arith, running-stop k s.live);
  none_after = λ _ k. running-stop k s.live;
  settled = λ e. ap (map stop) (o.settled e);
}
step-Orderly (shutdown_never s h) o = o
step-Orderly (shutdown_joined s n h e) o = record {
  once = o.once;
  none_after = o.none_after;
  settled = λ _. e;
}
step-Orderly (shutdown_done s n h) o = record {
  once = o.once;
  none_after = o.none_after;
  settled = o.settled;
}
step-Orderly (shutdown_expired s n h) o = record {
  once = o.once;
  none_after = o.none_after;
  settled = o.settled;
}
step-Orderly (context_done s) o = record {
  once = λ k. omega (arith, running-stop k s.live);
  none_after = λ _ k. running-stop k s.live;
  settled = λ e. ap (map stop) (o.settled e);
}
step-Orderly (tick s before l behind j h e) o = record {
  once = o.once;
  none_after = o.none_after;
  settled = λ e. absurd (cc);
}
step-Orderly (loop_return s before l behind h e) o = record {
  once = λ k. omega (arith, o.once k, ap (running k) h, middle k before l behind);
  none_after = λ f k. omega (arith, o.none_after f k, ap (running k) h, middle k before l behind);
  settled = λ f. not_empty before l behind (sym h ∙ o.settled f);
}

Reached-Orderly : (s : Upkeep) → Reached s → Orderly s
Reached-Orderly s at_first = record {
  once = λ k. omega arith;
  none_after = λ _ k. refl;
  settled = λ _. refl;
}
Reached-Orderly s (next r m) = step-Orderly m (Reached-Orderly _ r)

-- Whatever the order of Start, Shutdown, the ends of contexts and the steps of the loops: at most one
-- loop of each kind runs with a context that is not done, and none while the client is not
-- started; and from when a Shutdown has seen the loops end until the next Start there is no loop, so
-- that its final flush comes after all calls of the loops.
pub Reached-upkeep :
    (s : Upkeep)
    → Reached s
    → ((k : Kind) → running k s.live ≤ 1)
      × (s.started ≡ false → (k : Kind) → running k s.live ≡ 0)
      × (is_settled s.events ≡ true → s.live ≡ [])
Reached-upkeep s r = let o = Reached-Orderly s r in (o.once, o.none_after, o.settled)

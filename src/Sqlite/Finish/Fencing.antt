-- ===== src/Sqlite/Finish/Fencing.antt =====
-- What the lease token guards: the outcome of a finish on every branch, and a second finish.
use novaque.Prelude.{
  ℕ, String, ◌≡◌, refl, ap, ◌∙◌, inl, inr, Bool, true, false, not, Option, none, some, List, [],
  ◌∷◌, arith, Bool-cases,
}
use novaque.Prelude.Lists.{select, modify, first, exists}
use novaque.Store.Errors.{Result, ok, err, lease_mismatch}
use novaque.Action.{pure, >>=-ok, fail, update}
use novaque.Sqlite.Schema.{Db, DeliveryRow}
use novaque.Sqlite.Engine.{Env, World, StatKind, stat_ack, stat_requeue, autocommit}
use novaque.Sqlite.Engine.Rules.{autocommit-up}
use novaque.Sqlite.Sink.{record_stat}
use novaque.Sqlite.Finish.{
  attribution, returned, leased_as, release_row, delete_leased, available_from, release_leased,
  record_at, record_finish, ack, requeue,
}

-- The outcome of a finish: a row that is leased with the token, or a mismatch.
abbrev pub finished : Bool → Result (Unit {0})
finished true = ok tt
finished false = err lease_mismatch

record_at-fine :
    (kind : StatKind) (at : Option ℕ × ℕ) (w : World)
    → ((record_at kind at w).0 ≡ ok tt) × ((record_at kind at w).1.db ≡ w.db)
unfolding record_at record_stat update pure
record_at-fine kind (none, channel) w = (refl, refl)
record_at-fine kind (some topic, channel) w = (refl, refl)

abbrev located : Db → Option DeliveryRow → Option (Option ℕ × ℕ)
located db row = elim row [ none ↦ none | some d ↦ some (attribution db d) ]

record_finish-outcome :
    (kind : StatKind) (db : Db) (p : DeliveryRow → Bool) (ds : List DeliveryRow) (w : World)
    → ((record_finish kind (located db (first p ds)) w).0 ≡ finished (exists p ds))
      × ((record_finish kind (located db (first p ds)) w).1.db ≡ w.db)
unfolding record_finish fail
record_finish-outcome kind db p [] w = (refl, refl)
record_finish-outcome kind db p (d ∷ ds) w = elim (Bool-cases (p d)) [
  | inl e ↦ rw e (record_at-fine kind (attribution db d) w)
  | inr e ↦ rw e (record_finish-outcome kind db p ds w)
]

module _ (env : Env) (w : World) (up : env.fault w.calls ≡ none) where
  abbrev seen : Db
  seen = env.others w.calls w.db

  -- Unless the engine fails, an ack succeeds exactly if the delivery is in flight with the given token,
  -- and reports a lease mismatch otherwise. It deletes the rows with that id and token, and no other.
  pub ack-outcome :
      (i : ℕ) (token : String)
      → ((ack env i token w).0 ≡ finished (exists (leased_as i token) seen.deliveries))
        × ((ack env i token w).1.db
            ≡ record seen { deliveries = select (λ d. not (leased_as i token d)) seen.deliveries })
  unfolding ack delete_leased returned
  ack-outcome i token =
      let done =
        >>=-ok (autocommit env (delete_leased i token)) (record_finish stat_ack) w _ _
          (autocommit-up env (delete_leased i token) w up) in
      rw done (record_finish-outcome stat_ack seen (leased_as i token) seen.deliveries _)

  -- Unless the engine fails, a requeue succeeds exactly if the delivery is in flight with the given token,
  -- and reports a lease mismatch otherwise. It puts the rows with that id and token back as pending, and
  -- changes no other.
  pub requeue-outcome :
      (i : ℕ) (token : String) (at : Option ℕ)
      → ((requeue env i token at w).0 ≡ finished (exists (leased_as i token) seen.deliveries))
        × ((requeue env i token at w).1.db ≡ record seen {
          deliveries =
              modify
                (leased_as i token)
                (release_row (available_from at (env.clock w.calls)))
                seen.deliveries;
        })
  unfolding requeue release_leased returned
  requeue-outcome i token at =
      let done =
        >>=-ok (autocommit env (release_leased i token at)) (record_finish stat_requeue) w _ _
          (autocommit-up env (release_leased i token at) w up) in
      rw done (record_finish-outcome stat_requeue seen (leased_as i token) seen.deliveries _)

-- No row holds a token after the rows that held it were put back.
released-none :
    (i : ℕ) (token : String) (at : ℕ) (ds : List DeliveryRow)
    → exists (leased_as i token) (modify (leased_as i token) (release_row at) ds) ≡ false
released-none i token at [] = refl
released-none i token at (d ∷ ds) = elim (Bool-cases (leased_as i token d)) [
  | inl e ↦ rw e (ground (arith, released-none i token at ds))
  | inr e ↦ rw (e, e) (released-none i token at ds)
]

select-none :
    (p : DeliveryRow → Bool) (ds : List DeliveryRow)
    → exists p ds ≡ false
    → select (λ d. not (p d)) ds ≡ ds
select-none p [] h = refl
select-none p (d ∷ ds) h = elim (Bool-cases (p d)) [
  | inl e ↦ ground arith
  | inr e ↦ rw e (ap (λ (xs : List DeliveryRow). d ∷ xs) (select-none p ds (ground arith)))
]

keeps_none :
    (db : Db) (p : DeliveryRow → Bool)
    → exists p db.deliveries ≡ false
    → record db { deliveries = select (λ d. not (p d)) db.deliveries } ≡ db
keeps_none db p h =
    ap (λ (ds : List DeliveryRow). record db { deliveries = ds }) (select-none p db.deliveries h)

-- While other processes stay away and the engine works, a token finishes its delivery once: after a
-- requeue, an ack with the same token reports a lease mismatch and leaves the database as it is.
pub ack-after_requeue :
    (env : Env) (w : World) (i : ℕ) (token : String) (at : Option ℕ)
    → ((n : ℕ) → env.fault n ≡ none)
    → ((n : ℕ) (db : Db) → env.others n db ≡ db)
    → let w' = (requeue env i token at w).1 in
      ((ack env i token w').0 ≡ err lease_mismatch) × ((ack env i token w').1.db ≡ w'.db)
ack-after_requeue env w i token at ups alone =
    let w' = (requeue env i token at w).1 in
    let back = released-none i token (available_from at (env.clock w.calls)) w.db.deliveries in
    let put = (requeue-outcome env w (ups w.calls) i token at).1 in
    let now_free : exists (leased_as i token) w'.db.deliveries ≡ false = rw (put, alone) back in
    let seen_free : exists (leased_as i token) (env.others w'.calls w'.db).deliveries ≡ false =
      rw (alone w'.calls w'.db) now_free in
    let (outcome, kept) = ack-outcome env w' (ups w'.calls) i token in
    (
      outcome ∙ ap finished seen_free,
      kept
          ∙ keeps_none (env.others w'.calls w'.db) (leased_as i token) seen_free
          ∙ alone w'.calls w'.db,
    )

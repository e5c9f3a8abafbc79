-- ===== src/Server/Finish/Outcome.antt =====
-- The outcome of a finish, on every branch, with others at work between its two statements.
use novaque.Prelude.{
  ℕ, String, ◌≡◌, refl, ap, sym, ◌∙◌, inl, inr, Bool, not, Option, none, some, List, [], ◌∷◌, suc,
  ◌==◌, if◌then◌else◌, arith, Bool-cases,
}
use novaque.Prelude.Lists.{length, select, first, exists}
use novaque.Store.Errors.{Result, ok, lease_mismatch}
use novaque.Action.{Action, pure, fail, update, >>=-ok}
use novaque.Sqlite.Schema.{Db, DeliveryRow}
use novaque.Sqlite.Engine.{World, StatKind, stat_ack, autocommit}
use novaque.Sqlite.Engine.Rules.{autocommit-up}
use novaque.Sqlite.Sink.{Sink, recorded, record_stat}
use novaque.Sqlite.Finish.Fencing.{finished}
use novaque.Server.Engine.{Server, Dialect}
use novaque.Server.Finish.{
  leased_for, coordinates, lease_attribution, delete_where, record_found, settle_finish, ack,
}

-- The buffer after an event at the coordinates that were found.
abbrev pub counted_at : StatKind → Option (ℕ × ℕ) → Sink → Sink
counted_at kind none buf = buf
counted_at kind (some (topic, channel)) buf = recorded topic channel kind 1 buf

found-any :
    (p : DeliveryRow → Bool) (ds : List DeliveryRow)
    → (length (select p ds) == 0) ≡ not (exists p ds)
found-any p [] = refl
found-any p (d ∷ ds) = ground (arith, found-any p ds)

record_found-outcome :
    (kind : StatKind) (at : Option (ℕ × ℕ)) (w : World)
    → record_found kind at w ≡ (ok tt, record w { stat_buf = counted_at kind at w.stat_buf })
unfolding record_found record_stat update pure
record_found-outcome kind none w = refl
record_found-outcome kind (some (topic, channel)) w = refl

settle_finish-outcome :
    (kind : StatKind) (at : Option (ℕ × ℕ)) (p : DeliveryRow → Bool) (ds : List DeliveryRow)
    (w : World)
    → settle_finish kind at (length (select p ds)) w ≡ (
      finished (exists p ds),
      record w { stat_buf = if exists p ds then counted_at kind at w.stat_buf else w.stat_buf },
    )
unfolding settle_finish fail
settle_finish-outcome kind at p ds w =
    let decided : Bool → Action World (Unit {0}) =
      λ b. if b then fail lease_mismatch else record_found kind at in
    let said : Bool → Result (Unit {0}) × World = λ b. (
      finished b,
      record w { stat_buf = if b then counted_at kind at w.stat_buf else w.stat_buf },
    ) in
    ap (λ b. decided b w) (found-any p ds) ∙ elim (Bool-cases (exists p ds)) [
      | inl e ↦ ap (λ b. decided (not b) w) e ∙ record_found-outcome kind at w ∙ ap said (sym e)
      | inr e ↦ ap (λ b. decided (not b) w) e ∙ ap said (sym e)
    ]

module _ (dialect : Dialect) (server : Server) (w : World) (i : ℕ) (token : String)
    (up : server.env.fault w.calls ≡ none) (still_up : server.env.fault (suc w.calls) ≡ none) where
  -- What the lookup sees, and what the change sees.
  abbrev looked_up : Db
  looked_up = server.env.others w.calls w.db

  abbrev met : Db
  met = server.env.others (suc w.calls) looked_up

  abbrev leased : DeliveryRow → Bool
  leased = leased_for dialect.same_text i token

  -- Unless the engine fails, an ack succeeds exactly if the delivery is leased with the token when the
  -- DELETE runs, and reports a lease mismatch otherwise, whatever others commit between the lookup
  -- and the DELETE. It deletes the rows with that id and token and no other, and counts, if it succeeds, at
  -- the coordinates that the lookup found, if it found any.
  pub ack-outcome_server : ack dialect server i token w ≡ (
    finished (exists leased met.deliveries),
    record w {
      db = record met { deliveries = select (λ d. not (leased d)) met.deliveries };
      stat_buf =
          if exists leased met.deliveries
          then counted_at stat_ack
              (coordinates looked_up (first leased looked_up.deliveries))
              w.stat_buf
          else w.stat_buf;
      calls = suc (suc w.calls);
    },
  )
  unfolding ack lease_attribution delete_where
  ack-outcome_server =
      let looked =
        >>=-ok (autocommit server.env (lease_attribution leased)) _ w _ _
          (autocommit-up server.env (lease_attribution leased) w up) in
      let w' = record w { db = looked_up; calls = suc w.calls } in
      let deleted =
        >>=-ok (autocommit server.env (delete_where leased))
          (settle_finish stat_ack (coordinates looked_up (first leased looked_up.deliveries))) w' _
          _ (autocommit-up server.env (delete_where leased) w' still_up) in
      looked ∙ deleted ∙ settle_finish-outcome stat_ack _ leased met.deliveries _

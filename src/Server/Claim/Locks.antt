-- ===== src/Server/Claim/Locks.antt =====
-- What a transaction may rely on for the rows that it has locked, while others commit.
use novaque.Prelude.{
  ℕ, suc, ◌≡◌, refl, sym, ap, subst, ◌∙◌, inl, inr, Bool, true, Option, none, some, List, ◌∷◌,
  arith, if◌then◌else◌, Option-cases,
}
use novaque.Prelude.Lists.{modify, elem}
use novaque.Store.Errors.{ok}
use novaque.Sqlite.Schema.{DeliveryRow}
use novaque.Sqlite.Lifecycle.{Tracing, row_of}
use novaque.Sqlite.Evolution.{same_row}
use novaque.Sqlite.Evolution.Rows.{row-modify, row-modify-none}
use novaque.Sqlite.Engine.{Stmt, tick_at}
use novaque.Sqlite.Engine.Rules.{statement-eq-ok}
use novaque.Server.Engine.{Server, Session, meet_others, query}
use novaque.Server.Engine.Rules.{OthersKeep}

-- The rows of the ids are locked, and each that is there has the property.
pub record Guards (P : DeliveryRow → Type 0) (ids : List ℕ) (s : Session) : Type 0 where
  pub locked : (i : ℕ) → elem i ids ≡ true → elem i s.locked ≡ true
  pub holds :
      (i : ℕ) (d : DeliveryRow) → elem i ids ≡ true → row_of s.world.db.deliveries i ≡ some d → P d

module _ (P : DeliveryRow → Type 0) (ids : List ℕ) where
  -- In a session with the same deliveries and locks.
  pub Guards-same :
      (s t : Session)
      → t.world.db.deliveries ≡ s.world.db.deliveries
      → t.locked ≡ s.locked
      → Guards P ids s
      → Guards P ids t
  Guards-same s t rows locks g = record {
    locked = λ i m. ap (elem i) locks ∙ g.locked i m;
    holds = λ i d m h. g.holds i d m (sym (ap (λ ds. row_of ds i) rows) ∙ h);
  }

  changed :
      (p : DeliveryRow → Bool) (f : DeliveryRow → DeliveryRow) (ds : List DeliveryRow) (i : ℕ)
      (e : DeliveryRow)
      → ((d : DeliveryRow) → (f d).id ≡ d.id)
      → ((d : DeliveryRow) → row_of ds i ≡ some d → P d)
      → ((d : DeliveryRow) → P d → P (if p d then f d else d))
      → row_of (modify p f ds) i ≡ some e
      → P e
  changed p f ds i e id h keep k = elim (Option-cases (row_of ds i)) [
    | inl gone ↦ absurd (clash (row-modify-none i p f ds id gone) k)
    | inr (d, r) ↦ subst P (same_row (row-modify i p f ds d id r) k) (keep d (h d r))
  ]
    where
      clash : {o : Option DeliveryRow} {d : DeliveryRow} → o ≡ none → o ≡ some d → ⊥
      clash n y = cc

  -- After a change of rows that keeps the property.
  pub Guards-modify :
      (p : DeliveryRow → Bool) (f : DeliveryRow → DeliveryRow) (s t : Session)
      → ((d : DeliveryRow) → (f d).id ≡ d.id)
      → t.world.db.deliveries ≡ modify p f s.world.db.deliveries
      → t.locked ≡ s.locked
      → ((d : DeliveryRow) → P d → P (if p d then f d else d))
      → Guards P ids s
      → Guards P ids t
  Guards-modify p f s t id rows locks keep g = record {
    locked = λ i m. ap (elem i) locks ∙ g.locked i m;
    holds = λ i d m h.
        changed p f s.world.db.deliveries i d id (λ e k. g.holds i e m k) keep
          (sym (ap (λ ds. row_of ds i) rows) ∙ h);
  }

  -- Others stay off the locked rows.
  pub Guards-meet_others :
      {traced : Tracing} (server : Server) (keeps : OthersKeep traced server) (s : Session)
      → Guards P ids s
      → Guards P ids (meet_others server s)
  unfolding meet_others
  Guards-meet_others server keeps s g = record {
    locked = g.locked;
    holds = λ i d m h.
        g.holds i d m (sym (keeps.locks s.world.calls s.locked s.world.db i (g.locked i m)) ∙ h);
  }

pub Guards-tail :
    (P : DeliveryRow → Type 0) (i : ℕ) (is : List ℕ) (s : Session)
    → Guards P (i ∷ is) s
    → Guards P is s
Guards-tail P i is s g = record {
  locked = λ j m. g.locked j (later j m);
  holds = λ j d m h. g.holds j d (later j m) h;
}
  where
    later : (j : ℕ) → elem j is ≡ true → elem j (i ∷ is) ≡ true
    later j m = ground arith

module _ (server : Server) where
  -- A statement that succeeds has run once on what it met.
  pub query-eq-ok :
      {A : Type 0} (f : Stmt A) (s : Session) (a : A)
      → (query server f s).0 ≡ ok a
      → let met = meet_others server s in
        let ran = f (tick_at server.env s.world.calls) met.world.db in
        (ran.0 ≡ ok a)
        × ((query server f s).1
            ≡ record met { world = record met.world { db = ran.1; calls = suc s.world.calls } })
  unfolding query meet_others
  query-eq-ok f s a h =
      let met = meet_others server s in
      let ran = statement-eq-ok server.env f met.world a h in
      (ran.0, ap (λ w. record met { world = w }) ran.1)

  pub query-locked :
      {A : Type 0} (f : Stmt A) (s : Session) → (query server f s).1.locked ≡ s.locked
  unfolding query meet_others
  query-locked f s = refl

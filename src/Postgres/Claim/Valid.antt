-- ===== src/Postgres/Claim/Valid.antt =====
-- The UPDATE of all polled rows leases them along their life cycle.
use novaque.Prelude.{
  ℕ, ◌≤◌, String, ◌≡◌, refl, sym, ap, subst, ◌∙◌, true, List, [], ◌∷◌, map, ◌==◌, ==_iff, arith,
}
use novaque.Prelude.Int.{ℤ}
use novaque.Prelude.Lists.{length, select, elem}
use novaque.Prelude.Rows.{first-test}
use novaque.Prelude.Keys.{and_left, and_right, elem-select, length-map, length-select-le}
use novaque.Store.Errors.{ok}
use novaque.Sqlite.Schema.{DeliveryRow, is_pending}
use novaque.Sqlite.Engine.{tick_at}
use novaque.Sqlite.Invariant.{IsValid-modify_deliveries}
use novaque.Sqlite.Lifecycle.{Tracing, Timely, claimed}
use novaque.Sqlite.Evolution.{Evolves, Evolves-modify, IsLawful}
use novaque.Server.Engine.{Server, Dialect, Session, meet_others, query}
use novaque.Server.Engine.Rules.{OthersKeep, query-follows}
use novaque.Server.Claim.{Leases, lease_ids}
use novaque.Server.Claim.Locks.{Guards, Guards-meet_others, query-eq-ok, query-locked}
use novaque.Server.Claim.Valid.{Due, Leasing, claim_with-IsLawful}
use novaque.Postgres.Claim.{leasable, lease_all, claim}

ids_back : (token : ℕ → String) (is : List ℕ) → lease_ids (map (λ i. (i, token i)) is) ≡ is
ids_back token [] = refl
ids_back token (i ∷ is) = ap (λ js. i ∷ js) (ids_back token is)

module _ {traced : Tracing} (loose : (a b : ℕ) → a ≤ b → Timely traced a b) (server : Server)
    (keeps : OthersKeep traced server) (owner : String) where
  lease_all-Evolves :
      (polled n sec : ℕ) (ids : List ℕ) (s : Session)
      → polled ≤ server.env.clock n
      → Guards (Due polled) ids s
      → Evolves traced s.world.db (lease_all owner sec ids (tick_at server.env n) s.world.db).1
  unfolding lease_all
  lease_all-Evolves polled n sec ids s time g =
      Evolves-modify s.world.db _
        (IsValid-modify_deliveries _ _ s.world.db (λ d. refl) (λ d. refl) (λ d. refl)
          (λ d h. (refl, refl, refl)))
        _ _ refl refl (λ d. refl)
        (λ v i d found h.
          let named : d.id ≡ i =
            (==_iff d.id i).0 (first-test (λ r. r.id == i) s.world.db.deliveries d found) in
          claimed d owner sec polled (server.env.clock n) (server.env.blob n)
            (loose polled (server.env.clock n) time)
            (g.holds i d
              (subst (λ j. elem j ids ≡ true) named
                (and_left (elem d.id ids) (is_pending d.status) h))
              found (and_right (elem d.id ids) (is_pending d.status) h)))

  lease_all-among :
      (sec : ℕ) (ids : List ℕ) (s : Session) (leases : Leases) (i : ℕ)
      → (query server (lease_all owner sec ids) s).0 ≡ ok leases
      → elem i (lease_ids leases) ≡ true
      → elem i ids ≡ true
  unfolding lease_all
  lease_all-among sec ids s leases i ran m =
      let met = meet_others server s in
      let moved = map (λ (d : DeliveryRow). d.id) (select (leasable ids) met.world.db.deliveries) in
      let kept = select (λ j. elem j moved) ids in
      let token = (tick_at server.env s.world.calls).blob in
      let done = query-eq-ok server (lease_all owner sec ids) s leases ran in
      let same : map (λ j. (j, token j)) kept ≡ leases = given done.0 in
      (elem-select i (λ j. elem j moved) ids
        (subst (λ js. elem i js ≡ true) (sym (ap lease_ids same) ∙ ids_back token kept) m)).0
    where
      given : {a b : Leases} → ok a ≡ ok b → a ≡ b
      given h = cc

  lease_all-fewer :
      (sec : ℕ) (ids : List ℕ) (s : Session) (leases : Leases)
      → (query server (lease_all owner sec ids) s).0 ≡ ok leases
      → length leases ≤ length ids
  unfolding lease_all
  lease_all-fewer sec ids s leases ran =
      let met = meet_others server s in
      let moved = map (λ (d : DeliveryRow). d.id) (select (leasable ids) met.world.db.deliveries) in
      let kept = select (λ j. elem j moved) ids in
      let token = (tick_at server.env s.world.calls).blob in
      let done = query-eq-ok server (lease_all owner sec ids) s leases ran in
      let same : map (λ j. (j, token j)) kept ≡ leases = given done.0 in
      subst (λ ls. length ls ≤ length ids) same
        (omega (
          arith,
          length-map {B = ℕ × String} (λ j. (j, token j)) kept,
          length-select-le (λ j. elem j moved) ids,
        ))
    where
      given : {a b : Leases} → ok a ≡ ok b → a ≡ b
      given h = cc

  pub lease_all-Leasing : Leasing traced server (λ sec ids. query server (lease_all owner sec ids))
  lease_all-Leasing = record {
    follows = λ polled sec ids s time g. query-follows server keeps (lease_all owner sec ids) s (
        lease_all-Evolves polled s.world.calls sec ids (meet_others server s) time
          (Guards-meet_others (Due polled) ids server keeps s g));
    locks = λ sec ids s. query-locked server (lease_all owner sec ids) s;
    among = lease_all-among;
    fewer = lease_all-fewer;
  }

  pub claim-IsLawful :
      (dialect : Dialect) (channel lease_for limit : ℤ)
      → IsLawful traced (claim dialect server channel owner lease_for limit)
  unfolding claim
  claim-IsLawful dialect channel l n =
      claim_with-IsLawful server keeps dialect _ lease_all-Leasing channel l n

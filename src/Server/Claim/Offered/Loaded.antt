-- ===== src/Server/Claim/Offered/Loaded.antt =====
-- Deliveries that a claim loaded: under a lease from the poll, and within their caps.
use novaque.Prelude.{
  ℕ, suc, ◌≤◌, ◌≡◌, refl, sym, subst, inl, inr, Bool, true, false, not, some, List, [], ◌∷◌, map,
  ◌==◌, ==_iff, arith, Bool-cases, Option-cases,
}
use novaque.Prelude.Lists.{All, length, select, first, elem}
use novaque.Prelude.Rows.{Asc}
use novaque.Prelude.Keys.{selected_test, length-map}
use novaque.Store.Errors.{ok}
use novaque.Store.Types.{Delivery}
use novaque.Action.{pure, >>=-eq-ok}
use novaque.Sqlite.Schema.{DeliveryRow}
use novaque.Sqlite.Lifecycle.{Tracing, row_of}
use novaque.Sqlite.Claim.{
  Joined, load_claimed, join_rows, poisoned, dead_ids, ClaimTx, claim_result,
}
use novaque.Sqlite.Claim.Lease.Rows.{in_claim_order-All, in_claim_order-length, All-live}
use novaque.Server.Engine.{Server, Session, meet_others, query}
use novaque.Server.Engine.Rules.{OthersKeep}
use novaque.Server.Claim.{Leases, lease_ids, with_token, bury_each, load_and_bury}
use novaque.Server.Claim.Locks.{query-eq-ok}
use novaque.Server.Claim.Bury.{loaded_among}

-- A key among those of the selected rows names a row, and it passes the test.
pub found_row :
    (p : DeliveryRow → Bool) (lo : ℕ) (ds : List DeliveryRow) (hi i : ℕ)
    → Asc (λ d. d.id) lo ds hi
    → elem i (map (λ d. d.id) (select p ds)) ≡ true
    → (d : DeliveryRow) × (row_of ds i ≡ some d) × (p d ≡ true)
found_row p lo [] hi i a m = absurd (cc)
found_row p lo (x ∷ xs) hi i a m = elim (Bool-cases (x.id == i)) [
  | inl e ↦
      let named : i ≡ x.id = sym ((==_iff x.id i).0 e) in
      (
        x,
        rw e refl,
        (selected_test (λ d. d.id) p lo (x ∷ xs) hi a).0.1
            (subst (λ j. elem j (map (λ d. d.id) (select p (x ∷ xs))) ≡ true) named m),
      )
  | inr e ↦
      let (d, found, passed) = found_row p (suc x.id) xs hi i a.1 (further e) in
      (d, rw e found, passed)
]
  where
    further : (x.id == i) ≡ false → elem i (map (λ d. d.id) (select p xs)) ≡ true
    further e = ground (arith, m, e)

-- A delivery under a lease from the poll, within its cap.
pub record Within (ids : List ℕ) (d : Delivery) : Type 0 where
  pub polled : elem d.id ids ≡ true
  pub capped : d.attempts ≤ d.max_attempts

token-Within :
    (ids : List ℕ) (leases : Leases) (j : Joined)
    → elem j.1.id ids ≡ true
    → poisoned (with_token leases j) ≡ false
    → Within ids (with_token leases j).1
unfolding with_token
token-Within ids leases j m e = elim (Option-cases (first (λ l. l.0 == j.1.id) leases)) [
  | inl k ↦ record { polled = ground (arith, m, k); capped = ground (arith, e, k) }
  | inr (l, k) ↦ record { polled = ground (arith, m, k); capped = ground (arith, e, k) }
]

tokens-Within :
    (ids : List ℕ) (leases : Leases) (rows : List Joined)
    → All (λ j. elem j.1.id ids ≡ true) rows
    → All (λ j. poisoned j ≡ false → Within ids j.1) (map (with_token leases) rows)
tokens-Within ids leases [] h = tt
tokens-Within ids leases (j ∷ js) h =
    (token-Within ids leases j h.0, tokens-Within ids leases js h.1)

module _ {traced : Tracing} (server : Server) (keeps : OthersKeep traced server) where
  pub loaded-Within :
      (leases : Leases) (s : Session) (c : ClaimTx)
      → (load_and_bury server leases s).0 ≡ ok c
      → All (Within (lease_ids leases)) c.out × (length c.out ≤ length leases)
  unfolding load_and_bury load_claimed claim_result pure
  loaded-Within leases s c h =
      let ids = lease_ids leases in
      let (rows, ran, h', _) = >>=-eq-ok (query server (load_claimed ids)) _ s h in
      let (_, _, h'', _) = >>=-eq-ok (bury_each server (dead_ids rows)) _ _ h' in
      let db = (meet_others server s).world.db in
      let read : ok (join_rows db (select (λ d. elem d.id ids) db.deliveries)) ≡ ok rows =
        (query-eq-ok server (load_claimed ids) s rows ran).0 in
      let same : join_rows db (select (λ d. elem d.id ids) db.deliveries) ≡ rows = cc in
      let within = subst (All (λ j. elem j.1.id ids ≡ true)) same (loaded_among db ids) in
      let tokened = map (with_token leases) rows in
      let live = All-live (Within ids) tokened (tokens-Within ids leases rows within) in
      let result : ok (claim_result ids tokened) ≡ ok c = h'' in
      let exact : claim_result ids tokened ≡ c = cc in
      subst (λ (r : ClaimTx). All (Within ids) r.out × (length r.out ≤ length leases)) exact
        (
          in_claim_order-All (Within ids) ids _ live,
          omega (
            arith,
            in_claim_order-length ids (select (λ j. not (poisoned j)) tokened),
            length-map (λ (l : ℕ × _). l.0) leases,
          ),
        )

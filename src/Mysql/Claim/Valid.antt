-- ===== src/Mysql/Claim/Valid.antt =====
-- The UPDATEs of the polled rows, one by one, lease them along their life cycle.
use novaque.Prelude.{
  ℕ, suc, ◌≤◌, String, ◌≡◌, refl, sym, ap, subst, ◌∙◌, Bool, true, false, List, [], ◌∷◌, ◌==◌,
  ==_iff, if◌then◌else◌, arith, inl, inr, Bool-cases,
}
use novaque.Prelude.Int.{ℤ}
use novaque.Prelude.Lists.{length, elem}
use novaque.Prelude.Rows.{first-test}
use novaque.Prelude.Keys.{and_left, and_right}
use novaque.Store.Errors.{ok}
use novaque.Action.{pure, >>=-eq-ok}
use novaque.Action.Follows.{Preorder, Follows, Follows-pure, Follows-bind, bind-follows}
use novaque.Sqlite.Schema.{DeliveryRow, is_pending}
use novaque.Sqlite.Engine.{tick_at}
use novaque.Sqlite.Claim.{lease_row}
use novaque.Sqlite.Invariant.{IsValid-modify_deliveries}
use novaque.Sqlite.Lifecycle.{Tracing, Timely, claimed}
use novaque.Sqlite.Evolution.{Evolves, Evolves-Preorder, Evolves-modify, IsLawful}
use novaque.Server.Engine.{Server, Dialect, Session, meet_others, query}
use novaque.Server.Engine.Rules.{
  OthersKeep, OnSession, OnSession-Preorder, IsLawfulTx-pure, query-follows,
}
use novaque.Server.Claim.{Leases, lease_ids}
use novaque.Server.Claim.Locks.{
  Guards, Guards-modify, Guards-tail, Guards-meet_others, query-eq-ok, query-locked,
}
use novaque.Server.Claim.Valid.{Due, Leasing, claim_with-IsLawful}
use novaque.Mysql.Claim.{leasable, lease_one, lease_each, claim}

-- A row that has been leased is not pending any more.
still-Due :
    (polled : ℕ) (b : Bool) (owner : String) (sec now : ℕ) (blob : ℕ → String) (d : DeliveryRow)
    → Due polled d
    → Due polled (if b then lease_row owner sec now blob d else d)
still-Due polled true owner sec now blob d h = λ p. absurd (cc)
still-Due polled false owner sec now blob d h = h

-- The leased ids are those of the rest, and the first if it was affected.
split_among :
    (b : Bool) (i j : ℕ) (token : String) (is : List ℕ) (rest : Leases)
    → elem i (lease_ids (if b then rest else (j, token) ∷ rest)) ≡ true
    → (elem i (lease_ids rest) ≡ true → elem i is ≡ true)
    → elem i (j ∷ is) ≡ true
split_among true i j token is rest m k = later_in i j is (k m)
  where
    later_in : (i j : ℕ) (is : List ℕ) → elem i is ≡ true → elem i (j ∷ is) ≡ true
    later_in i j is h = ground arith
split_among false i j token is rest m k = elim (Bool-cases (i == j)) [
  | inl e ↦ rw e refl
  | inr e ↦ rw e (k (rw e at m))
]

abbrev SameLocks : Session → Session → Type 0
SameLocks s t = t.locked ≡ s.locked

SameLocks-Preorder : Preorder SameLocks
SameLocks-Preorder = record { same = λ s. refl; chain = λ h k. k ∙ h }

module _ {traced : Tracing} (loose : (a b : ℕ) → a ≤ b → Timely traced a b) (server : Server)
    (keeps : OthersKeep traced server) (owner : String) where
  lease_one-Evolves :
      (polled n sec i : ℕ) (is : List ℕ) (s : Session)
      → polled ≤ server.env.clock n
      → Guards (Due polled) (i ∷ is) s
      → Evolves traced s.world.db (lease_one owner sec i (tick_at server.env n) s.world.db).1
  unfolding lease_one
  lease_one-Evolves polled n sec i is s time g =
      Evolves-modify s.world.db _
        (IsValid-modify_deliveries _ _ s.world.db (λ d. refl) (λ d. refl) (λ d. refl)
          (λ d h. (refl, refl, refl)))
        _ _ refl refl (λ d. refl)
        (λ v j d found h.
          let named : d.id ≡ j =
            (==_iff d.id j).0 (first-test (λ r. r.id == j) s.world.db.deliveries d found) in
          let mine : d.id ≡ i = (==_iff d.id i).0 (and_left (d.id == i) (is_pending d.status) h) in
          claimed d owner sec polled (server.env.clock n) (server.env.blob n)
            (loose polled (server.env.clock n) time)
            (g.holds j d (head_of j i is (sym named ∙ mine)) found
              (and_right (d.id == i) (is_pending d.status) h)))
    where
      head_of : (j i : ℕ) (is : List ℕ) → j ≡ i → elem j (i ∷ is) ≡ true
      head_of j i is h = ground arith

  rest-Due :
      (polled sec i : ℕ) (is : List ℕ) (s : Session) (a : ℕ × String)
      → (query server (lease_one owner sec i) s).0 ≡ ok a
      → Guards (Due polled) (i ∷ is) (meet_others server s)
      → Guards (Due polled) is (query server (lease_one owner sec i) s).1
  unfolding lease_one
  rest-Due polled sec i is s a ran g =
      let t = tick_at server.env s.world.calls in
      let done = query-eq-ok server (lease_one owner sec i) s a ran in
      Guards-modify (Due polled) is (leasable i) (lease_row owner sec t.now t.blob)
        (meet_others server s) (query server (lease_one owner sec i) s).1 (λ d. refl)
        (ap (λ x. x.world.db.deliveries) done.1) (ap (λ x. x.locked) done.1)
        (λ d h. still-Due polled (leasable i d) owner sec t.now t.blob d h)
        (Guards-tail (Due polled) i is (meet_others server s) g)

  later :
      (polled sec i : ℕ) (s : Session) (a : ℕ × String)
      → (query server (lease_one owner sec i) s).0 ≡ ok a
      → polled ≤ server.env.clock s.world.calls
      → polled ≤ server.env.clock (query server (lease_one owner sec i) s).1.world.calls
  later polled sec i s a ran time =
      let t = (query server (lease_one owner sec i) s).1 in
      let calls : t.world.calls ≡ suc s.world.calls =
        ap (λ x. x.world.calls) (query-eq-ok server (lease_one owner sec i) s a ran).1 in
      omega (arith, keeps.clock s.world.calls t.world.calls (omega (arith, calls)))

  lease_each-follows :
      (polled sec : ℕ) (ids : List ℕ) (s : Session)
      → polled ≤ server.env.clock s.world.calls
      → Guards (Due polled) ids s
      → OnSession (Evolves traced) s (lease_each server owner sec ids s).1
  unfolding lease_each
  lease_each-follows polled sec [] s time g = (IsLawfulTx-pure _).at s
  lease_each-follows polled sec (i ∷ is) s time g =
      let o = OnSession-Preorder (Evolves-Preorder traced) in
      let g' = Guards-meet_others (Due polled) (i ∷ is) server keeps s g in
      let one = query server (lease_one owner sec i) in
      bind-follows o one _ s
        (query-follows server keeps (lease_one owner sec i) s
          (lease_one-Evolves polled s.world.calls sec i is (meet_others server s) time g'))
        (λ a ran.
          bind-follows o (lease_each server owner sec is) _ (one s).1
            (lease_each-follows polled sec is (one s).1 (later polled sec i s a ran time)
              (rest-Due polled sec i is s a ran g'))
            (λ _ _. (IsLawfulTx-pure _).at _))

  lease_each-locks : (sec : ℕ) (ids : List ℕ) → Follows SameLocks (lease_each server owner sec ids)
  unfolding lease_each
  lease_each-locks sec [] = Follows-pure SameLocks-Preorder _
  lease_each-locks sec (i ∷ is) =
      Follows-bind SameLocks-Preorder (query server (lease_one owner sec i)) _
        (record { at = query-locked server (lease_one owner sec i) })
        (λ a.
          Follows-bind SameLocks-Preorder (lease_each server owner sec is) _
            (lease_each-locks sec is) (λ _. Follows-pure SameLocks-Preorder _))

  lease_each-among :
      (sec : ℕ) (ids : List ℕ) (s : Session) (leases : Leases) (i : ℕ)
      → (lease_each server owner sec ids s).0 ≡ ok leases
      → elem i (lease_ids leases) ≡ true
      → elem i ids ≡ true
  unfolding lease_each pure
  lease_each-among sec [] s leases i ran m =
      let none_leased : [] ≡ leases = given ran in
      subst (λ ls. elem i (lease_ids ls) ≡ true) (sym none_leased) m
    where
      given : {a b : Leases} → ok a ≡ ok b → a ≡ b
      given h = cc
  lease_each-among sec (j ∷ is) s leases i ran m =
      let (a, _, ran', _) = >>=-eq-ok (query server (lease_one owner sec j)) _ s ran in
      let (rest, got, ran'', _) = >>=-eq-ok (lease_each server owner sec is) _ _ ran' in
      let same : (if a.0 == 0 then rest else (j, a.1) ∷ rest) ≡ leases = given ran'' in
      split_among (a.0 == 0) i j a.1 is rest
        (subst (λ ls. elem i (lease_ids ls) ≡ true) (sym same) m)
        (λ k. lease_each-among sec is _ rest i got k)
    where
      given : {a b : Leases} → ok a ≡ ok b → a ≡ b
      given h = cc

  lease_each-fewer :
      (sec : ℕ) (ids : List ℕ) (s : Session) (leases : Leases)
      → (lease_each server owner sec ids s).0 ≡ ok leases
      → length leases ≤ length ids
  unfolding lease_each pure
  lease_each-fewer sec [] s leases ran =
      let none_leased : [] ≡ leases = given ran in
      subst (λ (ls : Leases). length ls ≤ 0) none_leased (omega arith)
    where
      given : {a b : Leases} → ok a ≡ ok b → a ≡ b
      given h = cc
  lease_each-fewer sec (j ∷ is) s leases ran =
      let (a, _, ran', _) = >>=-eq-ok (query server (lease_one owner sec j)) _ s ran in
      let (rest, got, ran'', _) = >>=-eq-ok (lease_each server owner sec is) _ _ ran' in
      let same : (if a.0 == 0 then rest else (j, a.1) ∷ rest) ≡ leases = given ran'' in
      subst (λ (ls : Leases). length ls ≤ suc (length is)) same
        (kept (a.0 == 0) (j, a.1) rest (length is) (lease_each-fewer sec is _ rest got))
    where
      given : {a b : Leases} → ok a ≡ ok b → a ≡ b
      given h = cc

      kept :
          (b : Bool) (l : ℕ × String) (rest : Leases) (n : ℕ)
          → length rest ≤ n
          → length (if b then rest else l ∷ rest) ≤ suc n
      kept b l rest n h = ground arith

  pub lease_each-Leasing : Leasing traced server (lease_each server owner)
  lease_each-Leasing = record {
    follows = lease_each-follows;
    locks = λ sec ids s. (lease_each-locks sec ids).at s;
    among = lease_each-among;
    fewer = lease_each-fewer;
  }

  pub claim-IsLawful :
      (dialect : Dialect) (channel lease_for limit : ℤ)
      → IsLawful traced (claim dialect server channel owner lease_for limit)
  unfolding claim
  claim-IsLawful dialect channel l n =
      claim_with-IsLawful server keeps dialect _ lease_each-Leasing channel l n

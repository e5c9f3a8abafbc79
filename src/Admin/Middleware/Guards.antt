-- ===== src/Admin/Middleware/Guards.antt =====
-- What a request has passed when the router gets it.
use novaque.Prelude.{
  ℕ, String, ◌≡◌, refl, sym, ap, ◌∙◌, inl, inr, true, false, Option, none, some, List, [], ◌∷◌,
  ◌++◌, ◌==◌, str_eq, ==_iff, subst, Bool-cases, if◌then◌else◌,
}
use novaque.Prelude.Lists.{list_eq, is_prefix, drop, length}
use novaque.Prelude.Text.{codes}
use novaque.Prelude.Keys.{list_eq_sound, and_left, and_right}
use novaque.Admin.Prefix.{basic_auth, Stripped, served, moved, absent, slash, strip_prefix}
use novaque.Admin.Middleware.{
  Header, is_static_path, security_headers, Mount, Request, routed, unlisted, unauthorized,
  authorized, inner_chain, after_strip, gate,
}

-- The value of a header.
abbrev pub header : String → List Header → Option String
header name [] = none
header name ((n, v) ∷ hs) = if str_eq n name then some v else header name hs

front : (p t : List ℕ) → is_prefix (p ++ slash) t ≡ true → t ≡ p ++ drop (length p) t
front [] t h = refl
front (c ∷ p) [] h = absurd (cc)
front (c ∷ p) (d ∷ t) h =
    let same : d ≡ c = sym ((==_iff c d).0 (and_left (c == d) _ h)) in
    rw same (ap (λ (x : List ℕ). c ∷ x) (front p t (and_right (c == d) _ h)))

served_path : {p q : List ℕ} → served p ≡ served q → p ≡ q
served_path h = cc

strip_prefix-served :
    (prefix url query p : List ℕ) → strip_prefix prefix url query ≡ served p → url ≡ prefix ++ p
unfolding strip_prefix
strip_prefix-served [] url query p h = served_path h
strip_prefix-served (c ∷ cs) url query p h = elim (Bool-cases (list_eq url (c ∷ cs))) [
  | inl e ↦ absurd (not_moved (rw e at h))
  | inr e ↦ elim (Bool-cases (is_prefix ((c ∷ cs) ++ slash) url)) [
    | inl k ↦
        let rest : drop (length (c ∷ cs)) url ≡ p = served_path (rw (e, k) at h) in
        front (c ∷ cs) url k ∙ ap (λ (x : List ℕ). (c ∷ cs) ++ x) rest
    | inr k ↦ absurd (not_absent (rw (e, k) at h))
  ]
]
  where
    not_moved : {l p : List ℕ} → moved l ≡ served p → ⊥
    not_moved h = cc

    not_absent : {p : List ℕ} → absent ≡ served p → ⊥
    not_absent h = cc

-- The headers that go on to the router.
abbrev IsGuarded : List ℕ → List Header → Type 0
IsGuarded p hs =
    (header "X-Content-Type-Options" hs ≡ some "nosniff")
    × (is_static_path p ≡ false → header "Cache-Control" hs ≡ some "no-store")

security_headers-IsGuarded : (p : List ℕ) → IsGuarded p (security_headers p).0
unfolding security_headers
security_headers-IsGuarded p = elim (Bool-cases (is_static_path p)) [
  | inl e ↦ rw e (refl, λ k. absurd (cc))
  | inr e ↦ elim (Bool-cases (is_prefix (codes "/api/") p)) [
    | inl k ↦ rw (e, k) (refl, λ _. refl)
    | inr k ↦ rw (e, k) (refl, λ _. refl)
  ]
]

inner_chain-routed :
    (q p : List ℕ) (hs : List Header)
    → inner_chain q ≡ routed p hs
    → (q ≡ p) × ((security_headers q).0 ≡ hs)
inner_chain-routed q p hs h = elim (Bool-cases (security_headers q).1) [
  | inl e ↦ let passed : routed q (security_headers q).0 ≡ routed p hs = rw e at h in (cc, cc)
  | inr e ↦ let refused : unlisted (security_headers q).0 ≡ routed p hs = rw e at h in absurd (cc)
]

after_strip-routed :
    (auth credentials : Option (List ℕ × List ℕ)) (s : Stripped) (p : List ℕ) (hs : List Header)
    → after_strip auth credentials s ≡ routed p hs
    → (s ≡ served p) × (authorized auth credentials ≡ true) × IsGuarded p hs
after_strip-routed auth credentials (moved l) p hs h = absurd (cc)
after_strip-routed auth credentials absent p hs h = absurd (cc)
after_strip-routed auth credentials (served q) p hs h =
    elim (Bool-cases (authorized auth credentials)) [
      | inl e ↦
          let (same, headers) = inner_chain-routed q p hs (rw e at h) in
          (
            ap served same,
            e,
            subst (λ (x : List ℕ). IsGuarded x hs) same
                (subst (IsGuarded q) headers (security_headers-IsGuarded q)),
          )
      | inr e ↦ let refused : unauthorized ≡ routed p hs = rw e at h in absurd (cc)
    ]

basic_auth-exact :
    (user pass : List ℕ) (credentials : Option (List ℕ × List ℕ))
    → basic_auth user pass credentials ≡ true
    → credentials ≡ some (user, pass)
unfolding basic_auth
basic_auth-exact user pass none h = absurd (cc)
basic_auth-exact user pass (some (u, p)) h =
    let same_user = list_eq_sound u user (and_left (list_eq u user) _ h) in
    let same_pass = list_eq_sound p pass (and_right (list_eq u user) _ h) in
    rw (same_user, same_pass) refl

-- The router gets a request only if the URL is the mount prefix and the path that is routed, and, where
-- the mount has a pair of credentials, the request carries this pair. The response is then marked
-- nosniff, and no-store unless the path is under /static.
pub gate-guards :
    (m : Mount) (r : Request) (p : List ℕ) (hs : List Header)
    → gate m r ≡ routed p hs
    → (r.path ≡ m.prefix ++ p)
      × ((pair : List ℕ × List ℕ) → m.auth ≡ some pair → r.credentials ≡ some pair)
      × (header "X-Content-Type-Options" hs ≡ some "nosniff")
      × (is_static_path p ≡ false → header "Cache-Control" hs ≡ some "no-store")
unfolding gate
gate-guards m r p hs h =
    let (stripped, allowed, headers) =
      after_strip-routed m.auth r.credentials (strip_prefix m.prefix r.path r.query) p hs h in
    (
      strip_prefix-served m.prefix r.path r.query p stripped,
      λ pair same. basic_auth-exact pair.0 pair.1 r.credentials (
          subst (λ (a : Option (List ℕ × List ℕ)). authorized a r.credentials ≡ true) same allowed),
      headers.0,
      headers.1,
    )

-- ===== src/Admin/Middleware/Examples.antt =====
-- A page of the default mount behind credentials.
use novaque.Prelude.{ℕ, ◌≡◌, refl, false, some, List, [], ◌∷◌, ◌++◌}
use novaque.Prelude.Text.{codes}
use novaque.Admin.Prefix.{basic_auth, strip_prefix}
use novaque.Admin.Middleware.{
  Header, Mount, Request, gate, routed, is_static_path, security_headers,
}
use novaque.Admin.Middleware.Guards.{header, gate-guards}

abbrev guarded : Mount
guarded = record { prefix = codes "/admin"; auth = some (codes "ops", codes "pw") }

abbrev asked : Request
asked = record {
  path = codes "/admin/topics/7";
  query = [];
  credentials = some (codes "ops", codes "pw");
}

abbrev page_headers : List Header
page_headers =
    ("X-Content-Type-Options", "nosniff")
    ∷ ("Cache-Control", "no-store")
    ∷ ("X-Frame-Options", "DENY")
    ∷ ("Referrer-Policy", "same-origin")
    ∷ []

asked_routed : gate guarded asked ≡ routed (codes "/topics/7") page_headers
unfolding gate strip_prefix basic_auth security_headers is_static_path
asked_routed = refl

gate-guards_example :
    (codes "/admin/topics/7" ≡ codes "/admin" ++ codes "/topics/7")
    × ((pair : List ℕ × List ℕ) → guarded.auth ≡ some pair → asked.credentials ≡ some pair)
    × (header "X-Content-Type-Options" page_headers ≡ some "nosniff")
    × (is_static_path (codes "/topics/7") ≡ false
        → header "Cache-Control" page_headers ≡ some "no-store")
gate-guards_example = gate-guards guarded asked (codes "/topics/7") page_headers asked_routed

-- ===== src/Admin/Middleware.antt =====
-- admin/middleware.go and the chain that New builds in admin/admin.go: the prefix comes off, then the
-- credentials are tested, then the headers are set, and the router serves. http.CrossOriginProtection,
-- which stands between the credentials and the headers, lets requests that change nothing pass.
pub mod Guards
mod Examples
use novaque.Prelude.{
  ℕ, String, Bool, true, false, ◌&&◌, ◌||◌, not, Option, none, some, List, [], ◌∷◌, ◌++◌, ◌==◌,
  str_eq, if◌then◌else◌,
}
use novaque.Prelude.Lists.{is_empty, list_eq, is_prefix}
use novaque.Prelude.Text.{codes}
use novaque.Admin.Prefix.{
  normalize_prefix, Stripped, served, moved, absent, strip_prefix, basic_auth,
}

abbrev pub Header : Type 0
Header = String × String

-- path.Ext: from the last dot of the last segment on.
unfoldable pub ext_after : List ℕ → List ℕ → List ℕ
ext_after found [] = found
ext_after found (c ∷ cs) =
    if c == 47
    then ext_after [] cs
    else if c == 46
    then ext_after (46 ∷ []) cs
    else ext_after (if is_empty found then [] else found ++ c ∷ []) cs

abbrev pub static_mime : List ℕ → Option String
static_mime ext =
    if list_eq ext (codes ".js")
    then some "application/javascript; charset=utf-8"
    else if list_eq ext (codes ".css")
    then some "text/css; charset=utf-8"
    else none

unfoldable pub is_static_path : List ℕ → Bool
is_static_path p = list_eq p (codes "/static") || is_prefix (codes "/static/") p

abbrev content_type : Option String → List Header
content_type none = []
content_type (some t) = ("Content-Type", t) ∷ []

-- The headers of a response, and whether the request goes on to the router.
unfoldable pub security_headers : List ℕ → List Header × Bool
unfolding is_static_path ext_after
security_headers p =
    if is_static_path p
    then (
      ("X-Content-Type-Options", "nosniff")
          ∷ ("Cache-Control", "public, max-age=3600")
          ∷ (if list_eq p (codes "/static/")
              then []
              else content_type (static_mime (ext_after [] p))),
      not (list_eq p (codes "/static/")),
    )
    else if is_prefix (codes "/api/") p
    then (("X-Content-Type-Options", "nosniff") ∷ ("Cache-Control", "no-store") ∷ [], true)
    else (
      ("X-Content-Type-Options", "nosniff")
          ∷ ("Cache-Control", "no-store")
          ∷ ("X-Frame-Options", "DENY")
          ∷ ("Referrer-Policy", "same-origin")
          ∷ [],
      true,
    )

-- The options of New, and what it makes of them.
pub record MountOptions : Type 0 where
  pub prefix : List ℕ
  pub basic_auth_user : List ℕ
  pub basic_auth_pass : List ℕ

pub record Mount : Type 0 where
  pub prefix : List ℕ
  pub auth : Option (List ℕ × List ℕ)

abbrev default_prefix : List ℕ
default_prefix = codes "/admin"

-- A pair of which one half is missing is an error, which is `none`.
unfoldable pub mount : MountOptions → Option Mount
unfolding normalize_prefix
mount o =
    let prefix = normalize_prefix (if is_empty o.prefix then default_prefix else o.prefix) in
    if is_empty o.basic_auth_user
    then (if is_empty o.basic_auth_pass
        then some (record { prefix = prefix; auth = none })
        else none)
    else if is_empty o.basic_auth_pass
    then none
    else some (record { prefix = prefix; auth = some (o.basic_auth_user, o.basic_auth_pass) })

pub record Request : Type 0 where
  pub path : List ℕ
  pub query : List ℕ
  pub credentials : Option (List ℕ × List ℕ)

-- Where a request ends: a redirect to the root of the mount, 404, 401, or the router with a path and
-- headers. The static root ends in 404 after its headers.
pub data Gate : Type 0 where
  redirected : List ℕ → Gate
  unknown : Gate
  unauthorized : Gate
  unlisted : List Header → Gate
  routed : List ℕ → List Header → Gate

abbrev pub authorized : Option (List ℕ × List ℕ) → Option (List ℕ × List ℕ) → Bool
authorized none credentials = true
authorized (some (user, pass)) credentials = basic_auth user pass credentials

abbrev pub inner_chain : List ℕ → Gate
inner_chain p =
    let (headers, goes_on) = security_headers p in
    if goes_on then routed p headers else unlisted headers

abbrev pub after_strip : Option (List ℕ × List ℕ) → Option (List ℕ × List ℕ) → Stripped → Gate
after_strip auth credentials (moved location) = redirected location
after_strip auth credentials absent = unknown
after_strip auth credentials (served p) =
    if authorized auth credentials then inner_chain p else unauthorized

unfoldable pub gate : Mount → Request → Gate
gate m r = after_strip m.auth r.credentials (strip_prefix m.prefix r.path r.query)

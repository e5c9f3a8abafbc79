-- ===== src/Admin/Links.antt =====
-- The URLs that the pages and redirects carry lead back to the handlers that they mean.
mod Examples
use novaque.Prelude.{
  ℕ, zero, suc, ◌<◌, ◌/◌, ◌^◌, ◌≡◌, refl, sym, ap, ◌∙◌, inl, inr, Bool, true, false, ◌||◌, not,
  Option, some, List, [], ◌∷◌, ◌++◌, map, ◌==◌, arith, ltb, if◌then◌else◌,
}
use novaque.Prelude.Int.{pos}
use novaque.Prelude.Lists.{All, length, drop, is_empty, list_eq, is_prefix}
use novaque.Prelude.Text.{codes}
use novaque.Prelude.Decimal.{is_digit, decimal}
use novaque.Prelude.Decimal.Reading.{IsDigits, decimal-IsDigits, parse_int-decimal}
use novaque.Admin.Prefix.{
  slash, Part, text, number, parts_text, path, Stripped, served, strip_prefix, loc_has_prefix,
  write_header, path_id,
}
use novaque.Admin.Routes.{
  Handler, get, page_topic, page_channel, page_dead, page_dead_delivery, split_path, push,
  find_route, route,
}

drop_front : (p t : List ℕ) → drop (length p) (p ++ t) ≡ t
drop_front [] t = refl
drop_front (c ∷ p) t = drop_front p t

longer : (p t : List ℕ) (c : ℕ) → list_eq (p ++ c ∷ t) p ≡ false
longer [] t c = refl
longer (d ∷ p) t c = ground (arith, longer p t c)

within : (p t : List ℕ) (c : ℕ) → is_prefix (p ++ c ∷ []) (p ++ c ∷ t) ≡ true
within [] t c = ground arith
within (d ∷ p) t c = ground (arith, within p t c)

-- What the prefix goes on comes off again.
strip_prefix-path :
    (prefix t query : List ℕ) → strip_prefix prefix (prefix ++ 47 ∷ t) query ≡ served (47 ∷ t)
unfolding strip_prefix
strip_prefix-path [] t query = refl
strip_prefix-path (c ∷ p) t query =
    rw (longer (c ∷ p) t 47, within (c ∷ p) t 47, drop_front p (47 ∷ t)) refl

digit_no_slash : (c : ℕ) → is_digit c ≡ true → (c == 47) ≡ false
digit_no_slash c h = ground arith

split_path-digits : (ds : List ℕ) → IsDigits ds → split_path (ds ++ []) ≡ ds ∷ []
unfolding split_path
split_path-digits [] d = refl
split_path-digits (c ∷ cs) d = rw (digit_no_slash c d.0, split_path-digits cs d.1) refl

split_path-segment : (ds t : List ℕ) → IsDigits ds → split_path (ds ++ 47 ∷ t) ≡ ds ∷ split_path t
unfolding split_path
split_path-segment [] t d = refl
split_path-segment (c ∷ cs) t d = rw (digit_no_slash c d.0, split_path-segment cs t d.1) refl

-- The URLs of entities: h.path("/topics/", id) and its like.
pub data Link : Type 0 where
  to_topic to_channel to_dead : ℕ → Link
  to_dead_delivery : ℕ → ℕ → Link

pub link_parts : Link → List Part
link_parts (to_topic i) = text (codes "/topics/") ∷ number i ∷ []
link_parts (to_channel i) = text (codes "/channels/") ∷ number i ∷ []
link_parts (to_dead i) = text (codes "/channels/") ∷ number i ∷ text (codes "/dead") ∷ []
link_parts (to_dead_delivery i j) =
    text (codes "/channels/") ∷ number i ∷ text (codes "/dead/") ∷ number j ∷ []

abbrev pub link_handler : Link → Handler
link_handler (to_topic i) = page_topic
link_handler (to_channel i) = page_channel
link_handler (to_dead i) = page_dead
link_handler (to_dead_delivery i j) = page_dead_delivery

abbrev pub link_ids : Link → List ℕ
link_ids (to_topic i) = i ∷ []
link_ids (to_channel i) = i ∷ []
link_ids (to_dead i) = i ∷ []
link_ids (to_dead_delivery i j) = i ∷ j ∷ []

-- An id of the database.
abbrev pub IsId : ℕ → Type 0
IsId i = (0 < i) × (i < 2 ^ 63)

path_id-decimal : (i : ℕ) → IsId i → path_id (decimal i) ≡ some i
unfolding path_id
path_id-decimal i h =
    let nonzero : (i == 0) ≡ false = ground arith in rw (parse_int-decimal i h.1, nonzero) refl

route-link :
    (l : Link)
    → route get (parts_text (link_parts l)) ≡ some (link_handler l, map decimal (link_ids l))
unfolding link_parts parts_text route split_path find_route
route-link (to_topic i) =
    let d = decimal-IsDigits i in rw (split_path-digits (decimal i) d.0, d.1) refl
route-link (to_channel i) =
    let d = decimal-IsDigits i in rw (split_path-digits (decimal i) d.0, d.1) refl
route-link (to_dead i) =
    let d = decimal-IsDigits i in rw (split_path-segment (decimal i) (codes "dead") d.0, d.1) refl
route-link (to_dead_delivery i j) =
    let d = decimal-IsDigits i in
    let e = decimal-IsDigits j in
    rw
      (
        split_path-segment (decimal i) (codes "dead/" ++ decimal j ++ []) d.0,
        split_path-digits (decimal j) e.0,
        d.1,
        e.1,
      )
      refl

ids-decimal : (is : List ℕ) → All IsId is → map path_id (map decimal is) ≡ map some is
ids-decimal [] h = refl
ids-decimal (i ∷ is) h = rw (path_id-decimal i h.0, ids-decimal is h.1) refl

link_path :
    (prefix query : List ℕ) (l : Link)
    → strip_prefix prefix (path prefix (link_parts l)) query ≡ served (parts_text (link_parts l))
unfolding path link_parts parts_text
link_path prefix query (to_topic i) = strip_prefix-path prefix _ query
link_path prefix query (to_channel i) = strip_prefix-path prefix _ query
link_path prefix query (to_dead i) = strip_prefix-path prefix _ query
link_path prefix query (to_dead_delivery i j) = strip_prefix-path prefix _ query

-- A URL that the pages write for a topic, a channel, its dead letters or one of them comes back to its
-- own page, under any prefix and with any query: the prefix comes off, the router finds the page's
-- handler, and the path values parse to the ids that were written, if these are positive and below
-- 2 ^ 63.
pub link-lands :
    (prefix query : List ℕ) (l : Link)
    → All IsId (link_ids l)
    → (strip_prefix prefix (path prefix (link_parts l)) query ≡ served (parts_text (link_parts l)))
      × (route get (parts_text (link_parts l)) ≡ some (link_handler l, map decimal (link_ids l)))
      × (map path_id (map decimal (link_ids l)) ≡ map some (link_ids l))
link-lands prefix query l ids =
    (link_path prefix query l, route-link l, ids-decimal (link_ids l) ids)

-- A redirect to a path that does not begin with the mount prefix gets the prefix from the redirect
-- writer, and is served as that path when it is followed.
pub write_header-lands :
    (prefix t query : List ℕ) (code : ℕ)
    → (code / 100 == 3) ≡ true
    → loc_has_prefix (47 ∷ t) prefix ≡ false
    → strip_prefix prefix (write_header prefix code (47 ∷ t)) query ≡ served (47 ∷ t)
unfolding write_header
write_header-lands prefix t query code redirect bare =
    rw (redirect, bare) (strip_prefix-path prefix t query)

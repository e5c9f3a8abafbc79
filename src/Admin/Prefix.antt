-- ===== src/Admin/Prefix.antt =====
-- admin/admin.go: the mount prefix, which comes off at the edge and goes back on every URL. Paths are
-- lists of characters; 47 is the slash and 63 the question mark.
use novaque.Prelude.{
  ℕ, ◌/◌, Bool, false, ◌&&◌, ◌||◌, not, Option, none, some, List, [], ◌∷◌, ◌++◌, ◌==◌,
  if◌then◌else◌,
}
use novaque.Prelude.Int.{ℤ, pos, negsuc}
use novaque.Prelude.Lists.{length, drop, is_empty, list_eq, is_prefix}
use novaque.Prelude.Decimal.{parse_int, decimal}

abbrev pub slash : List ℕ
slash = 47 ∷ []

-- strings.TrimSuffix until no slash is at the end.
unfoldable pub trim_tail : List ℕ → List ℕ
trim_tail [] = []
trim_tail (c ∷ cs) = let rest = trim_tail cs in if c == 47 && is_empty rest then [] else c ∷ rest

-- The loop leaves the first character.
abbrev pub trim_slashes : List ℕ → List ℕ
trim_slashes [] = []
trim_slashes (c ∷ cs) = c ∷ trim_tail cs

abbrev pub lead_slash : List ℕ → List ℕ
lead_slash p = if is_prefix slash p then p else 47 ∷ p

abbrev pub root_as_empty : List ℕ → List ℕ
root_as_empty p = if list_eq p slash then [] else p

unfoldable pub normalize_prefix : List ℕ → List ℕ
unfolding trim_tail
normalize_prefix p = if is_empty p then [] else root_as_empty (trim_slashes (lead_slash p))

-- A segment of a URL: a text or a number.
pub data Part : Type 0 where
  text : List ℕ → Part
  number : ℕ → Part

abbrev pub part_text : Part → List ℕ
part_text (text t) = t
part_text (number n) = decimal n

unfoldable pub parts_text : List Part → List ℕ
parts_text [] = []
parts_text (p ∷ ps) = part_text p ++ parts_text ps

unfoldable pub path : List ℕ → List Part → List ℕ
unfolding parts_text
path prefix parts = prefix ++ parts_text parts

-- What becomes of a request: it is served under a path, moved to a location, or not found.
pub data Stripped : Type 0 where
  served : List ℕ → Stripped
  moved : List ℕ → Stripped
  absent : Stripped

abbrev with_query : List ℕ → List ℕ
with_query q = if is_empty q then [] else 63 ∷ q

unfoldable pub strip_prefix : List ℕ → List ℕ → List ℕ → Stripped
strip_prefix prefix url_path raw_query =
    if is_empty prefix
    then served url_path
    else if list_eq url_path prefix
    then moved ((prefix ++ slash) ++ with_query raw_query)
    else if is_prefix (prefix ++ slash) url_path
    then served (drop (length prefix) url_path)
    else absent

unfoldable pub loc_has_prefix : List ℕ → List ℕ → Bool
loc_has_prefix loc prefix = list_eq loc prefix || is_prefix (prefix ++ slash) loc

-- The Location header as the redirect writer leaves it.
unfoldable pub write_header : List ℕ → ℕ → List ℕ → List ℕ
unfolding loc_has_prefix
write_header prefix code loc =
    if code / 100 == 3 && (is_prefix slash loc && not (loc_has_prefix loc prefix))
    then prefix ++ loc
    else loc

-- A mount at the root writes no prefix.
abbrev pub preserve_prefix : List ℕ → ℕ → List ℕ → List ℕ
preserve_prefix prefix code loc = if is_empty prefix then loc else write_header prefix code loc

-- The credentials that a request carries, if it carries any, against the pair of the options.
unfoldable pub basic_auth : List ℕ → List ℕ → Option (List ℕ × List ℕ) → Bool
basic_auth user pass none = false
basic_auth user pass (some (u, p)) = list_eq u user && list_eq p pass

abbrev positive_id : Option ℤ → Option ℕ
positive_id none = none
positive_id (some (pos i)) = if i == 0 then none else some i
positive_id (some (negsuc i)) = none

-- A positive number in a path.
unfoldable pub path_id : List ℕ → Option ℕ
unfolding parse_int
path_id s = positive_id (parse_int s)

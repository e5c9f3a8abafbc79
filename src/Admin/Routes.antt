-- ===== src/Admin/Routes.antt =====
-- admin/admin.go, routes: the patterns of the router, on paths from which the prefix is off. The router is
-- http.ServeMux; no two patterns of a method match one path, so the first match is the only one.
use novaque.Prelude.{
  ℕ, String, Bool, true, false, Option, none, some, List, [], ◌∷◌, ◌==◌, if◌then◌else◌,
}
use novaque.Prelude.Lists.{is_empty, list_eq}
use novaque.Prelude.Text.{codes}

-- A literal segment, a named one, which is not empty, or anything from here on.
pub data Segment : Type 0 where
  lit : String → Segment
  wild : Segment
  rest : Segment

pub data Method : Type 0 where
  get post : Method

abbrev pub method_eq : Method → Method → Bool
method_eq get get = true
method_eq post post = true
method_eq get post = false
method_eq post get = false

pub data Handler : Type 0 where
  page_dashboard page_topic page_channel page_confirm_delete_topic page_confirm_delete_channel :
      Handler
  page_dead page_dead_delivery api_dead_list api_dead_delivery : Handler
  form_requeue_dead form_delete_dead form_create_topic form_create_channel : Handler
  form_delete_topic form_delete_channel api_summary api_topic api_channel static_files : Handler

pub record RouteRow : Type 0 where
  pub method : Method
  pub pattern : List Segment
  pub handler : Handler

abbrev row : Method → List Segment → Handler → RouteRow
row m p h = record { method = m; pattern = p; handler = h }

abbrev pub routes : List RouteRow
routes =
    row get (lit "" ∷ []) page_dashboard
    ∷ row get (lit "topics" ∷ wild ∷ []) page_topic
    ∷ row get (lit "channels" ∷ wild ∷ []) page_channel
    ∷ row get (lit "topics" ∷ wild ∷ lit "delete" ∷ []) page_confirm_delete_topic
    ∷ row get (lit "channels" ∷ wild ∷ lit "delete" ∷ []) page_confirm_delete_channel
    ∷ row get (lit "channels" ∷ wild ∷ lit "dead" ∷ []) page_dead
    ∷ row get (lit "channels" ∷ wild ∷ lit "dead" ∷ wild ∷ []) page_dead_delivery
    ∷ row get (lit "api" ∷ lit "channels" ∷ wild ∷ lit "dead" ∷ []) api_dead_list
    ∷ row get (lit "api" ∷ lit "channels" ∷ wild ∷ lit "dead" ∷ wild ∷ []) api_dead_delivery
    ∷ row post (lit "channels" ∷ wild ∷ lit "dead" ∷ wild ∷ lit "requeue" ∷ []) form_requeue_dead
    ∷ row post (lit "channels" ∷ wild ∷ lit "dead" ∷ wild ∷ lit "delete" ∷ []) form_delete_dead
    ∷ row post (lit "topics" ∷ []) form_create_topic
    ∷ row post (lit "channels" ∷ []) form_create_channel
    ∷ row post (lit "topics" ∷ wild ∷ lit "delete" ∷ []) form_delete_topic
    ∷ row post (lit "channels" ∷ wild ∷ lit "delete" ∷ []) form_delete_channel
    ∷ row get (lit "api" ∷ lit "summary" ∷ []) api_summary
    ∷ row get (lit "api" ∷ lit "topics" ∷ wild ∷ []) api_topic
    ∷ row get (lit "api" ∷ lit "channels" ∷ wild ∷ []) api_channel
    ∷ row get (lit "static" ∷ rest ∷ []) static_files
    ∷ []

-- A character in front of the first segment.
abbrev pub push : ℕ → List (List ℕ) → List (List ℕ)
push c [] = (c ∷ []) ∷ []
push c (s ∷ ss) = (c ∷ s) ∷ ss

-- The segments between slashes.
unfoldable pub split_path : List ℕ → List (List ℕ)
split_path [] = [] ∷ []
split_path (c ∷ cs) = if c == 47 then [] ∷ split_path cs else push c (split_path cs)

abbrev pub also : List ℕ → Option (List (List ℕ)) → Option (List (List ℕ))
also v none = none
also v (some vs) = some (v ∷ vs)

-- The values of the named segments, if the pattern matches.
abbrev pub match_pattern : List Segment → List (List ℕ) → Option (List (List ℕ))
match_pattern [] [] = some []
match_pattern [] (s ∷ ss) = none
match_pattern (lit t ∷ ps) [] = none
match_pattern (lit t ∷ ps) (s ∷ ss) = if list_eq (codes t) s then match_pattern ps ss else none
match_pattern (wild ∷ ps) [] = none
match_pattern (wild ∷ ps) (s ∷ ss) = if is_empty s then none else also s (match_pattern ps ss)
match_pattern (rest ∷ ps) [] = none
match_pattern (rest ∷ ps) (s ∷ ss) = some []

abbrev or_next :
    Handler
    → Option (List (List ℕ))
    → Option (Handler × List (List ℕ))
    → Option (Handler × List (List ℕ))
or_next h none next = next
or_next h (some vs) next = some (h, vs)

unfoldable pub find_route :
    Method → List (List ℕ) → List RouteRow → Option (Handler × List (List ℕ))
find_route m segments [] = none
find_route m segments (r ∷ rs) =
    let next = find_route m segments rs in
    if method_eq m r.method then or_next r.handler (match_pattern r.pattern segments) next else next

-- A path starts with a slash.
abbrev pub route_segments : Method → List (List ℕ) → Option (Handler × List (List ℕ))
route_segments m [] = none
route_segments m (s ∷ segments) = if is_empty s then find_route m segments routes else none

unfoldable pub route : Method → List ℕ → Option (Handler × List (List ℕ))
unfolding split_path find_route
route m path = route_segments m (split_path path)

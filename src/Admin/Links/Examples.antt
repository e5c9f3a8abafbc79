-- ===== src/Admin/Links/Examples.antt =====
-- A dead letter's page under the default mount.
use novaque.Prelude.{◌≡◌, refl, some, [], ◌∷◌, map, arith}
use novaque.Prelude.Text.{codes}
use novaque.Prelude.Decimal.{decimal}
use novaque.Admin.Prefix.{
  parts_text, path, served, strip_prefix, loc_has_prefix, write_header, path_id,
}
use novaque.Admin.Routes.{get, page_dead_delivery, route}
use novaque.Admin.Links.{Link, to_dead_delivery, link_parts, link-lands, write_header-lands}

abbrev letter : Link
letter = to_dead_delivery 7 120

link-lands_example :
    (strip_prefix (codes "/admin") (path (codes "/admin") (link_parts letter)) []
      ≡ served (parts_text (link_parts letter)))
    × (route get (parts_text (link_parts letter))
        ≡ some (page_dead_delivery, map decimal (7 ∷ 120 ∷ [])))
    × (map path_id (map decimal (7 ∷ 120 ∷ [])) ≡ map some (7 ∷ 120 ∷ []))
link-lands_example =
    link-lands (codes "/admin") [] letter
      ((omega arith, omega arith), ((omega arith, omega arith), tt))

write_header-lands_example :
    strip_prefix (codes "/admin") (write_header (codes "/admin") 301 (codes "/topics")) []
    ≡ served (codes "/topics")
unfolding loc_has_prefix
write_header-lands_example = write_header-lands (codes "/admin") (codes "topics") [] 301 refl refl

-- ===== src/Session/Shell/Routes.antt =====
-- fs_ui/src/App.tsx: the sidebar's items against the routes.
use cuttlefish.Common.{
  All-filter, ap, ◌∙◌, Bool, String, List, [], ◌∷◌, Option, none, some, str_eq, All, ◌≡◌, refl,
}
use cuttlefish.Types.{Me, Role, admin, viewer, restricted}
use cuttlefish.Session.{NavItem, nav_items, nav_visible, active_nav, all_nav_items}
use cuttlefish.Session.Shell.{
  Target, browser_page, users_page, search_page, history_page, admin_page, splash_page, to_browser,
  Route, routes, page_at, target_of,
}

abbrev pub route_paths : List String
route_paths = "/" ∷ "/browser" ∷ "/users" ∷ "/search" ∷ "/history" ∷ "/admin" ∷ []

-- A location that is spelled as a route's path is matched by that route and by no other.
abbrev pub IsExact : (String → String → Bool) → Type 0
IsExact matches = All (λ q. All (λ p. matches p q ≡ str_eq p q) route_paths) route_paths

-- Each page's identifier in the sidebar.
abbrev pub page_id : Target → Option String
page_id browser_page = some "browser"
page_id users_page = some "users"
page_id search_page = some "search"
page_id history_page = some "history"
page_id admin_page = some "admin"
page_id splash_page = none
page_id to_browser = none

abbrev pub Leads : (String → String → Bool) → Me → NavItem → Type 0
Leads matches me item =
    (page_id (page_at matches me item.path) ≡ some item.id) × (active_nav me item.path ≡ some item)

-- On the routes, such a match is the comparison of the texts.
target_of-exact :
    (matches : String → String → Bool) (q : String) (rs : List Route)
    → All (λ (r : Route). matches r.path q ≡ str_eq r.path q) rs
    → target_of matches rs q ≡ target_of str_eq rs q
unfolding target_of
target_of-exact matches q [] h = refl
target_of-exact matches q (r ∷ rs) h = rw (h.0, target_of-exact matches q rs h.1) refl

page_at-exact :
    (matches : String → String → Bool) (me : Me) (q : String)
    → All (λ p. matches p q ≡ str_eq p q) route_paths
    → page_at matches me q ≡ page_at str_eq me q
unfolding page_at routes
page_at-exact matches me q h = target_of-exact matches q (routes me) h

by_role : (me : Me) (r : Role) → me.role ≡ r → All (Leads str_eq me) (nav_items me)
unfolding nav_items nav_visible active_nav page_at target_of routes
by_role me admin e =
    rw e
      ((refl, refl), ((refl, refl), ((refl, refl), ((refl, refl), ((rw e refl, rw e refl), tt)))))
by_role me viewer e = rw e ((refl, refl), ((refl, refl), ((refl, refl), ((refl, refl), tt))))
by_role me restricted e = rw e ((refl, refl), ((refl, refl), ((refl, refl), ((refl, refl), tt))))

lead :
    (matches : String → String → Bool) (me : Me) (items : List NavItem)
    → All (λ (i : NavItem). All (λ p. matches p i.path ≡ str_eq p i.path) route_paths) items
    → All (Leads str_eq me) items
    → All (Leads matches me) items
lead matches me [] h l = tt
lead matches me (i ∷ items) h l = (
  (ap page_id (page_at-exact matches me i.path h.0) ∙ l.0.0, l.0.1),
  lead matches me items h.1 l.1,
)

-- Every item of the sidebar leads to its page: for any user, if the router matches a route's path
-- with a location that is spelled so and with no other route's, then at the path of each item that
-- the user's sidebar has, the page of the item's name is shown, not the splash page or a redirect,
-- and that item is the active one.
pub nav_items-lead :
    (matches : String → String → Bool) (me : Me)
    → IsExact matches
    → All (Leads matches me) (nav_items me)
unfolding nav_items
nav_items-lead matches me h =
    lead matches me (nav_items me)
      (All-filter _ (λ (i : NavItem). nav_visible i.id me) all_nav_items h.1)
      (by_role me me.role refl)

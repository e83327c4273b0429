-- ===== src/Session/Tests.antt =====
-- The session at concrete inputs, and the theorems there.
use cuttlefish.Common.{ℕ, true, false, List, [], ◌∷◌, Option, none, some, ◌≡◌, refl, arith, map}
use cuttlefish.Types.{Me, viewer}
use cuttlefish.Session.{Themed, light, missing, nav_items, NavItem}
use cuttlefish.Session.Login.{Attempt, Mode, hops, last_hop}
use cuttlefish.Session.Cooldown.{ApartFrom, hops-ApartFrom}

abbrev opened : Themed
opened = record { mode = light; attribute = some light; storage = missing }

abbrev attempt : ℕ → Attempt
attempt t = record { no_auto_redirect = false; tested = t; noted = t }

abbrev attempts : List Attempt
attempts = attempt 100000 ∷ attempt 129999 ∷ attempt 130000 ∷ []

abbrev oidc : Option Mode
oidc = some (record { mode = "oidc"; auto_redirect = true })

bounced : hops attempts oidc (last_hop none) ≡ attempt 100000 ∷ attempt 130000 ∷ []
unfolding hops
bounced = refl

hops-ApartFrom_example : ApartFrom none (hops attempts oidc (last_hop none))
hops-ApartFrom_example =
    hops-ApartFrom attempts oidc none (omega arith, (omega arith, (omega arith, tt))) tt

abbrev a_viewer : Me
a_viewer = record { user = "v"; role = viewer; prefixes = []; unix_user = none }

no_admin_page :
    map (λ (i : NavItem). i.id) (nav_items a_viewer)
    ≡ "browser" ∷ "users" ∷ "search" ∷ "history" ∷ []
unfolding nav_items
no_admin_page = refl

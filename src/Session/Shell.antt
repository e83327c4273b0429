-- ===== src/Session/Shell.antt =====
-- fs_ui/src/App.tsx: the screen that the application shows, the sign-out, and the scans it polls for.
-- How a route's path is matched with the location is a parameter.
pub mod Routes
pub mod SignOut
mod Tests
use cuttlefish.Common.{
  ℕ, suc, ◌*◌, ◌/◌, ◌-◌, Bool, true, false, String, List, [], ◌∷◌, Option, none, some, map,
  get_elem?, remove_at, if◌then◌else◌,
}
use cuttlefish.Common.Int.{ℤ, pos, negsuc, ◌-ℤ◌}
use cuttlefish.Common.Text.{◌<>◌, show}
use cuttlefish.Types.{Me, ScanSession}
use cuttlefish.Api.{Outcome}
use cuttlefish.Session.{
  AuthState, checking, authenticated, unauthenticated, Answer, unknown, signed_out, signed_in,
  auth_state, MeReply, load_me, poll, is_admin, ThemeMode, light, dark, active_nav, NavItem,
}

-- The pages that a route shows; `to_browser` is the redirect to the file browser.
pub data Target : Type 0 where
  browser_page : Target
  users_page : Target
  search_page : Target
  history_page : Target
  admin_page : Target
  splash_page : Target
  to_browser : Target

pub record Route : Type 0 where
  pub path : String
  pub target : Target

abbrev pub route : String → Target → Route
route path target = record { path = path; target = target }

unfoldable pub routes : Me → List Route
routes me =
    route "/" to_browser
    ∷ route "/browser" browser_page
    ∷ route "/users" users_page
    ∷ route "/search" search_page
    ∷ route "/history" history_page
    ∷ route "/admin" (if is_admin me.role then admin_page else to_browser)
    ∷ []

-- The route that matches, and the splash page for any other location.
unfoldable pub target_of : (String → String → Bool) → List Route → String → Target
target_of matches [] pathname = splash_page
target_of matches (r ∷ rs) pathname =
    if matches r.path pathname then r.target else target_of matches rs pathname

unfoldable pub page_at : (String → String → Bool) → Me → String → Target
unfolding routes target_of
page_at matches me pathname = target_of matches (routes me) pathname

-- A request of the sidebar's poll, with the `cancelled` of its effect.
pub record Shell : Type 0 where
  pub me : Answer
  pub explicit_sign_out : Bool
  pub running_scan : Option ScanSession
  pub polls : List Bool

abbrev pub same_state : AuthState → AuthState → Bool
same_state checking checking = true
same_state authenticated authenticated = true
same_state unauthenticated unauthenticated = true
same_state _ _ = false

abbrev pub cancelled : Bool → Bool
cancelled b = true

abbrev pub next_poll : AuthState → List Bool → List Bool
next_poll authenticated polls = false ∷ polls
next_poll _ polls = polls

-- `setMe`, and the poll's effect, which runs again when `authState` is another.
unfoldable pub set_me : Answer → Shell → Shell
unfolding auth_state
set_me answer s =
    if same_state (auth_state s.me) (auth_state answer)
    then record s { me = answer }
    else record s { me = answer; polls = next_poll (auth_state answer) (map cancelled s.polls) }

unfoldable pub opened : Shell
opened = record { me = unknown; explicit_sign_out = false; running_scan = none; polls = [] }

-- `signed_out_ok`: the sign-out request was answered, with whatever status; `sign_out_failed`: it was
-- not. `tick`: the interval of the poll's effect.
pub data Event : Type 0 where
  me_reply : Outcome (Option MeReply) → Event
  unauthorized : Event
  signed_out_ok : Event
  sign_out_failed : Event
  tick : Event
  poll_reply : ℕ → Outcome (List ScanSession) → Event

abbrev pub polled : ℕ → Option Bool → Outcome (List ScanSession) → Shell → Shell
polled i none o s = s
polled i (some c) o s = record s {
  running_scan = poll c o s.running_scan;
  polls = remove_at i s.polls;
}

unfoldable pub step : Shell → Event → Shell
unfolding set_me load_me poll
step s (me_reply o) = set_me (load_me o) s
step s unauthorized = set_me signed_out s
step s signed_out_ok = set_me signed_out (record s { explicit_sign_out = true })
step s sign_out_failed = s
step s tick = record s { polls = next_poll (auth_state s.me) s.polls }
step s (poll_reply i o) = polled i (get_elem? s.polls i) o s

unfoldable pub run : Shell → List Event → Shell
unfolding step
run s [] = s
run s (e ∷ es) = run (step s e) es

-- What is drawn: nothing yet, the sign-in page, or a page, with the sidebar's active item if it has
-- one.
pub data Screen : Type 0 where
  blank : Screen
  login : Bool → Screen
  page : Option NavItem → Target → Screen

unfoldable pub screen : (String → String → Bool) → String → Shell → Screen
unfolding page_at active_nav
screen matches pathname s = elim s.me [
  | unknown ↦ blank
  | signed_out ↦ login s.explicit_sign_out
  | signed_in me ↦ page (active_nav me pathname) (page_at matches me pathname)
]

-- `Math.floor(ms / 60000)`
abbrev pub whole_minutes : ℤ → String
whole_minutes (pos ms) = show (ms / 60000)
whole_minutes (negsuc ms) = "-" <> show (suc (ms / 60000))

abbrev pub in_ms : ℤ → ℤ
in_ms (pos n) = pos (n * 1000)
in_ms (negsuc n) = negsuc (suc n * 1000 - 1)

-- `clock` is `toLocaleTimeString`, `now` is `Date.now()`.
unfoldable pub elapsed_label : (ℤ → String) → ℤ → Option ScanSession → String
elapsed_label clock now none = ""
elapsed_label clock now (some scan) =
    "Started "
    <> clock (in_ms scan.started_at)
    <> " · "
    <> whole_minutes (now -ℤ in_ms scan.started_at)
    <> "m elapsed"

unfoldable pub toggle_title : ThemeMode → String
toggle_title dark = "Switch to light theme"
toggle_title light = "Switch to dark theme"

unfoldable pub toggle_label : ThemeMode → String
toggle_label dark = "Light"
toggle_label light = "Dark"

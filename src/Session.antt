-- ===== src/Session.antt =====
-- fs_ui/src/App.tsx and fs_ui/src/theme.ts: who is signed in, the sidebar, and the theme.
pub mod Login
pub mod Cooldown
pub mod Themes
pub mod SignIn
pub mod Shell
mod Tests
use cuttlefish.Common.{
  ℕ, Bool, true, false, ◌&&◌, not, String, List, [], ◌∷◌, Option, none, some, map, filter, find?,
  str_eq, if◌then◌else◌,
}
use cuttlefish.Types.{
  Me, Role, admin, viewer, restricted, ScanSession, ScanStatus, running, success, failed,
}
use cuttlefish.Api.{Outcome, resolved, rejected}

pub data ThemeMode : Type 0 where
  light dark : ThemeMode

abbrev pub mode_name : ThemeMode → String
mode_name light = "light"
mode_name dark = "dark"

-- The browser's storage under one key: access throws, there is nothing, or there is a text.
pub data Kept : Type 0 where
  denied : Kept
  missing : Kept
  kept : String → Kept

abbrev pub system_theme_mode : Bool → ThemeMode
system_theme_mode prefers_dark = if prefers_dark then dark else light

unfoldable pub stored_theme_mode : Kept → Option ThemeMode
stored_theme_mode denied = none
stored_theme_mode missing = none
stored_theme_mode (kept raw) =
    if str_eq raw "light" then some light else if str_eq raw "dark" then some dark else none

unfoldable pub store_theme_mode : ThemeMode → Kept → Kept
store_theme_mode mode denied = denied
store_theme_mode mode missing = kept (mode_name mode)
store_theme_mode mode (kept raw) = kept (mode_name mode)

-- The mode in the component's state, the attribute of the document, and the storage.
pub record Themed : Type 0 where
  pub mode : ThemeMode
  pub attribute : Option ThemeMode
  pub storage : Kept

abbrev pub mode_or : Option ThemeMode → ThemeMode → ThemeMode
mode_or none m = m
mode_or (some m) d = m

-- The component's first state; index.html has set the attribute.
unfoldable pub open_theme : Kept → Bool → Option ThemeMode → Themed
unfolding stored_theme_mode
open_theme storage prefers_dark attribute = record {
  mode = mode_or (stored_theme_mode storage) (system_theme_mode prefers_dark);
  attribute = attribute;
  storage = storage;
}

abbrev pub other_mode : ThemeMode → ThemeMode
other_mode dark = light
other_mode light = dark

unfoldable pub toggle_theme : Themed → Themed
unfolding store_theme_mode
toggle_theme t = record {
  mode = other_mode t.mode;
  attribute = some (other_mode t.mode);
  storage = store_theme_mode (other_mode t.mode) t.storage;
}

-- The system's preference changes: it is followed while no mode is stored.
abbrev pub follow_system : Option ThemeMode → Bool → Themed → Themed
follow_system (some m) prefers_dark t = t
follow_system none prefers_dark t = record t {
  mode = system_theme_mode prefers_dark;
  attribute = some (system_theme_mode prefers_dark);
}

unfoldable pub system_change : Bool → Themed → Themed
unfolding stored_theme_mode
system_change prefers_dark t = follow_system (stored_theme_mode t.storage) prefers_dark t

pub data AuthState : Type 0 where
  checking authenticated unauthenticated : AuthState

-- What `GET /auth/me` gave: a response that is not ok or `null`, or a user, perhaps without prefixes.
pub record MeReply : Type 0 where
  pub user : String
  pub role : Role
  pub prefixes : Option (List String)
  pub unix_user : Option String

pub data Answer : Type 0 where
  unknown : Answer
  signed_out : Answer
  signed_in : Me → Answer

unfoldable pub auth_state : Answer → AuthState
auth_state unknown = checking
auth_state signed_out = unauthenticated
auth_state (signed_in me) = authenticated

abbrev pub or_no_prefix : Option (List String) → List String
or_no_prefix none = []
or_no_prefix (some l) = l

-- `loadMe`
unfoldable pub load_me : Outcome (Option MeReply) → Answer
load_me (resolved none) = signed_out
load_me (resolved (some m)) = signed_in (record {
  user = m.user;
  role = m.role;
  prefixes = or_no_prefix m.prefixes;
  unix_user = m.unix_user;
})
load_me (rejected e) = signed_out

abbrev pub is_running : ScanStatus → Bool
is_running running = true
is_running success = false
is_running failed = false

-- A reply of the sidebar's poll; `cancelled` when the effect has been cleaned up.
unfoldable pub poll : Bool → Outcome (List ScanSession) → Option ScanSession → Option ScanSession
poll true reply shown = shown
poll false (resolved sessions) shown = find? (λ (s : ScanSession). is_running s.status) sessions
poll false (rejected e) shown = shown

pub record NavItem : Type 0 where
  pub id : String
  pub path : String
  pub label : String

abbrev pub nav_item : String → String → String → NavItem
nav_item id path label = record { id = id; path = path; label = label }

abbrev pub all_nav_items : List NavItem
all_nav_items =
    nav_item "browser" "/browser" "File Browser"
    ∷ nav_item "users" "/users" "User & Group Usage"
    ∷ nav_item "search" "/search" "Advanced Search"
    ∷ nav_item "history" "/history" "Scan History"
    ∷ nav_item "admin" "/admin" "Admin"
    ∷ []

abbrev pub is_admin : Role → Bool
is_admin admin = true
is_admin viewer = false
is_admin restricted = false

unfoldable pub nav_visible : String → Me → Bool
nav_visible id me = if str_eq id "admin" then is_admin me.role else true

unfoldable pub nav_items : Me → List NavItem
unfolding nav_visible
nav_items me = filter (λ (item : NavItem). nav_visible item.id me) all_nav_items

unfoldable pub active_nav : Me → String → Option NavItem
unfolding nav_items
active_nav me pathname = find? (λ (item : NavItem). str_eq item.path pathname) (nav_items me)

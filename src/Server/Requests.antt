-- ===== src/Server/Requests.antt =====
-- fs_api/auth.go and fs_api/main.go: a search as it comes in, from the cookie to the query.
use cuttlefish.Common.{ℕ, Bool, true, false, String, List, Option, none, some}
use cuttlefish.Server.Access.{Access}
use cuttlefish.Server.Resolve.{AuthConfig, Tables, resolve_access}
use cuttlefish.Server.Query.{Go, SearchBody}
use cuttlefish.Server.Search.{Statement, Outcome, search_files}
use cuttlefish.Server.Search
use cuttlefish.Server.Sessions.{Mode, State, Event, Reply, served, refused, waiting, done, step}
pub mod Confined

abbrev is_local : Mode → Bool
is_local none = true
is_local (some config) = false

-- What the server runs with: the groups of the roles, the library functions, and the
-- database.
pub record Setting : Type 0 where
  pub admin_groups : List String
  pub viewer_groups : List String
  pub lower : String → String
  pub go : Go
  pub run : Statement → Outcome

abbrev pub auth_config : Mode → Setting → AuthConfig
auth_config mode c = record {
  is_local = is_local mode;
  admin_groups = c.admin_groups;
  viewer_groups = c.viewer_groups;
}

-- What comes with the request, besides its cookie.
pub record Request : Type 0 where
  pub method : String
  pub body : Option SearchBody

-- What a step of the look-up gives the request: no reply yet, the refusal, or the handler behind it.
abbrev pub with_access :
    Mode → Setting → Tables → (Access → Search.Reply) → Reply → Option Search.Reply
with_access mode c tables next (served h user groups since) =
    some (next (resolve_access c.lower (auth_config mode c) tables user groups))
with_access mode c tables next (refused h) = some (Search.refused 401 "unauthorized")
with_access mode c tables next waiting = none
with_access mode c tables next done = none

-- A step of a request: its look-up, its claim or the provider's answer to it.
unfoldable pub auth_middleware :
    Mode
    → Setting
    → Tables
    → (Access → Search.Reply)
    → ℕ
    → Event
    → State
    → State × Option Search.Reply
unfolding step resolve_access
auth_middleware mode c tables next now e st =
    let (st', reply) = step mode now e st in (st', with_access mode c tables next reply)

unfoldable pub search_request :
    Mode → Setting → Tables → Request → ℕ → Event → State → State × Option Search.Reply
unfolding auth_middleware search_files
search_request mode c tables r now e st =
    auth_middleware mode c tables (λ a. search_files c.go c.run a r.method r.body) now e st

-- ===== src/Server/Sessions/Vouched.antt =====
-- How old the groups may be with which a request is served, over all runs.
use cuttlefish.Common.{ℕ, Bool, not, String, List, some, str_eq}
use cuttlefish.Server.Claims.{OidcConfig}
use cuttlefish.Server.Sessions.{Sessions, Progress, looked_up, asked, State, issue, step}
use cuttlefish.Server.Sessions.Affirmed.{Origin}

-- The request is of another session.
abbrev pub another : String → Progress → Bool
another h (looked_up q) = not (str_eq q.hash h)
another h (asked a) = not (str_eq a.hash h)

-- A session begins, with a new token.
abbrev pub begun : OidcConfig → String → String → String → List String → ℕ → State → State
begun config h user token issued at st = (step (some config) at (issue h user issued token) st).0

abbrev pub origin : OidcConfig → String → String → String → List String → ℕ → State → Origin
origin config h user token issued at st = record {
  config = config;
  start = begun config h user token issued at st;
  hash = h;
  user = user;
  token = token;
  issued = issued;
  at = at;
}

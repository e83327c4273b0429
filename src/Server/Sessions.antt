-- ===== src/Server/Sessions.antt =====
-- fs_api/auth.go: the sessions. Times are in seconds, by one clock. A token is named by its hash. A
-- request goes on in steps, between which others go on: it looks its session up, it claims the re-check,
-- and, if it won the claim, it waits for the provider's answer. Each step has one statement of SQL.
use cuttlefish.Common.{
  ℕ, ◌+◌, Bool, true, false, not, String, List, [], ◌∷◌, Option, none, some, ltb, str_eq,
  if◌then◌else◌, map, ◌++◌, get_elem?, remove_at,
}
use cuttlefish.Server.Claims.{OidcConfig, Claims, Identity, identity_from_claims, identity_allowed}
pub mod Affirmed
pub mod Settled
pub mod Kept
pub mod Ended
pub mod Vouched

abbrev pub session_lifetime : ℕ
session_lifetime = 86400

-- A row of the table, less its key.
pub record Session : Type 0 where
  pub username : String
  pub groups : List String
  pub refresh_token : Option String
  pub checked_at : ℕ
  pub expires_at : ℕ

-- The table, by its primary key, which is the token's hash.
abbrev pub Sessions : Type 0
Sessions = String → Option Session

abbrev pub put : String → Option Session → Sessions → Sessions
put h r t other = if str_eq other h then r else t other

-- What the identity provider answers to a refresh token: the claims, and a new refresh token or "".
pub record Refreshed : Type 0 where
  pub claims : Claims
  pub refresh_token : String

-- `none` where sign-in is local.
abbrev pub Mode : Type 0
Mode = Option OidcConfig

abbrev pub lifetime : Mode → String → ℕ
lifetime none refresh_token = session_lifetime
lifetime (some config) refresh_token =
    if str_eq refresh_token "" then config.recheck_interval else session_lifetime

-- `NULLIF(s, '')`
abbrev pub null_if_empty : String → Option String
null_if_empty s = if str_eq s "" then none else some s

abbrev pub unexpired : ℕ → Option Session → Option Session
unexpired now none = none
unexpired now (some s) = if ltb s.expires_at now then none else some s

abbrev pub insert : String → Session → Option Session → Sessions → Sessions × Bool
insert h s none t = (put h (some s) t, true)
insert h s (some taken) t = (t, false)

-- The rows past their end go; the new row's key is new, or the insertion fails.
unfoldable pub issue_session :
    Mode → ℕ → String → String → List String → String → Sessions → Sessions × Bool
issue_session mode now h user groups refresh_token t =
    let kept : Sessions = λ g. unexpired now (t g) in
    let row : Session = record {
      username = user;
      groups = groups;
      refresh_token = null_if_empty refresh_token;
      checked_at = now;
      expires_at = now + lifetime mode refresh_token;
    } in
    insert h row (kept h) kept

-- A request that has read its session's row and not yet tried the claim; it came at `since`.
pub record LookedUp : Type 0 where
  pub hash : String
  pub username : String
  pub groups : List String
  pub since : ℕ

-- A request that has won the claim, and asks the provider with the token that the claim returned.
pub record Asked : Type 0 where
  pub hash : String
  pub username : String
  pub token : String
  pub since : ℕ

pub data Progress : Type 0 where
  looked_up : LookedUp → Progress
  asked : Asked → Progress

-- The table, and the requests under way.
pub record State : Type 0 where
  pub sessions : Sessions
  pub requests : List Progress

-- What a step gives the request: `served` with a user and groups; `waiting` is no reply yet, and `done`
-- that there is none to give.
pub data Reply : Type 0 where
  served : String → String → List String → ℕ → Reply
  refused : String → Reply
  waiting : Reply
  done : Reply

abbrev pub live : ℕ → Option Session → Option Session
live now none = none
live now (some s) = if ltb now s.expires_at then some s else none

abbrev pub found : Mode → ℕ → String → Option Session → State → State × Reply
found mode now h none st = (st, refused h)
found none now h (some s) st = (st, served h s.username s.groups now)
found (some config) now h (some s) st = (
  record st {
    requests =
        st.requests
        ++ looked_up (record { hash = h; username = s.username; groups = s.groups; since = now })
          ∷ [];
  },
  waiting,
)

-- A request with a cookie whose token has the hash `h`.
unfoldable pub load_session : Mode → ℕ → String → State → State × Reply
load_session mode now h st = found mode now h (live now (st.sessions h)) st

-- `UPDATE … RETURNING refresh_token`: no row was due, or the token of the row that was.
pub data Claim : Type 0 where
  not_due : Claim
  due : Option String → Claim

unfoldable pub claim_row : OidcConfig → ℕ → Option Session → Option Session × Claim
claim_row config now none = (none, not_due)
claim_row config now (some s) =
    if ltb (s.checked_at + config.recheck_interval) now
    then (some (record s { checked_at = now }), due s.refresh_token)
    else (some s, not_due)

abbrev pub as_read : LookedUp → Reply
as_read q = served q.hash q.username q.groups q.since

-- Those that lost the claim, or have no token, go on with what they read.
abbrev pub claimed : LookedUp → Claim → State → State × Reply
claimed q not_due st = (st, as_read q)
claimed q (due none) st = (st, as_read q)
claimed q (due (some token)) st = (
  record st {
    requests =
        st.requests
        ++ asked (record { hash = q.hash; username = q.username; token = token; since = q.since })
          ∷ [];
  },
  waiting,
)

abbrev pub claim_at : OidcConfig → ℕ → ℕ → Option Progress → State → State × Reply
claim_at config now i none st = (st, done)
claim_at config now i (some (asked a)) st = (st, done)
claim_at config now i (some (looked_up q)) st =
    let (row, c) = claim_row config now (st.sessions q.hash) in
    claimed q c
      (record st { sessions = put q.hash row st.sessions; requests = remove_at i st.requests })

-- The request at place i tries the claim.
unfoldable pub claim : Mode → ℕ → ℕ → State → State × Reply
unfolding claim_row
claim none now i st = (st, done)
claim (some config) now i st = claim_at config now i (get_elem? st.requests i) st

abbrev pub or_old : String → String → String
or_old new old = if str_eq new "" then old else new

-- What an answer is worth: the groups and the refresh token to keep, or `none` to revoke.
unfoldable pub verdict : OidcConfig → Asked → Option Refreshed → Option (List String × String)
unfolding identity_from_claims identity_allowed
verdict config a none = none
verdict config a (some r) =
    let i = identity_from_claims config r.claims in
    if not (str_eq i.user a.username)
    then none
    else if not (identity_allowed config i.user i.email)
    then none
    else some (i.groups, or_old r.refresh_token a.token)

abbrev pub renew : List String → String → Option Session → Option Session
renew groups token none = none
renew groups token (some s) = some (record s { groups = groups; refresh_token = some token })

abbrev pub settle : Asked → Option (List String × String) → State → State × Reply
settle a none st = (record st { sessions = put a.hash none st.sessions }, refused a.hash)
settle a (some (groups, token)) st = (
  record st { sessions = put a.hash (renew groups token (st.sessions a.hash)) st.sessions },
  served a.hash a.username groups a.since,
)

abbrev pub answer_at :
    OidcConfig → (String → Option Refreshed) → ℕ → Option Progress → State → State × Reply
answer_at config refresh i none st = (st, done)
answer_at config refresh i (some (looked_up q)) st = (st, done)
answer_at config refresh i (some (asked a)) st =
    settle a (verdict config a (refresh a.token)) (record st { requests = remove_at i st.requests })

-- The provider, which answers refresh tokens so, answers the request at place i.
unfoldable pub answer : Mode → (String → Option Refreshed) → ℕ → State → State × Reply
unfolding verdict
answer none refresh i st = (st, done)
answer (some config) refresh i st = answer_at config refresh i (get_elem? st.requests i) st

unfoldable pub logout : String → Sessions → Sessions
logout h t = put h none t

-- What happens; tokens are named by their hashes.
pub data Event : Type 0 where
  issue : String → String → List String → String → Event
  looks_up : String → Event
  claims : ℕ → Event
  answers : ℕ → (String → Option Refreshed) → Event
  log_out : String → Event

unfoldable pub step : Mode → ℕ → Event → State → State × Reply
unfolding issue_session load_session claim answer logout
step mode now (issue h user groups refresh_token) st = (
  record st { sessions = (issue_session mode now h user groups refresh_token st.sessions).0 },
  done,
)
step mode now (looks_up h) st = load_session mode now h st
step mode now (claims i) st = claim mode now i st
step mode now (answers i refresh) st = answer mode refresh i st
step mode now (log_out h) st = (record st { sessions = logout h st.sessions }, done)

-- Events with their times, in their order.
unfoldable pub run : Mode → List (ℕ × Event) → State → State
unfolding step
run mode [] st = st
run mode ((now, e) ∷ es) st = run mode es (step mode now e st).0

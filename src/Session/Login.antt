-- ===== src/Session/Login.antt =====
-- fs_ui/src/pages/LoginPage.tsx: the sign-in page and its automatic hop to the identity provider.
use cuttlefish.Common.{
  ℕ, zero, suc, ◌+◌, Bool, true, false, ◌&&◌, not, String, List, [], ◌∷◌, Option, none, some, ltb,
  str_eq, if◌then◌else◌,
}
use cuttlefish.Common.Text.{is_truthy}

-- `sessionStorage`, for the time of the last hop: access throws, or a time is kept or none.
pub data HopStorage : Type 0 where
  denied : HopStorage
  last_hop : Option ℕ → HopStorage

abbrev pub cooldown_ms : ℕ
cooldown_ms = 30000

-- A reply to `GET /auth/mode` as it lands: the flag of the render whose effect sent the request, which
-- nothing cancels, and `Date.now()` at the test and at the note of the hop.
pub record Attempt : Type 0 where
  pub no_auto_redirect : Bool
  pub tested : ℕ
  pub noted : ℕ

-- `last && Date.now() - last < AUTO_REDIRECT_COOLDOWN_MS`
abbrev pub too_soon : Option ℕ → ℕ → Bool
too_soon none now = false
too_soon (some zero) now = false
too_soon (some (suc last)) now = ltb now (suc last + cooldown_ms)

pub record Hop : Type 0 where
  pub left : Bool
  pub storage : HopStorage

unfoldable pub try_auto_redirect : Attempt → HopStorage → Hop
try_auto_redirect a denied = record { left = false; storage = denied }
try_auto_redirect a (last_hop last) =
    if too_soon last a.tested
    then record { left = false; storage = last_hop last }
    else record { left = true; storage = last_hop (some a.noted) }

-- What `GET /auth/mode` says.
pub record Mode : Type 0 where
  pub mode : String
  pub auto_redirect : Bool

-- The page after the reply: the mode that it shows, `none` for "Loading...".
pub record Shown : Type 0 where
  pub mode : Option String
  pub left : Bool
  pub storage : HopStorage

abbrev pub stay_or_leave : Option String → Hop → Shown
stay_or_leave mode h = record {
  mode = if h.left then none else mode;
  left = h.left;
  storage = h.storage;
}

unfoldable pub mode_reply : Attempt → HopStorage → Option Mode → Shown
unfolding try_auto_redirect
mode_reply a storage none = record { mode = some "local"; left = false; storage = storage }
mode_reply a storage (some d) =
    if str_eq d.mode "oidc" && d.auto_redirect && not a.no_auto_redirect
    then stay_or_leave (some d.mode) (try_auto_redirect a storage)
    else record { mode = some d.mode; left = false; storage = storage }

-- The replies that land in a tab in turn: the attempts that left for the provider.
unfoldable pub hops : List Attempt → Option Mode → HopStorage → List Attempt
unfolding mode_reply
hops [] d storage = []
hops (a ∷ attempts) d storage =
    let shown = mode_reply a storage d in
    let rest = hops attempts d shown.storage in if shown.left then a ∷ rest else rest

-- The form for a local sign-in.
pub record Form : Type 0 where
  pub error : String
  pub loading : Bool
  pub logins : ℕ

-- What the sign-in request gave: it failed, or its body is no JSON; it was accepted; or refused, with
-- the body's `error`.
pub data LoginReply : Type 0 where
  failed : LoginReply
  accepted : LoginReply
  refused : Option String → LoginReply

unfoldable pub submit : Form → Form
submit f = record f { error = ""; loading = true }

abbrev pub refusal : Option String → String
refusal none = "Login failed"
refusal (some m) = if is_truthy m then m else "Login failed"

-- `logins` counts the calls of `onLogin`.
unfoldable pub login_reply : LoginReply → Form → Form
login_reply failed f = record f { error = "Network error"; loading = false }
login_reply accepted f = record f { loading = false; logins = suc f.logins }
login_reply (refused m) f = record f { error = refusal m; loading = false }

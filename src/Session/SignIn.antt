-- ===== src/Session/SignIn.antt =====
-- fs_ui/src/pages/LoginPage.tsx: what the sign-in page shows, and the request of its form.
use cuttlefish.Common.{Bool, String, Option, none, some, str_eq, if◌then◌else◌}
use cuttlefish.Common.Text.{is_truthy}
use cuttlefish.Session.Login.{Form, Shown}

-- The text fields, and what is posted of them.
pub record Credentials : Type 0 where
  pub username : String
  pub password : String

pub record LoginRequest : Type 0 where
  pub url : String
  pub credentials : Credentials

unfoldable pub login_request : Credentials → LoginRequest
login_request c = record { url = "/auth/login"; credentials = c }

pub data SignInBody : Type 0 where
  loading : SignInBody
  -- The link to the identity provider.
  sso : String → SignInBody
  -- The form: its error, its button's text, and whether the button is disabled.
  form : Option String → String → Bool → SignInBody
  nothing : SignInBody

abbrev or_none : String → Option String
or_none s = if is_truthy s then some s else none

abbrev button_text : Bool → String
button_text is_loading = if is_loading then "Signing in..." else "Sign in"

unfoldable pub body_of_mode : String → Form → SignInBody
body_of_mode mode f =
    if str_eq mode "oidc"
    then sso "/auth/oidc/start"
    else if str_eq mode "local"
    then form (or_none f.error) (button_text f.loading) f.loading
    else nothing

unfoldable pub sign_in_body : Shown → Form → SignInBody
unfolding body_of_mode
sign_in_body shown f = elim shown.mode [ none ↦ loading | some mode ↦ body_of_mode mode f ]

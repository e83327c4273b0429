-- ===== src/Server/Claims.antt =====
-- fs_api/auth.go: who an identity provider's claims say the user is, and whether that user may sign in.
use cuttlefish.Common.{
  ℕ, Bool, true, false, ◌&&◌, not, code, ◌==◌, String, List, [], ◌∷◌, Option, none, some, str_eq,
  if◌then◌else◌,
}
use cuttlefish.Common.Text.{includes}
use cuttlefish.Server.Grants.{is_one_of}

-- A claim: a text, an array whose members are texts or not, or something else.
pub data Claim : Type 0 where
  text : String → Claim
  array : List (Option String) → Claim
  other : Claim

abbrev pub Claims : Type 0
Claims = String → Option Claim

pub record OidcConfig : Type 0 where
  pub username_claim : String
  pub groups_claim : String
  pub allowed_users : List String
  pub allowed_domains : List String
  pub recheck_interval : ℕ

pub record Identity : Type 0 where
  pub user : String
  pub email : String
  pub groups : List String

-- `c[name].(string)`, "" if it is none.
abbrev text_of : Option Claim → String
text_of (some (text s)) = s
text_of (some (array l)) = ""
text_of (some other) = ""
text_of none = ""

abbrev texts_of : List (Option String) → List String
texts_of [] = []
texts_of (none ∷ l) = texts_of l
texts_of (some s ∷ l) = s ∷ texts_of l

abbrev groups_of : Option Claim → List String
groups_of (some (array l)) = texts_of l
groups_of (some (text s)) = s ∷ []
groups_of (some other) = []
groups_of none = []

abbrev or_else : String → String → String
or_else s t = if str_eq s "" then t else s

unfoldable pub identity_from_claims : OidcConfig → Claims → Identity
identity_from_claims config c =
    let named = if str_eq config.username_claim "" then "" else text_of (c config.username_claim) in
    let email = text_of (c "email") in
    record {
      user = or_else (or_else named email) (text_of (c "sub"));
      email = email;
      groups = groups_of (c config.groups_claim);
    }

-- What stands behind the last "@"; "" if there is none.
unfoldable pub domain_of : String → String
domain_of String.[] = ""
domain_of (String.◌∷◌ c s) =
    let rest = domain_of s in if includes b'@' s then rest else if code c == b'@' then s else ""

abbrev is_empty : List String → Bool
is_empty [] = true
is_empty (x ∷ xs) = false

unfoldable pub identity_allowed : OidcConfig → String → String → Bool
unfolding domain_of includes
identity_allowed config user email =
    if not (is_empty config.allowed_users)
    then is_one_of config.allowed_users user
    else if not (is_empty config.allowed_domains)
    then not (str_eq (domain_of email) "") && is_one_of config.allowed_domains (domain_of email)
    else true

-- ===== src/Server/Resolve.antt =====
-- fs_api/auth.go: the role of a session's groups, and the access that a user has.
use Prim.Native.Nat.{Ordering}
use Prim.Native.String.{compare}
use cuttlefish.Common.{
  Bool, true, false, not, String, List, [], ◌∷◌, map, filter, any, str_eq, if◌then◌else◌,
}
use cuttlefish.Common.Text.{is_truthy}
use cuttlefish.Common.Sort.{sort}
use cuttlefish.Types.{Grant, MatchedGrant, IdentityRule, Role, admin, viewer, restricted}
use cuttlefish.Browser.{is_restricted}
use cuttlefish.Server.Access.{Access}
use cuttlefish.Server.Grants.{is_one_of, matching_grants}
use cuttlefish.Server.Identity.{map_identity}
pub mod Granted

pub record AuthConfig : Type 0 where
  pub is_local : Bool
  pub admin_groups : List String
  pub viewer_groups : List String

unfoldable pub role_for : AuthConfig → List String → Role
role_for config groups =
    if config.is_local
    then admin
    else if any (is_one_of config.admin_groups) groups
    then admin
    else if any (is_one_of config.viewer_groups) groups
    then viewer
    else restricted

-- What the database holds; `unix_groups` are the groups recorded for the users of a Unix name.
pub record Tables : Type 0 where
  pub grants : List Grant
  pub rules : List IdentityRule
  pub unix_groups : String → List String

-- `slices.Sort` on texts
abbrev pub text_before : String → String → Bool
text_before a b = elim (compare a b) [ Ordering.lt ↦ true | _ ↦ false ]

-- `slices.Compact`
abbrev pub compact_after : String → List String → List String
compact_after x [] = []
compact_after x (y ∷ ys) =
    let rest = compact_after y ys in
    let shorter = compact_after x ys in if str_eq x y then shorter else y ∷ rest

unfoldable pub compact : List String → List String
compact [] = []
compact (x ∷ xs) = x ∷ compact_after x xs

-- The grants' paths, less those that could not be filled in safely.
abbrev pub granted_paths : List MatchedGrant → List String
granted_paths l = filter is_truthy (map (λ (g : MatchedGrant). g.path) l)

abbrev pub prefixes_of : Tables → List String → String → List String
prefixes_of t groups unix_user = compact (
    sort text_before
      (granted_paths (matching_grants t.grants groups (t.unix_groups unix_user) unix_user)))

unfoldable pub resolve_access :
    (String → String) → AuthConfig → Tables → String → List String → Access
unfolding role_for map_identity
resolve_access lower config t user groups =
    let unix_user = map_identity lower user t.rules in
    if is_restricted (role_for config groups)
    then record {
      user = user;
      role = restricted;
      prefixes = prefixes_of t groups unix_user;
      unix_user = unix_user;
    }
    else record { user = user; role = role_for config groups; prefixes = []; unix_user = "" }

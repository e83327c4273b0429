-- ===== src/Server/Access.antt =====
-- fs_api/auth.go: what a request may see.
use cuttlefish.Common.{Bool, true, ◌&&◌, ◌||◌, String, List, any, str_eq, if◌then◌else◌}
use cuttlefish.Common.Text.{◌<>◌, starts_with}
use cuttlefish.Types.{Role}
use cuttlefish.Browser.{is_restricted}
use cuttlefish.Server.Paths.{is_canonical}
pub mod Confined
pub mod Crumbs

-- `unix_user` is set for restricted users only.
pub record Access : Type 0 where
  pub user : String
  pub role : Role
  pub prefixes : List String
  pub unix_user : String

unfoldable pub is_within : String → String → Bool
is_within p pre = str_eq pre "/" || str_eq p pre || starts_with p (pre <> "/")

unfoldable pub allows : Access → String → Bool
unfolding is_within is_canonical
allows a p = if is_restricted a.role then is_canonical p && any (is_within p) a.prefixes else true

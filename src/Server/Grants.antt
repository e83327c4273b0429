-- ===== src/Server/Grants.antt =====
-- fs_api/admin.go and fs_api/auth.go: the grants that are stored, and those that match a user.
use cuttlefish.Common.{
  ℕ, zero, suc, Bool, true, false, ◌&&◌, ◌||◌, ◌==◌, not, code, String, List, [], ◌∷◌, ◌++◌, Option,
  none, some, map, filter, any, str_eq, if◌then◌else◌,
}
use cuttlefish.Common.Int.{ℤ, pos, negsuc}
use cuttlefish.Common.Text.{◌<>◌, includes, is_truthy, starts_with}
use cuttlefish.Types.{Grant, GroupType, idp, unix, MatchedGrant}
use cuttlefish.Server.Paths.{clean}
pub mod Fill
pub mod Stored

-- `strings.Contains(path, "{user}")`
unfoldable pub has_user : String → Bool
unfolding starts_with
has_user String.[] = false
has_user (String.◌∷◌ c s) = starts_with (String.◌∷◌ c s) "{user}" || has_user s

-- `strings.ReplaceAll(path, "{user}", name)`, behind some characters that are passed over.
unfoldable pub fill_from : ℕ → String → String → String
fill_from k name String.[] = ""
fill_from (suc k) name (String.◌∷◌ c s) = fill_from k name s
fill_from zero name (String.◌∷◌ c s) =
    let filled = name <> fill_from 5 name s in
    let kept = String.◌∷◌ c (fill_from 0 name s) in
    if starts_with (String.◌∷◌ c s) "{user}" then filled else kept

unfoldable pub fill : String → String → String
unfolding fill_from starts_with
fill name path = fill_from 0 name path

-- Whether a Unix name can stand for a segment of a path.
unfoldable pub grant_user : String → Option String
unfolding includes
grant_user name =
    if str_eq name ""
      || str_eq name "."
      || str_eq name ".."
      || includes b'/' name
      || includes 0 name
    then none
    else some name

abbrev pub filled_or_none : Option String → String → String
filled_or_none none prefix = ""
filled_or_none (some name) prefix = fill name prefix

-- What the user gets of a grant: "" if the name cannot be filled in safely.
unfoldable pub granted_path : String → String → String
granted_path unix_user prefix =
    if has_user prefix then filled_or_none (grant_user unix_user) prefix else prefix

abbrev pub grant_everyone : String
grant_everyone = "*"

abbrev pub is_one_of : List String → String → Bool
is_one_of names name = any (str_eq name) names

-- The condition of the query; `unix_groups` are those that the indexer recorded for the Unix name.
unfoldable pub applies : List String → List String → Grant → Bool
applies groups unix_groups g = elim g.group_type [
  | idp ↦ is_one_of groups g.group_name || str_eq g.group_name grant_everyone
  | unix ↦ is_one_of unix_groups g.group_name
]

-- The rows are taken in the order of the query.
unfoldable pub matching_grants : List Grant → List String → List String → String → List MatchedGrant
matching_grants grants groups unix_groups unix_user =
    map
      (λ (g : Grant). record {
        group_type = g.group_type;
        group_name = g.group_name;
        path_prefix = g.path_prefix;
        path = granted_path unix_user g.path_prefix;
      })
      (filter (applies groups unix_groups) grants)

-- The table, and the number that its next row gets; a row that is refused takes its number too.
pub record Grants : Type 0 where
  pub rows : List Grant
  pub next_id : ℕ

pub data Reply : Type 0 where
  created : Grant → Reply
  no_content : Reply
  refused : ℕ → String → Reply

abbrev pub type_of : String → Option GroupType
type_of name =
    if str_eq name "" || str_eq name "idp"
    then some idp
    else if str_eq name "unix"
    then some unix
    else none

abbrev pub is_idp : GroupType → Bool
is_idp idp = true
is_idp unix = false

abbrev pub same_type : GroupType → GroupType → Bool
same_type a b = if is_idp a then is_idp b else not (is_idp b)

-- The unique key of the table.
abbrev pub same_grant : Grant → Grant → Bool
same_grant g h =
    same_type g.group_type h.group_type
    && str_eq g.group_name h.group_name
    && str_eq g.path_prefix h.path_prefix

abbrev pub store : Grant → Grants → Grants × Reply
store g t =
    if any (same_grant g) t.rows
    then (record t { next_id = suc t.next_id }, refused 409 "that group already has this prefix")
    else (record t { rows = g ∷ t.rows; next_id = suc t.next_id }, created g)

-- The request's body is read; `by` is the admin, `now` the time.
pub record GrantRequest : Type 0 where
  pub group_type : String
  pub group_name : String
  pub path_prefix : String

abbrev pub add_checked :
    Option GroupType → String → String → String → String → Grants → Grants × Reply
add_checked none group prefix by now t = (t, refused 400 "group_type must be \"idp\" or \"unix\"")
add_checked (some kind) group prefix by now t =
    if str_eq group "" || not (starts_with prefix "/")
    then (t, refused 400 "group_name is required and path_prefix must be an absolute path")
    else if not (is_idp kind) && str_eq group grant_everyone
    then (t, refused 400 "\"*\" (everyone) is an IdP-group grant; use group_type \"idp\"")
    else store
        (record {
          id = t.next_id;
          group_type = kind;
          group_name = group;
          path_prefix = clean prefix;
          created_by = by;
          created_at = now;
        })
        t

-- `trim` is `strings.TrimSpace`.
unfoldable pub add_grant :
    (String → String) → String → String → GrantRequest → Grants → Grants × Reply
unfolding clean starts_with
add_grant trim by now r t =
    add_checked (type_of r.group_type) (trim r.group_name) (trim r.path_prefix) by now t

abbrev pub has_id : ℤ → Grant → Bool
has_id (pos id) g = g.id == id
has_id (negsuc n) g = false

-- `none`: the parameter is no number.
unfoldable pub delete_grant : Option ℤ → Grants → Grants × Reply
delete_grant none t = (t, refused 400 "id parameter is required")
delete_grant (some id) t =
    (record t { rows = filter (λ (g : Grant). not (has_id id g)) t.rows }, no_content)

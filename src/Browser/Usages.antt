-- ===== src/Browser/Usages.antt =====
-- fs_ui/src/pages/UserBrowserPage.tsx: the users and groups, once they have come, and the selected one.
use cuttlefish.Common.{
  Bool, true, false, String, List, ◌++◌, Option, none, some, find?, ltb, str_eq,
}
use cuttlefish.Common.Sort.{sort}
use cuttlefish.Common.Text.{◌<>◌, show}
use cuttlefish.Types.{UserStats, IdType, uid_type, gid_type}
use cuttlefish.Api.{Outcome, resolved, rejected, Failure, api_error, plain_error, no_error}

-- The page of users and groups.
pub record Usage : Type 0 where
  pub stats : List UserStats
  pub is_loading : Bool
  pub error : Option String
  pub selected_key : Option String

abbrev pub uses_more : UserStats → UserStats → Bool
uses_more a b = ltb b.total_size_bytes a.total_size_bytes

unfoldable pub start_usage : Usage → Usage
start_usage u = record u { is_loading = true; error = none }

abbrev pub message : Failure → Option String
message (api_error m status) = some m
message (plain_error m) = some m
message no_error = none

-- `Promise.all`: the users and the groups, or the first rejection.
unfoldable pub finish_usage : Outcome (List UserStats × List UserStats) → Usage → Usage
finish_usage (resolved (users, groups)) u = record u {
  stats = sort uses_more (users ++ groups);
  is_loading = false;
}
finish_usage (rejected e) u = record u { error = message e; is_loading = false }

abbrev pub id_type_name : IdType → String
id_type_name uid_type = "uid"
id_type_name gid_type = "gid"

unfoldable pub key_of : UserStats → String
key_of s = id_type_name s.id_type <> ":" <> show s.id_value

unfoldable pub selected_usage : Usage → Option UserStats
unfolding key_of
selected_usage u = elim u.selected_key [
  | none ↦ none
  | some key ↦ find? (λ (s : UserStats). str_eq (key_of s) key) u.stats
]

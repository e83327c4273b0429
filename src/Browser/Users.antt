-- ===== src/Browser/Users.antt =====
-- fs_ui/src/pages/UserBrowserPage.tsx: the table of users and groups.
use cuttlefish.Common.{
  Bool, false, String, List, [], ◌∷◌, Option, none, some, map, str_eq, if◌then◌else◌,
}
use cuttlefish.Common.Text.{◌<>◌, is_truthy}
use cuttlefish.Types.{UserStats, IdType, uid_type, gid_type, Me}
use cuttlefish.Format.{Print, format_bytes, format_number}
use cuttlefish.Detail.Selection.{DetailSelection, user}
use cuttlefish.Browser.{is_restricted}
use cuttlefish.Browser.Usages.{key_of, Usage, selected_usage}

abbrev type_text : IdType → String
type_text uid_type = "UID"
type_text gid_type = "GID"

-- An undefined name in a template literal.
abbrev or_undefined : Option String → String
or_undefined none = "undefined"
or_undefined (some s) = s

-- In the text of the page it is left out.
abbrev or_blank : Option String → String
or_blank none = ""
or_blank (some s) = s

unfoldable pub account_note : Me → Option String
account_note me =
    if is_restricted me.role
    then some
        ("Showing your account (" <> or_blank me.unix_user <> ") and the groups it belongs to.")
    else none

unfoldable pub empty_note : Me → String
empty_note me =
    if is_restricted me.role
    then "No scanned files are owned by \""
      <> or_undefined me.unix_user
      <> "\". If that isn't your Unix username, ask an admin to check the identity mapping."
    else "No usage statistics found."

pub record UsageRow : Type 0 where
  pub key : String
  pub is_selected : Bool
  pub cells : List String

abbrev is_key : Option String → String → Bool
is_key none key = false
is_key (some k) key = str_eq k key

unfoldable pub usage_row : Print → Option String → UserStats → UsageRow
usage_row p selected_key s = record {
  key = key_of s;
  is_selected = is_key selected_key (key_of s);
  cells =
      s.name
      ∷ type_text s.id_type
      ∷ format_bytes p s.total_size_bytes
      ∷ format_number p s.file_count
      ∷ [];
}

pub data UsageBody : Type 0 where
  loading : UsageBody
  error_page : String → UsageBody
  nobody : String → UsageBody
  rows : List UsageRow → UsageBody

abbrev table_of : String → List UsageRow → UsageBody
table_of note [] = nobody note
table_of note (r ∷ rs) = rows (r ∷ rs)

abbrev or_table : Option String → UsageBody → UsageBody
or_table none table = table
or_table (some m) table = if is_truthy m then error_page m else table

unfoldable pub usage_body : Print → Me → Usage → UsageBody
unfolding empty_note usage_row
usage_body p me u =
    if u.is_loading
    then loading
    else or_table u.error (table_of (empty_note me) (map (usage_row p u.selected_key) u.stats))

-- What the detail panel is given.
unfoldable pub selected_user : Usage → Option DetailSelection
unfolding selected_usage
selected_user u = elim (selected_usage u) [ none ↦ none | some s ↦ some (user s) ]

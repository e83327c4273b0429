-- ===== src/Admin/Texts.antt =====
-- fs_ui/src/pages/AdminPage.tsx: the texts of the tables, of the questions and of a preview.
use cuttlefish.Common.{String, List, [], ◌∷◌, Option, none, some, map, if◌then◌else◌}
use cuttlefish.Common.Text.{◌<>◌, is_truthy, join, show}
use cuttlefish.Types.{
  Grant, GroupType, idp, unix, IdentityRule, IdentityPreview, MatchedGrant, GroupsSource, given,
  session, no_source, Role, admin, viewer, restricted,
}

unfoldable pub group_type_label : GroupType → String
group_type_label idp = "IdP group"
group_type_label unix = "Unix group"

unfoldable pub remove_grant_question : Grant → String
unfolding group_type_label
remove_grant_question g =
    "Remove "
    <> group_type_label g.group_type
    <> " "
    <> g.group_name
    <> "'s access to "
    <> g.path_prefix
    <> "?"

abbrev pub group_placeholder : GroupType → String
group_placeholder unix = "Unix group, e.g. research"
group_placeholder idp = "IdP group name"

-- `s || d`
abbrev pub or_text : String → String → String
or_text s d = if is_truthy s then s else d

unfoldable pub remove_rule_question : IdentityRule → String
remove_rule_question r = "Remove the rule for \"" <> or_text r.match_suffix "(any)" <> "\"?"

-- The cells of a rule's row.
unfoldable pub rule_cells : IdentityRule → List String
rule_cells r =
    or_text r.match_suffix "(any)" ∷ or_text r.replace_with "(remove)" ∷ r.created_by ∷ []

unfoldable pub uid_text : IdentityPreview → String
unfolding join
uid_text preview = elim preview.uid [
  | none ↦ "— no such user in the scan"
  | some uid ↦
      "— uid "
      <> show uid
      <> "; Unix groups: "
      <> or_text (join ", " preview.groups) "none recorded"
]

unfoldable pub idp_groups_source : GroupsSource → String
idp_groups_source given = "as entered"
idp_groups_source session = "from their current session"
idp_groups_source no_source =
    "none: not signed in and none entered, so only * and Unix-group grants can match"

unfoldable pub idp_groups_text : IdentityPreview → String
unfolding idp_groups_source join
idp_groups_text preview =
    "IdP groups ("
    <> idp_groups_source preview.idp_groups_source
    <> "): "
    <> or_text (join ", " preview.idp_groups) "—"

unfoldable pub role_note : Role → String
role_note admin = " — sees everything, plus this Admin page"
role_note viewer = " — sees everything"
role_note restricted = ""

-- The cells of a matched grant's row.
unfoldable pub matched_cells : String → MatchedGrant → List String
unfolding group_type_label
matched_cells unix_user g =
    or_text g.path ("skipped: \"" <> unix_user <> "\" can't be used for {user}")
    ∷ (group_type_label g.group_type <> " " <> g.group_name)
    ∷ g.path_prefix
    ∷ []

-- What a restricted user would be able to read; the other roles have no table.
unfoldable pub access_rows : IdentityPreview → Option (List (List String))
unfolding matched_cells
access_rows preview = elim preview.role [
  | restricted ↦ some (map (matched_cells preview.unix_user) preview.grants)
  | admin ↦ none
  | viewer ↦ none
]

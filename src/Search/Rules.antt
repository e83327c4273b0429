-- ===== src/Search/Rules.antt =====
-- fs_ui/src/pages/SearchPage.tsx: the list of conditions and the edits of it.
pub mod Offered
use cuttlefish.Common.{
  remove_at, ℕ, zero, suc, ◌==◌, Bool, true, false, String, List, [], ◌∷◌, ◌++◌, Option, none, some,
  get_or_else, get_elem?, length, if◌then◌else◌,
}
use cuttlefish.Types.{SearchField, path_field, SearchRule, SearchConnector, and_connector}
use cuttlefish.Search.Fields.{
  FieldKind, file_type, offers, operators_for, default_operator, field_kind,
}

unfoldable pub new_rule : SearchConnector → SearchRule
new_rule connector = record {
  field = path_field;
  operator = "contains";
  value = "";
  connector = connector;
  negate = some false;
}

-- `Partial<SearchRule>`: the fields that a change names.
pub record Patch : Type 0 where
  pub field : Option SearchField
  pub operator : Option String
  pub value : Option String
  pub connector : Option SearchConnector
  pub negate : Option Bool

abbrev pub no_change : Patch
no_change = record { field = none; operator = none; value = none; connector = none; negate = none }

-- `{ ...r, ...patch }`
unfoldable pub merge : Patch → SearchRule → SearchRule
merge p r = record {
  field = get_or_else p.field r.field;
  operator = get_or_else p.operator r.operator;
  value = get_or_else p.value r.value;
  connector = get_or_else p.connector r.connector;
  negate = elim p.negate [ none ↦ r.negate | some b ↦ some b ];
}

-- `prev.map((r, i) => (i === index ? f(r) : r))`
abbrev pub update_at : ℕ → (SearchRule → SearchRule) → List SearchRule → List SearchRule
update_at i f [] = []
update_at zero f (r ∷ rules) = f r ∷ rules
update_at (suc i) f (r ∷ rules) = r ∷ update_at i f rules

-- `prev.filter((_, i) => i !== index)`
unfoldable pub update_rule : ℕ → Patch → List SearchRule → List SearchRule
unfolding merge
update_rule i patch rules = update_at i (merge patch) rules

-- `fieldKind(field) === 'fileType'`
abbrev pub is_file_type : FieldKind → Bool
is_file_type file_type = true
is_file_type _ = false

-- A change of field takes the operator and the value of the new field's kind.
unfoldable pub change_field : ℕ → SearchField → List SearchRule → List SearchRule
unfolding update_rule
change_field i field rules =
    update_rule i
      (record no_change {
        field = some field;
        operator = some (default_operator field);
        value = some (if is_file_type (field_kind field) then "2" else "");
      })
      rules

unfoldable pub add_rule : List SearchRule → List SearchRule
add_rule rules = rules ++ new_rule and_connector ∷ []

-- The last condition cannot be removed.
unfoldable pub remove_rule : ℕ → List SearchRule → List SearchRule
remove_rule i rules = if length rules == 1 then rules else remove_at i rules

-- What the controls of the editor do to the list.
pub data Edit : Type 0 where
  set_connector : ℕ → SearchConnector → Edit
  set_field : ℕ → SearchField → Edit
  set_negate : ℕ → Bool → Edit
  set_operator : ℕ → String → Edit
  set_value : ℕ → String → Edit
  add : Edit
  remove : ℕ → Edit

unfoldable pub edit : Edit → List SearchRule → List SearchRule
unfolding update_rule change_field add_rule remove_rule
edit (set_connector i c) rules = update_rule i (record no_change { connector = some c }) rules
edit (set_field i field) rules = change_field i field rules
edit (set_negate i b) rules = update_rule i (record no_change { negate = some b }) rules
edit (set_operator i o) rules = update_rule i (record no_change { operator = some o }) rules
edit (set_value i v) rules = update_rule i (record no_change { value = some v }) rules
edit add rules = add_rule rules
edit (remove i) rules = remove_rule i rules

-- The drop-down list of operators has those of the condition's own field.
abbrev pub offers_at : Option SearchRule → String → Bool
offers_at none o = true
offers_at (some r) o = offers (operators_for r.field) o

abbrev pub can_choose : Edit → List SearchRule → Bool
can_choose (set_operator i o) rules = offers_at (get_elem? rules i) o
can_choose _ rules = true

-- ===== src/Search/Saved.antt =====
-- fs_ui/src/pages/SearchPage.tsx: the text of a saved query.
pub mod RoundTrip
pub mod Clamped
use cuttlefish.Common.{
  ℕ, zero, suc, ◌+◌, ◌-◌, ◌/◌, ◌%◌, ◌^◌, Bool, true, false, ◌&&◌, ◌≡◌, String, List, [], ◌∷◌,
  Option, none, some, find?, filter, any, map, leb, ◌==◌, str_eq, if◌then◌else◌, code,
}
use cuttlefish.Common.Int.{ℤ, pos, negsuc}
use cuttlefish.Common.Text.{◌<>◌, show, is_truthy}
use cuttlefish.Types.{
  SearchField, SearchRule, SearchConnector, and_connector, or_connector, SearchOrder, ascending,
  descending,
}
use cuttlefish.Search.Fields.{
  FieldOption, fields, field_name, offers, operators_for, first_value, sort_options, clamp_limit,
  default_limit,
}
use cuttlefish.Search.Columns.{order_columns}
use cuttlefish.Search.Json.{
  Json, null, bool, num, str, arr, obj, Items, nil, cons, Props, end, prop, Js, get, items,
  items_of, texts,
}

pub data Result (A : Type 0) : Type 0 where
  err : String → Result A
  ok : A → Result A

-- What follows a part that may throw.
infixl 5 ◌>>=◌
abbrev pub ◌>>=◌ : {A B : Type 0} → Result A → (A → Result B) → Result B
◌>>=◌ (err thrown) next = err thrown
◌>>=◌ (ok value) next = next value

pub record SavedQuery : Type 0 where
  pub rules : List SearchRule
  pub sort_by : String
  pub order : SearchOrder
  pub limit : ℕ
  pub columns : List String

-- `v === key`
abbrev pub is_text : Option Json → String → Bool
is_text (some (str s)) k = str_eq k s
is_text _ k = false

-- `m / 10 ^ e`, rounded down
unfoldable pub floor : ℤ → ℕ → ℤ
floor (pos m) e = pos (m / 10 ^ e)
floor (negsuc m) e = negsuc (m / 10 ^ e)

abbrev pub show_connector : SearchConnector → String
show_connector and_connector = "AND"
show_connector or_connector = "OR"

abbrev pub show_order : SearchOrder → String
show_order ascending = "ASC"
show_order descending = "DESC"

-- `!!r.negate`
abbrev pub is_negated : Option Bool → Bool
is_negated (some b) = b
is_negated none = false

unfoldable pub rule_json : SearchRule → Json
rule_json r = obj (
    prop "field" (str (field_name r.field)) (
      prop "operator" (str r.operator) (
        prop "value" (str r.value) (
          prop "connector" (str (show_connector r.connector))
            (prop "negate" (bool (is_negated r.negate)) end)))))

unfoldable pub query_json : SavedQuery → Json
unfolding rule_json
query_json q = obj (
    prop "rules" (arr (items_of (map rule_json q.rules))) (
      prop "sort_by" (str q.sort_by) (
        prop "order" (str (show_order q.order)) (
          prop "limit" (num (pos q.limit) 0)
            (prop "columns" (arr (items_of (map str q.columns))) end)))))

-- The code of a character's upper-case form, where that is one of the letters A to Z.
abbrev pub upper : ℕ → ℕ
upper k = if leb b'a' k && leb k b'z' then k - 32 else if k == 383 then b'S' else k

-- `s.toUpperCase() === t`, for a text t of capital letters
unfoldable pub upper_is : String → String → Bool
upper_is String.[] String.[] = true
upper_is (String.◌∷◌ c s) (String.◌∷◌ d t) = (upper (code c) == code d) && upper_is s t
upper_is _ _ = false

-- `FIELDS.find(f => f.value === v)`
unfoldable pub find_field : Option Json → Option FieldOption
find_field v = find? (λ (f : FieldOption). is_text v (field_name f.value)) fields

module _ (js : Js) where
  -- `String(v)`
  unfoldable pub to_text : Option Json → String
  to_text none = "undefined"
  to_text (some null) = "null"
  to_text (some (bool true)) = "true"
  to_text (some (bool false)) = "false"
  to_text (some (num m e)) = js.spell (num m e)
  to_text (some (str s)) = s
  to_text (some (arr xs)) = js.spell (arr xs)
  to_text (some (obj ps)) = js.spell (obj ps)

  -- `Math.floor(Number(v))`
  unfoldable pub to_number : Option Json → Option ℤ
  unfolding floor
  to_number none = none
  to_number (some null) = some (pos 0)
  to_number (some (bool true)) = some (pos 1)
  to_number (some (bool false)) = some (pos 0)
  to_number (some (num m e)) = some (floor m e)
  to_number (some (str s)) = js.floor_number s
  to_number (some (arr xs)) = js.floor_number (js.spell (arr xs))
  to_number (some (obj ps)) = js.floor_number (js.spell (obj ps))

  -- `!!v`
  abbrev pub truthy : Option Json → Bool
  truthy none = false
  truthy (some null) = false
  truthy (some (bool b)) = b
  truthy (some (num (pos zero) e)) = false
  truthy (some (num (pos (suc m)) e)) = true
  truthy (some (num (negsuc m) e)) = true
  truthy (some (str s)) = is_truthy s
  truthy (some (arr xs)) = true
  truthy (some (obj ps)) = true

  -- `typeof v === 'string' ? v : String(v ?? '')`
  abbrev pub value_text : Option Json → String
  value_text none = ""
  value_text (some null) = ""
  value_text (some (str s)) = s
  value_text (some (bool b)) = to_text (some (bool b))
  value_text (some (num m e)) = to_text (some (num m e))
  value_text (some (arr xs)) = to_text (some (arr xs))
  value_text (some (obj ps)) = to_text (some (obj ps))

  abbrev pub null_if_missing : Option Json → Json
  null_if_missing none = null
  null_if_missing (some v) = v

  abbrev pub operator_of : Option Json → SearchField → String
  operator_of (some (str s)) field =
      if offers (operators_for field) s then s else first_value (operators_for field)
  operator_of _ field = first_value (operators_for field)

  -- The condition with its field known: what is not on offer is replaced.
  unfoldable pub read_rule : SearchField → Json → SearchRule
  unfolding to_text upper_is
  read_rule field r = record {
    field = field;
    operator = operator_of (get r "operator") field;
    value = value_text (get r "value");
    connector = if upper_is (to_text (get r "connector")) "OR" then or_connector else and_connector;
    negate = some (truthy (get r "negate"));
  }

  unfoldable pub parse_rule : ℕ → Json → Result SearchRule
  unfolding read_rule find_field
  parse_rule i r = elim (find_field (get r "field")) [
    | none ↦ err (
        "condition "
        <> show (i + 1)
        <> " has an unknown field "
        <> js.stringify (null_if_missing (get r "field"))
        <> ".")
    | some f ↦ ok (read_rule f.value r)
  ]

  -- `obj.rules.map(…)`: the first condition that is not usable throws.
  unfoldable pub parse_rules : ℕ → List Json → Result (List SearchRule)
  unfolding parse_rule
  parse_rules i [] = ok []
  parse_rules i (r ∷ rs) = do rule ← parse_rule i r; rest ← parse_rules (suc i) rs; ok (rule ∷ rest)

  -- `obj.rules`, if it is an array with a condition in it
  abbrev pub rule_items : Option Json → Option (List Json)
  rule_items (some (arr (cons x xs))) = some (x ∷ items xs)
  rule_items _ = none

  abbrev pub sort_by_of : Option Json → String
  sort_by_of (some (str s)) = if offers sort_options s then s else "path"
  sort_by_of _ = "path"

  abbrev pub columns_of : Option Json → List String
  columns_of (some (arr xs)) = order_columns (texts (items xs))
  columns_of _ = []

  -- The query with its conditions known: what is not allowed is replaced.
  unfoldable pub read_rest : List SearchRule → Json → SavedQuery
  unfolding to_text to_number upper_is
  read_rest rules v = record {
    rules = rules;
    sort_by = sort_by_of (get v "sort_by");
    order = if upper_is (to_text (get v "order")) "DESC" then descending else ascending;
    limit = clamp_limit (to_number (get v "limit")) default_limit;
    columns = columns_of (get v "columns");
  }

  unfoldable pub read_query : Json → Result SavedQuery
  unfolding parse_rules read_rest
  read_query v = elim (rule_items (get v "rules")) [
    | none ↦ err "no \"rules\" list found."
    | some rs ↦ do rules ← parse_rules 0 rs; ok (read_rest rules v)
  ]

  unfoldable pub parse_query : String → Result SavedQuery
  unfolding read_query
  parse_query t = elim (js.parse t) [
    | none ↦ err "not valid JSON — paste the full text including the outer { }."
    | some v ↦ read_query v
  ]

  unfoldable pub serialize_query : SavedQuery → String
  unfolding query_json
  serialize_query q = js.stringify (query_json q)

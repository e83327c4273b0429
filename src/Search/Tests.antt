-- ===== src/Search/Tests.antt =====
-- Search queries, columns and conditions at concrete inputs, and the theorems there.
use cuttlefish.Common.{
  ◌≡◌, refl, true, false, String, List, [], ◌∷◌, some, none, str_eq, if◌then◌else◌, arith,
}
use cuttlefish.Common.Int.{pos, negsuc}
use cuttlefish.Types.{
  Entry, SearchRule, path_field, size_field, and_connector, or_connector, ascending, descending,
}
use cuttlefish.Search.Fields.{offers, operators_for, clamp_limit}
use cuttlefish.Search.Columns.{
  contains, Selection, missing, default_columns, contains, column_keys, order_columns,
  toggle_column, apply_column_keys, load_columns, texts_json,
}
use cuttlefish.Search.Columns.Shown.{
  IsShown, Toggles, toggle_column-Toggles, load-apply_column_keys,
}
use cuttlefish.Search.Json.{Json, null, num, str, arr, obj, nil, cons, end, prop, Js}
use cuttlefish.Search.Saved.{
  SavedQuery, ok, parse_query, serialize_query, query_json, find_field, to_text, upper_is, floor,
}
use cuttlefish.Search.Saved.RoundTrip.{IsValid, parse-serialize_query}
use cuttlefish.Search.Saved.Clamped.{parse_query-IsValid}
use cuttlefish.Search.Rules.{set_field, edit, new_rule}
use cuttlefish.Search.Rules.Offered.{IsRunnable, edit-IsRunnable, new_rule-IsValidRule}
use cuttlefish.Search.Page.Visit.{}

-- A browser in which there is one JSON value.
abbrev pub js_of : Json → Js
js_of v = record {
  parse = λ t. if str_eq t "" then none else some v;
  stringify = λ w. "{…}";
  spell = λ w. "[object Object]";
  floor_number = λ t. none;
}

abbrev pub rule_of : String → SearchRule
rule_of value = record {
  field = path_field;
  operator = "contains";
  value = value;
  connector = or_connector;
  negate = some true;
}

abbrev query : SavedQuery
query = record {
  rules = rule_of "a\"b" ∷ [];
  sort_by = "mtime";
  order = descending;
  limit = 25;
  columns = "path" ∷ [];
}

query-IsValid : IsValid query
unfolding order_columns column_keys contains offers operators_for
query-IsValid = record {
  some_rule = λ e. cc;
  valid_rules = (record { offered = refl; stated = λ e. cc }, tt);
  sortable = refl;
  at_least = omega arith;
  at_most = omega arith;
  ordered = refl;
}

parse-serialize_query_example :
    parse_query (js_of (query_json query)) (serialize_query (js_of (query_json query)) query)
    ≡ ok query
unfolding query_json serialize_query
parse-serialize_query_example =
    parse-serialize_query (js_of (query_json query)) query query-IsValid refl

-- A text with nothing usable in it but the field.
abbrev loose : Json
loose = obj (
    prop "rules"
      (arr (cons (obj (prop "field" (str "size_bytes") (prop "operator" (str "regex") end))) nil))
      (prop "limit" (num (negsuc 4) 0) end))

abbrev repaired : SavedQuery
repaired = record {
  rules =
      record {
        field = size_field;
        operator = "equals";
        value = "";
        connector = and_connector;
        negate = some false;
      }
      ∷ [];
  sort_by = "path";
  order = ascending;
  limit = 400;
  columns = [];
}

loose_loads : parse_query (js_of loose) "x" ≡ ok repaired
unfolding parse_query find_field offers operators_for to_text upper_is floor clamp_limit
loose_loads = refl

parse_query-IsValid_example : IsValid repaired
parse_query-IsValid_example = parse_query-IsValid (js_of loose) "x" loose_loads

abbrev pub opening_columns : Selection
opening_columns = record { shown = default_columns; storage = missing }

pub default_columns-IsShown : IsShown default_columns
unfolding order_columns column_keys contains
default_columns-IsShown = record { ordered = refl; some_shown = λ e. cc }

toggle_column-Toggles_example :
    Toggles "path" opening_columns (toggle_column (js_of null) opening_columns "path")
toggle_column-Toggles_example =
    toggle_column-Toggles (js_of null) opening_columns "path" default_columns-IsShown

abbrev size_and_path : List String
size_and_path = "path" ∷ "size_bytes" ∷ []

ordered_keys : order_columns ("size_bytes" ∷ "path" ∷ []) ≡ size_and_path
unfolding order_columns column_keys contains
ordered_keys = refl

load-apply_column_keys_example :
    load_columns
      (js_of (texts_json size_and_path))
      (apply_column_keys
        (js_of (texts_json size_and_path))
        opening_columns
        ("size_bytes" ∷ "path" ∷ [])).storage
    ≡ (apply_column_keys
        (js_of (texts_json size_and_path))
        opening_columns
        ("size_bytes" ∷ "path" ∷ [])).shown
unfolding order_columns column_keys contains
load-apply_column_keys_example =
    load-apply_column_keys (js_of (texts_json size_and_path)) opening_columns
      ("size_bytes" ∷ "path" ∷ []) (λ e. cc) (λ e. cc) refl refl

abbrev first_rules : List SearchRule
first_rules = new_rule and_connector ∷ []

first_rules-IsRunnable : IsRunnable first_rules
first_rules-IsRunnable = record { some_rule = λ e. cc; valid = (new_rule-IsValidRule, tt) }

edit-IsRunnable_example : IsRunnable (edit (set_field 0 size_field) first_rules)
edit-IsRunnable_example =
    edit-IsRunnable (set_field 0 size_field) first_rules refl first_rules-IsRunnable

abbrev pub file_at : String → Entry
file_at path = record {
  path = path;
  size_bytes = 4096;
  file_type = 1;
  permissions = "rw-r--r--";
  uid = 0;
  gid = 0;
  user = "root";
  group = "root";
  mtime = pos 1;
  atime = pos 1;
  ctime = pos 1;
  aggregates = none;
}

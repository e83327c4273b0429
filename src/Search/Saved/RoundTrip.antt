-- ===== src/Search/Saved/RoundTrip.antt =====
-- fs_ui/src/pages/SearchPage.tsx: serializeQuery followed by parseQuery.
use cuttlefish.Common.{
  ℕ, suc, ◌≤◌, Bool, true, List, [], ◌∷◌, ◌≡◌, refl, ◌≢◌, ap, ◌∙◌, Option, none, some, map, All,
  arith, if◌then◌else◌,
}
use cuttlefish.Common.Int.{pos}
use cuttlefish.Types.{
  SearchField, path_field, SearchRule, and_connector, or_connector, ascending, descending,
  SearchConnector, SearchOrder,
}
use cuttlefish.Search.Fields.{
  FieldOption, field_name, offers, operators_for, sort_options, clamp_limit, default_limit,
  max_limit,
}
use cuttlefish.Search.Columns.{order_columns}
use cuttlefish.Search.Columns.Shown.{texts-items}
use cuttlefish.Search.Json.{Js, Json, str, items, items_of, get, arr}
use cuttlefish.Search.Saved.{
  SavedQuery, ok, rule_json, query_json, parse_rule, parse_rules, read_query, parse_query,
  serialize_query, find_field, read_rule, is_negated, floor, show_connector, show_order, upper_is,
  read_rest, sort_by_of, operator_of, rule_items,
}

-- A condition whose operator its field offers, with the negation stated.
pub record IsValidRule (r : SearchRule) : Type 0 where
  pub offered : offers (operators_for r.field) r.operator ≡ true
  pub stated : r.negate ≢ none

pub record IsValid (q : SavedQuery) : Type 0 where
  pub some_rule : q.rules ≢ []
  pub valid_rules : All IsValidRule q.rules
  pub sortable : offers sort_options q.sort_by ≡ true
  pub at_least : 1 ≤ q.limit
  pub at_most : q.limit ≤ max_limit
  pub ordered : order_columns q.columns ≡ q.columns

find_field-name :
    (f : SearchField)
    → (o : FieldOption) × (find_field (some (str (field_name f))) ≡ some o) × (o.value ≡ f)
unfolding find_field
find_field-name path_field = (_, refl, refl)
find_field-name _ = (_, refl, refl)

upper_is-or :
    (c : SearchConnector)
    → (if upper_is (show_connector c) "OR" then or_connector else and_connector) ≡ c
unfolding upper_is
upper_is-or and_connector = refl
upper_is-or or_connector = refl

upper_is-desc :
    (o : SearchOrder) → (if upper_is (show_order o) "DESC" then descending else ascending) ≡ o
unfolding upper_is
upper_is-desc ascending = refl
upper_is-desc descending = refl

negate-some : (n : Option Bool) → n ≢ none → some (is_negated n) ≡ n
negate-some none h = absurd (h refl)
negate-some (some b) h = refl

module _ (js : Js) where
  read_rule-rule_json : (r : SearchRule) → IsValidRule r → read_rule js r.field (rule_json r) ≡ r
  unfolding read_rule rule_json
  read_rule-rule_json r h = λ i. record {
    field = r.field;
    operator = operator i;
    value = r.value;
    connector = upper_is-or r.connector i;
    negate = negate-some r.negate h.stated i;
  }
    where
      operator : operator_of js (some (str r.operator)) r.field ≡ r.operator
      operator = rw h.offered refl

  parse_rule-rule_json :
      (i : ℕ) (r : SearchRule) → IsValidRule r → parse_rule js i (rule_json r) ≡ ok r
  unfolding parse_rule
  parse_rule-rule_json i r h =
      let (o, found, same) = find_field-name r.field in
      let found' : find_field (get (rule_json r) "field") ≡ some o = unfold rule_json in found in
      rw (found', parse_rule)
        (ap ok (ap (λ f. read_rule js f (rule_json r)) same ∙ read_rule-rule_json r h))

  parse_rules-rule_json :
      (i : ℕ) (rules : List SearchRule)
      → All IsValidRule rules
      → parse_rules js i (map rule_json rules) ≡ ok rules
  unfolding parse_rules
  parse_rules-rule_json i [] h = refl
  parse_rules-rule_json i (r ∷ rules) h =
      rw (parse_rule-rule_json i r h.0, parse_rules-rule_json (suc i) rules h.1) refl

  items-items_of : (xs : List Json) → items (items_of xs) ≡ xs
  items-items_of [] = refl
  items-items_of (x ∷ xs) = ap (λ t. x ∷ t) (items-items_of xs)

  rule_items-rules :
      (rules : List SearchRule)
      → rules ≢ []
      → rule_items js (some (arr (items_of (map rule_json rules)))) ≡ some (map rule_json rules)
  rule_items-rules [] h = absurd (h refl)
  rule_items-rules (r ∷ rules) h =
      ap (λ t. some (rule_json r ∷ t)) (items-items_of (map rule_json rules))

  limit-back :
      (l : ℕ) → 1 ≤ l → l ≤ max_limit → clamp_limit (some (floor (pos l) 0)) default_limit ≡ l
  unfolding clamp_limit floor
  limit-back l p q = ground arith

  read_rest-query_json : (q : SavedQuery) → IsValid q → read_rest js q.rules (query_json q) ≡ q
  unfolding read_rest query_json
  read_rest-query_json q h = λ i. record {
    rules = q.rules;
    sort_by = sort_by i;
    order = upper_is-desc q.order i;
    limit = limit-back q.limit h.at_least h.at_most i;
    columns = (ap order_columns (texts-items q.columns) ∙ h.ordered) i;
  }
    where
      sort_by : sort_by_of js (some (str q.sort_by)) ≡ q.sort_by
      sort_by = rw h.sortable refl

  read_query-query_json : (q : SavedQuery) → IsValid q → read_query js (query_json q) ≡ ok q
  unfolding read_query
  read_query-query_json q h =
      let found : rule_items js (get (query_json q) "rules") ≡ some (map rule_json q.rules) =
        unfold query_json in (rule_items-rules q.rules h.some_rule) in
      rw (found, read_query, parse_rules-rule_json 0 q.rules h.valid_rules)
        (ap ok (read_rest-query_json q h))

-- Saving a query and loading the text gives the query back: its conditions, order, limit and
-- columns. The query is one that the page can hold, and `JSON.parse` undoes `JSON.stringify` on it.
pub parse-serialize_query :
    (js : Js) (q : SavedQuery)
    → IsValid q
    → js.parse (js.stringify (query_json q)) ≡ some (query_json q)
    → parse_query js (serialize_query js q) ≡ ok q
unfolding parse_query serialize_query
parse-serialize_query js q h back = rw (back, parse_query) (read_query-query_json js q h)

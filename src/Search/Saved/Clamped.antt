-- ===== src/Search/Saved/Clamped.antt =====
-- fs_ui/src/pages/SearchPage.tsx: the queries that parseQuery returns.
use mathlib.Core.Path.{subst}
use cuttlefish.Common.{
  ℕ, suc, ◌≤◌, true, String, List, [], ◌∷◌, ◌≡◌, refl, ◌≢◌, ap, sym, ◌∙◌, Option, none, some, All,
  arith, Bool-cases, Option-cases, inl, inr,
}
use cuttlefish.Common.Int.{ℤ, pos, negsuc}
use cuttlefish.Types.{SearchField, path_field, SearchRule}
use cuttlefish.Search.Fields.{
  offers, operators_for, first_value, sort_options, clamp_limit, default_limit, max_limit,
}
use cuttlefish.Search.Columns.{order_columns, column_keys, contains}
use cuttlefish.Search.Columns.Shown.{order_columns_idem}
use cuttlefish.Search.Json.{Js, Json, null, bool, num, str, arr, obj, nil, cons, items, texts, get}
use cuttlefish.Search.Saved.{
  SavedQuery, Result, ok, err, ◌>>=◌, parse_rule, parse_rules, read_query, parse_query, find_field,
  read_rule, read_rest, sort_by_of, operator_of, rule_items, columns_of,
}
use cuttlefish.Search.Saved.RoundTrip.{IsValidRule, IsValid}

first_value-offered :
    (field : SearchField) → offers (operators_for field) (first_value (operators_for field)) ≡ true
unfolding offers operators_for
first_value-offered path_field = refl
first_value-offered _ = refl

clamp_limit-range :
    (n : Option ℤ) → (1 ≤ clamp_limit n default_limit) × (clamp_limit n default_limit ≤ max_limit)
unfolding clamp_limit
clamp_limit-range none = (omega arith, omega arith)
clamp_limit-range (some (negsuc n)) = (omega arith, omega arith)
clamp_limit-range (some (pos n)) = ground arith

err-ne-ok : {A : Type 0} {t : String} {a : A} → err t ≢ ok a
err-ne-ok = λ e. cc

-- The steps of a chain that succeeded.
record Through {A B : Type 0} (f : A → Result B) (m : Result A) (b : B) : Type 0 where
  first : A
  made : m ≡ ok first
  more : f first ≡ ok b

through :
    {A B : Type 0} {b : B} (f : A → Result B) (m : Result A) → (m >>= f) ≡ ok b → Through f m b
through f (err e) h = absurd (err-ne-ok h)
through f (ok a) h = record { first = a; made = refl; more = h }

ok-inj : {A : Type 0} {a b : A} → ok a ≡ ok b → a ≡ b
ok-inj h = cc

columns_nil : order_columns [] ≡ []
unfolding order_columns column_keys contains
columns_nil = refl

module _ (js : Js) where
  operator_of-offered :
      (o : Option Json) (field : SearchField)
      → offers (operators_for field) (operator_of js o field) ≡ true
  operator_of-offered none field = first_value-offered field
  operator_of-offered (some null) field = first_value-offered field
  operator_of-offered (some (bool b)) field = first_value-offered field
  operator_of-offered (some (num m e)) field = first_value-offered field
  operator_of-offered (some (arr xs)) field = first_value-offered field
  operator_of-offered (some (obj ps)) field = first_value-offered field
  operator_of-offered (some (str s)) field = elim (Bool-cases (offers (operators_for field) s)) [
    | inl e ↦ rw e e
    | inr e ↦ rw e (first_value-offered field)
  ]

  sort_by_of-offered : (o : Option Json) → offers sort_options (sort_by_of js o) ≡ true
  unfolding offers
  sort_by_of-offered none = refl
  sort_by_of-offered (some null) = refl
  sort_by_of-offered (some (bool b)) = refl
  sort_by_of-offered (some (num m e)) = refl
  sort_by_of-offered (some (arr xs)) = refl
  sort_by_of-offered (some (obj ps)) = refl
  sort_by_of-offered (some (str s)) = elim (Bool-cases (offers sort_options s)) [
    | inl e ↦ rw e e
    | inr e ↦ rw e refl
  ]

  columns_of-ordered : (o : Option Json) → order_columns (columns_of js o) ≡ columns_of js o
  columns_of-ordered none = columns_nil
  columns_of-ordered (some null) = columns_nil
  columns_of-ordered (some (bool b)) = columns_nil
  columns_of-ordered (some (num m e)) = columns_nil
  columns_of-ordered (some (str s)) = columns_nil
  columns_of-ordered (some (obj ps)) = columns_nil
  columns_of-ordered (some (arr xs)) = order_columns_idem (texts (items xs))

  read_rule-IsValidRule : (field : SearchField) (r : Json) → IsValidRule (read_rule js field r)
  unfolding read_rule
  read_rule-IsValidRule field r = record {
    offered = operator_of-offered (get r "operator") field;
    stated = λ e. cc;
  }

  parse_rule-IsValidRule :
      (i : ℕ) (r : Json) {rule : SearchRule} → parse_rule js i r ≡ ok rule → IsValidRule rule
  unfolding parse_rule
  parse_rule-IsValidRule i r {rule} h = elim (Option-cases (find_field (get r "field"))) [
    | inl e ↦ absurd (err-ne-ok (rw (e, parse_rule) at h))
    | inr (o, e) ↦
        subst IsValidRule (ok-inj (rw (e, parse_rule) at h)) (read_rule-IsValidRule o.value r)
  ]

  parse_rules-valid :
      (i : ℕ) (rs : List Json) {rules : List SearchRule}
      → parse_rules js i rs ≡ ok rules
      → All IsValidRule rules
  unfolding parse_rules
  parse_rules-valid i [] {rules} h = subst (All IsValidRule) (ok-inj h) tt
  parse_rules-valid i (r ∷ rs) {rules} h =
      let one = through _ (parse_rule js i r) h in
      let others = through _ (parse_rules js (suc i) rs) one.more in
      subst (All IsValidRule) (ok-inj others.more)
        (parse_rule-IsValidRule i r one.made, parse_rules-valid (suc i) rs others.made)

  parse_rules-ne :
      (i : ℕ) (r : Json) (rs : List Json) {rules : List SearchRule}
      → parse_rules js i (r ∷ rs) ≡ ok rules
      → rules ≢ []
  unfolding parse_rules
  parse_rules-ne i r rs {rules} h =
      let one = through _ (parse_rule js i r) h in
      let others = through _ (parse_rules js (suc i) rs) one.more in
      subst (λ (l : List SearchRule). l ≢ []) (ok-inj others.more) (λ e. cc)

  read_rest-IsValid :
      (rules : List SearchRule) (v : Json)
      → rules ≢ []
      → All IsValidRule rules
      → IsValid (read_rest js rules v)
  unfolding read_rest
  read_rest-IsValid rules v ne valid = record {
    some_rule = ne;
    valid_rules = valid;
    sortable = sort_by_of-offered (get v "sort_by");
    at_least = (clamp_limit-range _).0;
    at_most = (clamp_limit-range _).1;
    ordered = columns_of-ordered (get v "columns");
  }

  rule_items-cons :
      (o : Option Json) {rs : List Json}
      → rule_items js o ≡ some rs
      → (r : Json) × (rest : List Json) × (rs ≡ r ∷ rest)
  rule_items-cons none h = cc
  rule_items-cons (some null) h = cc
  rule_items-cons (some (bool b)) h = cc
  rule_items-cons (some (num m e)) h = cc
  rule_items-cons (some (str s)) h = cc
  rule_items-cons (some (obj ps)) h = cc
  rule_items-cons (some (arr nil)) h = cc
  rule_items-cons (some (arr (cons x xs))) {rs} h = (x, items xs, cc)

  read_query-IsValid : (v : Json) {q : SavedQuery} → read_query js v ≡ ok q → IsValid q
  unfolding read_query
  read_query-IsValid v {q} h = elim (Option-cases (rule_items js (get v "rules"))) [
    | inl e ↦ absurd (err-ne-ok (rw (e, read_query) at h))
    | inr (rs, e) ↦
        let (r, rest, whole) = rule_items-cons _ e in
        let rules = through _ (parse_rules js 0 rs) (rw (e, read_query) at h) in
        subst IsValid (ok-inj rules.more) (
          read_rest-IsValid rules.first v
            (parse_rules-ne 0 r rest (ap (parse_rules js 0) (sym whole) ∙ rules.made))
            (parse_rules-valid 0 rs rules.made))
  ]

-- A text that loads gives a query that the page can hold, whatever the text and whatever
-- `JSON.parse` makes of it: at least one condition, each operator one that its field offers, the
-- sort key one of the list, the limit from 1 to 10000, the columns in the table's order.
pub parse_query-IsValid :
    (js : Js) (t : String) {q : SavedQuery} → parse_query js t ≡ ok q → IsValid q
unfolding parse_query
parse_query-IsValid js t {q} h = elim (Option-cases (js.parse t)) [
  | inl e ↦ absurd (err-ne-ok (rw (e, parse_query) at h))
  | inr (v, e) ↦ read_query-IsValid js v (rw (e, parse_query) at h)
]

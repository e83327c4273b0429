-- ===== src/Server/Query.antt =====
-- fs_api/search.go: the query that a search is turned into. The text of a condition names the values by
-- their numbers, and the values stand in a list beside it. What Go's library makes of a number or a
-- letter is a parameter. Messages are less what Go says of a number that it cannot read.
use cuttlefish.Common.{
  ℕ, zero, suc, ◌+◌, ◌-◌, ◌*◌, ◌^◌, Bool, true, false, ◌&&◌, ◌||◌, not, code, ◌==◌, String, List,
  [], ◌∷◌, ◌++◌, Option, none, some, map, any, find?, length, str_eq, ltb, leb, if◌then◌else◌,
}
use cuttlefish.Common.Int.{ℤ, pos, negsuc}
use cuttlefish.Common.Text.{◌<>◌, starts_with, show, text_length, join}
use cuttlefish.Search.Csv.{text_start}
mod Tables
pub mod Offered
pub use Tables.*

-- Go's library: `TrimSpace`, `ToUpper`, `EqualFold`, `ParseInt`, and `int64(f * float64(unit))` of what
-- `ParseFloat` reads.
pub record Go : Type 0 where
  pub trim : String → String
  pub upper : String → String
  pub equal_fold : String → String → Bool
  pub parse_int : String → Option ℤ
  pub parse_scaled : String → ℕ → Option ℤ

-- `strings.HasSuffix`
unfoldable pub ends_with : String → String → Bool
ends_with String.[] suffix = str_eq "" suffix
ends_with (String.◌∷◌ c s) suffix = str_eq (String.◌∷◌ c s) suffix || ends_with s suffix

abbrev in_unit : Go → String → Option SizeUnit → Option ℤ
in_unit go s none = go.parse_int s
in_unit go s (some u) =
    go.parse_scaled (go.trim (text_start (text_length s - text_length u.suffix) s)) u.bytes

-- `none` is an error.
unfoldable pub parse_human_size : Go → String → Option ℤ
unfolding ends_with text_start text_length
parse_human_size go value =
    let s = go.trim value in
    if str_eq s ""
    then none
    else in_unit go s (find? (λ (u : SizeUnit). ends_with (go.upper s) u.suffix) size_units)

pub data Value : Type 0 where
  text_value : String → Value
  int_value : ℤ → Value

-- `(column op $param)`, negated or not.
pub record Condition : Type 0 where
  pub column : String
  pub op : String
  pub param : ℕ
  pub negated : Bool

unfoldable pub condition_text : Condition → String
condition_text c =
    let plain = "(" <> c.column <> " " <> c.op <> " $" <> show c.param <> ")" in
    if c.negated then "(NOT COALESCE(" <> plain <> ", FALSE))" else plain

pub data Built {ℓ} (A : Type ℓ) : Type ℓ where
  built : A → Built A
  bad_request : String → Built A

-- `escapeLike`: one replacement for each of the three characters.
unfoldable pub escape_like : String → String
escape_like String.[] = ""
escape_like (String.◌∷◌ c s) =
    let rest = String.◌∷◌ c (escape_like s) in
    if code c == 92 || code c == b'%' || code c == b'_' then "\\" <> rest else rest

abbrev pub numeric_op : String → Option String
numeric_op operator =
    if str_eq operator "equals"
    then some "="
    else if str_eq operator "not_equals"
    then some "<>"
    else if str_eq operator "gt"
    then some ">"
    else if str_eq operator "lt"
    then some "<"
    else none

pub record TextTest : Type 0 where
  pub op : String
  pub pattern : String

abbrev text_test : String → String → TextTest
text_test op pattern = record { op = op; pattern = pattern }

-- A text operator with the pattern that is bound.
unfoldable pub text_op : String → String → Option TextTest
unfolding escape_like
text_op operator value =
    if str_eq operator "equals"
    then some (text_test "=" value)
    else if str_eq operator "contains"
    then some (text_test "ILIKE" ("%" <> escape_like value <> "%"))
    else if str_eq operator "starts_with"
    then some (text_test "ILIKE" (escape_like value <> "%"))
    else if str_eq operator "ends_with"
    then some (text_test "ILIKE" ("%" <> escape_like value))
    else if str_eq operator "regex"
    then some (text_test "~" value)
    else if str_eq operator "regex_i"
    then some (text_test "~*" value)
    else none

-- A condition whose value is the next of the list.
abbrev pub bind : List Value → String → String → Value → Built (Condition × List Value)
bind args column op value = built (
  record { column = column; op = op; param = suc (length args); negated = false },
  args ++ value ∷ [],
)

abbrev pub bind_number :
    List Value → Column → String → Option String → Option ℤ → Built (Condition × List Value)
bind_number args c operator op none = bad_request ("invalid value for " <> c.column)
bind_number args c operator none (some n) =
    bad_request ("operator \"" <> operator <> "\" is not valid for numeric fields")
bind_number args c operator (some op) (some n) = bind args c.column op (int_value n)

abbrev pub bind_text :
    List Value → Column → String → Option TextTest → Built (Condition × List Value)
bind_text args c operator none =
    bad_request ("operator \"" <> operator <> "\" is not valid for text fields")
bind_text args c operator (some t) = bind args c.column t.op (text_value t.pattern)

abbrev pub parse_number : Go → Column → String → Option ℤ
parse_number go c value =
    if c.size_human then parse_human_size go value else go.parse_int (go.trim value)

unfoldable pub build_condition :
    Go → Column → String → String → List Value → Built (Condition × List Value)
unfolding parse_human_size text_op
build_condition go c operator value args =
    if c.numeric
    then bind_number args c operator (numeric_op operator) (parse_number go c value)
    else bind_text args c operator (text_op operator value)

-- A rule of the request's body.
pub record Rule : Type 0 where
  pub field : String
  pub operator : String
  pub value : String
  pub connector : String
  pub negate : Bool

pub data Connector : Type 0 where
  and_then or_else : Connector

abbrev pub connector_of : Go → String → Connector
connector_of go c = if go.equal_fold c "OR" then or_else else and_then

-- Conditions with the connector that stands before each; before the first there is none.
abbrev pub Clause : Type 0
Clause = List (Connector × Condition)

abbrev negated_by : Bool → Condition → Condition
negated_by negate c = record c { negated = negate }

unfoldable pub column_of : String → Option Column
column_of field = find? (λ (c : Column). str_eq c.field field) search_fields

abbrev pub build_rule : Go → Rule → Option Column → List Value → Built (Condition × List Value)
build_rule go r none args = bad_request ("unknown search field: \"" <> r.field <> "\"")
build_rule go r (some c) args = build_condition go c r.operator r.value args

abbrev pub extend :
    Connector → Bool → Built (Clause × List Value) → Condition → Built (Clause × List Value)
extend connector negate (bad_request m) c = bad_request m
extend connector negate (built (clause, args)) c =
    built ((connector, negated_by negate c) ∷ clause, args)

-- The loop over the rules, from a list of values.
unfoldable pub build_search_where : Go → List Rule → List Value → Built (Clause × List Value)
unfolding build_condition column_of
build_search_where go [] args = built ([], args)
build_search_where go (r ∷ rules) args = elim (build_rule go r (column_of r.field) args) [
  | bad_request m ↦ bad_request m
  | built (c, args') ↦
      extend (connector_of go r.connector) r.negate (build_search_where go rules args') c
]

pub record SearchBody : Type 0 where
  pub rules : List Rule
  pub sort_by : String
  pub order : String
  pub limit : ℤ
  pub offset : ℤ

abbrev pub search_max_limit : ℕ
search_max_limit = 10000

abbrev pub effective_limit : ℤ → ℕ
effective_limit (negsuc n) = 200
effective_limit (pos n) = if n == 0 || ltb search_max_limit n then 200 else n

abbrev pub effective_offset : ℤ → ℕ
effective_offset (negsuc n) = 0
effective_offset (pos n) = n

abbrev pub sort_column_or : Option Sorting → String
sort_column_or none = "f.path"
sort_column_or (some s) = s.column

unfoldable pub sort_column : String → String
sort_column key = sort_column_or (find? (λ (s : Sorting). str_eq s.key key) search_sort_columns)

-- Whether the query joins dir_stats.
unfoldable pub needs_dir_stats : SearchBody → Bool
unfolding starts_with
needs_dir_stats body =
    starts_with body.sort_by "dir_" || any (λ (r : Rule). starts_with r.field "dir_") body.rules

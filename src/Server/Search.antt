-- ===== src/Server/Search.antt =====
-- fs_api/search.go: the rows that a search may see, and the query with its limits.
use cuttlefish.Common.{
  zero, any, ℕ, suc, ◌+◌, Bool, true, false, ◌&&◌, ◌||◌, not, String, List, [], ◌∷◌, ◌++◌, Option,
  none, some, map, length, str_eq, if◌then◌else◌,
}
use cuttlefish.Common.Text.{starts_with, text_length, ◌<>◌, show, join}
use cuttlefish.Browser.{is_restricted}
use cuttlefish.Server.Access.{Access}
use cuttlefish.Server.Query.{
  Go, Value, text_value, escape_like, Condition, condition_text, Connector, and_then, or_else,
  Clause, Rule, SearchBody, Built, built, bad_request, build_search_where, effective_limit,
  effective_offset, sort_column, needs_dir_stats,
}
pub mod Meaning
pub mod Prefixes
pub mod Scoped
pub mod Accepts

-- The numbers of the prefix itself and of the pattern for what is below it.
pub record ScopePart : Type 0 where
  pub exact : ℕ
  pub below : ℕ

pub data Scope : Type 0 where
  no_row : Scope
  every_row : Scope
  one_of : List ScopePart → Scope

abbrev pub scope_part : List Value → ScopePart
scope_part args = record { exact = length args + 1; below = length args + 2 }

abbrev pub scope_values : String → List Value
scope_values p = text_value p ∷ text_value (escape_like p <> "/%") ∷ []

-- The loop over the prefixes: the parts of the clause so far, and the values.
unfoldable pub scope_loop : List String → List Value → List ScopePart → Scope × List Value
scope_loop [] args parts = (one_of parts, args)
scope_loop (p ∷ prefixes) args parts =
    let rest = scope_loop prefixes (args ++ scope_values p) (parts ++ scope_part args ∷ []) in
    if str_eq p "/" then (every_row, args) else rest

unfoldable pub scope_clause : List String → List Value → Scope × List Value
unfolding scope_loop
scope_clause [] args = (no_row, args)
scope_clause (p ∷ prefixes) args = scope_loop (p ∷ prefixes) args []

abbrev part_text : ScopePart → String
part_text s = "f.path = $" <> show s.exact <> " OR f.path LIKE $" <> show s.below

unfoldable pub scope_text : Scope → String
scope_text no_row = "FALSE"
scope_text every_row = "TRUE"
scope_text (one_of parts) = "(" <> join " OR " (map part_text parts) <> ")"

-- What stands between two connectors; `group` is in parentheses.
pub data Item : Type 0 where
  test : Condition → Item
  group : Clause → Item
  within : Scope → Item

abbrev pub Where : Type 0
Where = List (Connector × Item)

abbrev pub as_item : Connector × Condition → Connector × Item
as_item (connector, c) = (connector, test c)

-- A restricted user's clause is put in parentheses and joined with the scope.
unfoldable pub search_where : Access → Clause → List Value → Where × List Value
unfolding scope_clause
search_where a clause args =
    let (scope, args') = scope_clause a.prefixes args in
    if is_restricted a.role
    then ((and_then, group clause) ∷ (and_then, within scope) ∷ [], args')
    else (map as_item clause, args)

abbrev connector_text : Connector → String
connector_text and_then = " AND "
connector_text or_else = " OR "

-- The text of a list of conditions; the first connector is not written.
unfoldable pub chain_text {ℓ} : {A : Type ℓ} → (A → String) → List (Connector × A) → String
chain_text text [] = ""
chain_text text ((first, a) ∷ []) = text a
chain_text text ((first, a) ∷ (connector, b) ∷ rest) =
    text a <> connector_text connector <> chain_text text ((connector, b) ∷ rest)

unfoldable pub item_text : Item → String
unfolding condition_text chain_text scope_text
item_text (test c) = condition_text c
item_text (group clause) = "(" <> chain_text condition_text clause <> ")"
item_text (within scope) = scope_text scope

pub record Statement : Type 0 where
  pub rows_where : Where
  pub column : String
  pub is_descending : Bool
  pub limit : ℕ
  pub offset : ℕ
  pub values : List Value
  pub joins_dir_stats : Bool

pub data Reply : Type 0 where
  query : Statement → Reply
  refused : ℕ → String → Reply

-- What the database makes of a query: its rows, an error of PostgreSQL by code and message, or another
-- failure.
pub data Outcome : Type 0 where
  found : Outcome
  sql_error : String → String → Outcome
  failed : Outcome

abbrev pub is_pattern_error : String → Bool
is_pattern_error code = str_eq code "2201B" || str_eq code "54000"

abbrev pub is_regex : String → Bool
is_regex operator = str_eq operator "regex" || str_eq operator "regex_i"

abbrev text_behind : ℕ → String → String
text_behind zero s = s
text_behind (suc n) String.[] = ""
text_behind (suc n) (String.◌∷◌ c s) = text_behind n s

-- `strings.TrimPrefix`
unfoldable pub trim_prefix : String → String → String
unfolding starts_with text_length
trim_prefix s pre = if starts_with s pre then text_behind (text_length pre) s else s

-- The reply, which for rows is the query that gave them; `has_regex` is of the request.
abbrev pub answer : Bool → Statement → Outcome → Reply
answer has_regex s found = query s
answer has_regex s failed = refused 500 "Internal server error"
answer has_regex s (sql_error code message) =
    if has_regex && is_pattern_error code
    then refused 400
        ("Invalid regular expression: " <> trim_prefix message "invalid regular expression: ")
    else refused 500 "Internal server error"

abbrev pub statement_of : Go → Access → SearchBody → Clause → List Value → Statement
statement_of go a body clause args =
    let (rows, values) = search_where a clause args in
    record {
      rows_where = rows;
      column = sort_column body.sort_by;
      is_descending = go.equal_fold body.order "DESC";
      limit = effective_limit body.limit;
      offset = effective_offset body.offset;
      values = values;
      joins_dir_stats = needs_dir_stats body;
    }

abbrev pub has_regex : SearchBody → Bool
has_regex body = any (λ (r : Rule). is_regex r.operator) body.rules

-- `run` is the database, as it is at the request.
abbrev pub statement :
    Go → (Statement → Outcome) → Access → SearchBody → Built (Clause × List Value) → Reply
statement go run a body (bad_request m) = refused 400 m
statement go run a body (built (clause, args)) =
    let s = statement_of go a body clause args in answer (has_regex body) s (run s)

abbrev pub checked : Go → (Statement → Outcome) → Access → SearchBody → List Rule → Reply
checked go run a body [] = refused 400 "At least one search rule is required"
checked go run a body (r ∷ rules) = statement go run a body (build_search_where go (r ∷ rules) [])

-- `SearchFiles`, less the reading of the rows; `none` is a body that cannot be read.
unfoldable pub search_files :
    Go → (Statement → Outcome) → Access → String → Option SearchBody → Reply
unfolding search_where build_search_where sort_column needs_dir_stats trim_prefix
search_files go run a method none =
    if str_eq method "POST" then refused 400 "Invalid request body" else refused 405 "POST required"
search_files go run a method (some body) =
    if str_eq method "POST" then checked go run a body body.rules else refused 405 "POST required"

-- ===== src/Server/Search/Accepts.antt =====
-- The searches of fs_ui/src/pages/SearchPage.tsx, as fs_api/search.go takes them.
use cuttlefish.Common.{ℕ, Bool, true, false, ◌&&◌, any, ◌≡◌, if◌then◌else◌}
use cuttlefish.Types.{SearchRequest, SearchRule, SearchOrder, ascending, descending}
use cuttlefish.Server.Access.{Access}
use cuttlefish.Server.Query.{Go}
use cuttlefish.Server.Query.Offered.{sorts}
use cuttlefish.Server.Search.{
  Reply, query, refused, Statement, Outcome, found, failed, sql_error, is_pattern_error, is_regex,
}

abbrev pub is_descending : SearchOrder → Bool
is_descending ascending = false
is_descending descending = true

-- The query is the one that was asked for: its limit and offset, the column of the sort key, and the
-- direction.
abbrev pub IsSent : SearchRequest → Statement → Type 0
IsSent r s =
    (s.limit ≡ r.limit)
    × (s.offset ≡ r.offset)
    × (sorts r.sort_by s.column ≡ true)
    × (s.is_descending ≡ is_descending r.order)

abbrev pub uses_regex : SearchRequest → Bool
uses_regex r = any (λ (x : SearchRule). is_regex x.operator) r.rules

-- The database failed the query, and the status says whose fault it is.
abbrev pub IsFailure : Bool → ℕ → Outcome → Type 0
IsFailure regex status found = ⊥
IsFailure regex status failed = status ≡ 500
IsFailure regex status (sql_error code message) =
    status ≡ (if regex && is_pattern_error code then 400 else 500)

abbrev pub RunsAs : (Statement → Outcome) → SearchRequest → Reply → Type 0
RunsAs run r (query s) = IsSent r s × (run s ≡ found)
RunsAs run r (refused status m) =
    (s : Statement) × IsSent r s × IsFailure (uses_regex r) status (run s)

-- `strings.EqualFold` knows the two words that the page sends.
pub record ReadsOrder (go : Go) : Type 0 where
  pub down : go.equal_fold "DESC" "DESC" ≡ true
  pub up : go.equal_fold "ASC" "DESC" ≡ false

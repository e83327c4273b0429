-- ===== src/Search/Page.antt =====
-- fs_ui/src/pages/SearchPage.tsx: the state of the page, its handlers, and the searches in flight.
-- A reply may arrive in any order; `performance.now()` is the time that an event carries.
pub mod Visit
pub mod Single
pub mod Ready
pub mod Loadable
pub mod Races
mod Tests
use cuttlefish.Common.{
  remove_at, ℕ, zero, suc, ◌-◌, ◌==◌, Bool, true, false, ◌||◌, ◌&&◌, not, String, List, [], ◌∷◌,
  ◌++◌, Option, none, some, map, filter, length, str_eq, code, get_or_else, if◌then◌else◌,
  get_elem?, find?,
}
use cuttlefish.Common.Int.{ℤ}
use cuttlefish.Common.Text.{◌<>◌, show, is_truthy, includes, trim}
use cuttlefish.Types.{
  Entry, SearchRule, SearchRequest, SearchOrder, ascending, descending, path_field, and_connector,
}
use cuttlefish.Api.{Outcome, resolved, rejected, Failure, api_error, plain_error, no_error}
use cuttlefish.Api.Url.{encode_uri_component}
use cuttlefish.Search.Fields.{
  FieldKind, file_type, timestamp, field_kind, offers, sort_options, clamp_limit, default_limit,
}
use cuttlefish.Search.Columns.{
  Selection, apply_column_keys, toggle_column, order_columns, contains, column_keys,
}
use cuttlefish.Search.Json.{Js}
use cuttlefish.Search.Saved.{SavedQuery, Result, ok, err, parse_query, serialize_query}
use cuttlefish.Search.Rules.{new_rule, Edit, remove, edit, can_choose, is_file_type}

-- A search that was sent and not answered.
pub record Pending : Type 0 where
  pub begun_at : ℕ
  pub request : SearchRequest

pub record Page : Type 0 where
  pub rules : List SearchRule
  pub sort_by : String
  pub order : SearchOrder
  pub limit : ℕ
  pub results : List Entry
  pub is_loading : Bool
  pub error : Option String
  pub has_searched : Bool
  pub selected_path : Option String
  pub elapsed_ms : Option ℕ
  pub started_at : Option ℕ
  pub columns : Selection
  pub show_text : Bool
  pub query_text : String
  pub text_notice : Option String
  pub pending : List Pending

-- What the text of the page's query is written from.
abbrev pub saved : Page → SavedQuery
saved p = record {
  rules = p.rules;
  sort_by = p.sort_by;
  order = p.order;
  limit = p.limit;
  columns = p.columns.shown;
}

-- `err.message`
abbrev pub message : Failure → Option String
message (api_error m status) = some m
message (plain_error m) = some m
message no_error = none

abbrev pub is_timestamp : FieldKind → Bool
is_timestamp timestamp = true
is_timestamp _ = false

abbrev pub is_ascending : SearchOrder → Bool
is_ascending ascending = true
is_ascending descending = false

module _ (js : Js) (epoch : String → String) where
  -- The conditions that are sent: those with a value, and a time as seconds since the epoch, which
  -- `epoch` spells: `String(Math.floor(new Date(value).getTime() / 1000))`.
  abbrev pub has_value : SearchRule → Bool
  has_value r = is_file_type (field_kind r.field) || is_truthy (trim r.value)

  abbrev pub with_epoch : SearchRule → SearchRule
  with_epoch r =
      if is_timestamp (field_kind r.field) && is_truthy r.value
      then record r { value = epoch r.value }
      else r

  unfoldable pub active_rules : List SearchRule → List SearchRule
  active_rules rules = map with_epoch (filter has_value rules)

  abbrev pub send : ℕ → SearchRequest → Page → Page
  send now request p = record p {
    is_loading = true;
    error = none;
    has_searched = true;
    selected_path = none;
    elapsed_ms = none;
    started_at = some now;
    pending = p.pending ++ record { begun_at = now; request = request } ∷ [];
  }

  abbrev pub send_rules : ℕ → String → SearchOrder → ℕ → List SearchRule → Page → Page
  send_rules now sort_by order limit [] p = record p {
    error = some "Enter at least one condition with a value.";
  }
  send_rules now sort_by order limit (r ∷ rules) p =
      send now
        (record { rules = r ∷ rules; sort_by = sort_by; order = order; limit = limit; offset = 0 })
        p

  unfoldable pub execute_search : ℕ → List SearchRule → String → SearchOrder → ℕ → Page → Page
  unfolding active_rules
  execute_search now rules sort_by order limit p =
      send_rules now sort_by order limit (active_rules rules) p

  -- What follows the `await` in `executeSearch`, and its `finally`.
  unfoldable pub settle : ℕ → Pending → Outcome (List Entry) → Page → Page
  settle now asked (resolved found) p = record p {
    elapsed_ms = some (now - asked.begun_at);
    results = found;
    is_loading = false;
    started_at = none;
  }
  settle now asked (rejected e) p = record p {
    error = message e;
    results = [];
    is_loading = false;
    started_at = none;
  }

  -- The effect that writes the text of the query anew while the panel is open.
  unfoldable pub echo : Page → Page
  echo p = if p.show_text then record p { query_text = serialize_query js (saved p) } else p

  -- It runs where what it reads has changed.
  abbrev pub echo_if : Bool → Page → Page
  echo_if true p = echo p
  echo_if false p = p

  abbrev pub run_search : ℕ → Page → Page
  run_search now p = execute_search now p.rules p.sort_by p.order p.limit p

  unfoldable pub sort_by_column : ℕ → String → Page → Page
  unfolding execute_search echo
  sort_by_column now key p =
      let next = if str_eq p.sort_by key && is_ascending p.order then descending else ascending in
      execute_search now p.rules key next p.limit (echo (record p { sort_by = key; order = next }))

  -- A query without columns leaves the columns as they are.
  abbrev pub loaded_columns : List String → Selection → Selection
  loaded_columns [] s = s
  loaded_columns (k ∷ ks) s = apply_column_keys js s (k ∷ ks)

  abbrev pub loaded_notice : ℕ → String
  loaded_notice n = "Loaded " <> show n <> " condition" <> (if n == 1 then "" else "s") <> "."

  abbrev pub load_result : ℕ → Result SavedQuery → Page → Page
  load_result now (err m) p = record p { text_notice = some ("Could not load: " <> m) }
  load_result now (ok q) p = execute_search now q.rules q.sort_by q.order q.limit (
      echo (record p {
        rules = q.rules;
        sort_by = q.sort_by;
        order = q.order;
        limit = q.limit;
        columns = loaded_columns q.columns p.columns;
        text_notice = some (loaded_notice (length q.rules));
      }))

  unfoldable pub load_query_text : ℕ → Page → Page
  unfolding execute_search echo
  load_query_text now p = load_result now (parse_query js p.query_text) p

  -- `setText` and the notice of `copyQueryText`
  abbrev pub copy_notice : Bool → String
  copy_notice true = "Copied to clipboard."
  copy_notice false = "Could not copy — select the text and copy it manually."

  -- The page as it opens, with the columns that the browser keeps.
  abbrev pub blank : Selection → Page
  blank columns = record {
    rules = new_rule and_connector ∷ [];
    sort_by = "path";
    order = ascending;
    limit = default_limit;
    results = [];
    is_loading = false;
    error = none;
    has_searched = false;
    selected_path = none;
    elapsed_ms = none;
    started_at = none;
    columns = columns;
    show_text = false;
    query_text = "";
    text_notice = none;
    pending = [];
  }

  abbrev pub path_rule : String → SearchRule
  path_rule path = record {
    field = path_field;
    operator = "equals";
    value = path;
    connector = and_connector;
    negate = none;
  }

  -- A link from a detail panel carries `?path=`, and the search for it runs at once.
  unfoldable pub open_page : ℕ → Option String → Selection → Page
  unfolding execute_search
  open_page now none columns = blank columns
  open_page now (some path) columns =
      let rules = path_rule path ∷ [] in
      if is_truthy path
      then execute_search now rules "path" ascending default_limit
          (record (blank columns) { rules = rules })
      else blank columns

-- The entry that the detail panel shows.
unfoldable pub selected_entry : Page → Option Entry
selected_entry p = elim p.selected_path [
  | none ↦ none
  | some path ↦ find? (λ (e : Entry). str_eq e.path path) p.results
]

-- `path.substring(0, path.lastIndexOf('/'))`
unfoldable pub before_last_slash : String → String
before_last_slash String.[] = String.[]
before_last_slash (String.◌∷◌ c s) =
    let rest = before_last_slash s in if includes b'/' s then String.◌∷◌ c rest else String.[]

abbrev pub or_root : String → String
or_root s = if is_truthy s then s else "/"

unfoldable pub open_in_browser : Entry → String
unfolding before_last_slash
open_in_browser e =
    "/browser?path="
    <> encode_uri_component
        (if e.file_type == 2 then e.path else or_root (before_last_slash e.path))

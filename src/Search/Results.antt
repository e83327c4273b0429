-- ===== src/Search/Results.antt =====
-- fs_ui/src/pages/SearchPage.tsx: what the page shows of its results: the status line, the menu of
-- columns, the headers, and the rows of the window. Times are whole milliseconds.
pub mod Window
mod Tests
use cuttlefish.Common.{
  ℕ, suc, ◌-◌, Bool, true, false, ◌&&◌, ◌==◌, not, String, List, [], ◌∷◌, Option, none, some, map,
  length, take, drop, ltb, leb, str_eq, if◌then◌else◌, get_or_else,
}
use cuttlefish.Common.Text.{◌<>◌, is_truthy, join, show}
use cuttlefish.Types.{
  Entry, SearchOrder, ascending, descending, Me, Role, restricted, admin, viewer,
}
use cuttlefish.Format.{Print, format_number}
use cuttlefish.Search.Columns.{ResultColumn, columns, active_columns, contains}
use cuttlefish.Search.Page.{Page, selected_entry, is_ascending}
use cuttlefish.Detail.Selection.{DetailSelection, entry, Secondary, action}
use cuttlefish.Windowing.{Rows, Range, windowed_rows, window_threshold}

-- `seconds` is `(ms / 1000).toFixed(2)`.
unfoldable pub format_duration : (ℕ → String) → ℕ → String
format_duration seconds ms = if ltb ms 1000 then show ms <> " ms" else seconds ms <> " s"

-- `ElapsedTimer`, at the tick `now`.
unfoldable pub elapsed : (ℕ → String) → ℕ → ℕ → String
unfolding format_duration
elapsed seconds now started_at = format_duration seconds (now - started_at)

-- An error's text that is empty is no error.
abbrev pub has_error : Option String → Bool
has_error none = false
has_error (some e) = is_truthy e

abbrev limited_to : Print → ℕ → ℕ → String
limited_to p limit n = if leb limit n then " (limited to " <> format_number p limit <> ")" else ""

abbrev took : (ℕ → String) → Option ℕ → String
took seconds none = ""
took seconds (some ms) = " in " <> format_duration seconds ms

abbrev es_of : ℕ → String
es_of n = if n == 1 then "" else "es"

unfoldable pub summary : Print → (ℕ → String) → Page → String
summary p seconds page =
    "Showing "
    <> format_number p (length page.results)
    <> " match"
    <> es_of (length page.results)
    <> limited_to p page.limit (length page.results)
    <> took seconds page.elapsed_ms

pub data Status : Type 0 where
  searching : Option String → Status
  done : Option String → Status

abbrev since : (ℕ → String) → ℕ → Option ℕ → Option String
since seconds now none = none
since seconds now (some t) = some (elapsed seconds now t)

-- The slot over the table: the search that runs with its time, or the summary of the last one.
unfoldable pub status : Print → (ℕ → String) → ℕ → Page → Status
unfolding elapsed summary
status p seconds now page =
    if page.is_loading
    then searching (since seconds now page.started_at)
    else done (
        if page.has_searched && not (has_error page.error)
        then some (summary p seconds page)
        else none)

-- A box of the menu of columns.
pub record Box : Type 0 where
  pub key : String
  pub label : String
  pub checked : Bool
  pub disabled : Bool

unfoldable pub column_boxes : Print → List String → List Box
unfolding contains active_columns
column_boxes p keys =
    map
      (λ (c : ResultColumn). record {
        key = c.key;
        label = c.label;
        checked = contains keys c.key;
        disabled = contains keys c.key && (length (active_columns p keys) == 1);
      })
      (columns p)

-- The menu is opened and closed by its button, and closed by a press outside of it.
pub data MenuEvent : Type 0 where
  press_button : MenuEvent
  mouse_down : Bool → MenuEvent

unfoldable pub menu_step : Bool → MenuEvent → Bool
menu_step is_open press_button = not is_open
menu_step is_open (mouse_down is_inside) = is_open && is_inside

abbrev pub is_sorted_by : Page → Option String → Bool
is_sorted_by page none = false
is_sorted_by page (some key) = str_eq page.sort_by key

abbrev arrow : SearchOrder → String
arrow ascending = " ▲"
arrow descending = " ▼"

-- The text of a header, and the key that a press sorts by.
unfoldable pub header_text : Page → ResultColumn → String
header_text page c = c.label <> (if is_sorted_by page c.sort_key then arrow page.order else "")

abbrev sort_name : SearchOrder → String
sort_name ascending = "ascending"
sort_name descending = "descending"

unfoldable pub aria_sort : Page → ResultColumn → Option String
aria_sort page c = if is_sorted_by page c.sort_key then some (sort_name page.order) else none

abbrev pub row_height_estimate : ℕ
row_height_estimate = 37

-- `results.slice(a, b)`
abbrev pub slice : {A : Type 0} → ℕ → ℕ → List A → List A
slice a b xs = take (b - a) (drop a xs)

abbrev pub numbered : {A : Type 0} → ℕ → List A → List (ℕ × A)
numbered i [] = []
numbered i (x ∷ xs) = (i, x) ∷ numbered (suc i) xs

-- The rows that are drawn, each with the index that its height is kept under.
unfoldable pub drawn_rows : Rows → List Entry → List (ℕ × Entry)
drawn_rows w results = numbered w.start (slice w.start w.end results)

unfoldable pub result_window : (ℕ → ℕ) → List Entry → Range → Rows
unfolding windowed_rows
result_window h results range = windowed_rows h (length results) window_threshold range

abbrev is_empty : List Entry → Bool
is_empty [] = true
is_empty (e ∷ entries) = false

-- The line in place of rows, if there is one.
unfoldable pub placeholder : Page → Option String
placeholder page =
    if not page.has_searched
    then some "Build a query above and press Run search."
    else if not page.is_loading && is_empty page.results && not (has_error page.error)
    then some "No matching files or folders."
    else none

abbrev or_no_path : String → String
or_no_path s = if is_truthy s then s else "no granted paths"

-- The note for a restricted user.
unfoldable pub limits_note : Me → Option String
unfolding join
limits_note me = elim me.role [
  | restricted ↦ some ("Results limited to: " <> or_no_path (join ", " me.prefixes))
  | admin ↦ none
  | viewer ↦ none
]

-- What the detail panel is given.
unfoldable pub selected : Page → Option DetailSelection
unfolding selected_entry
selected page = elim (selected_entry page) [ none ↦ none | some e ↦ some (entry e none) ]

abbrev pub secondary : Secondary
secondary = action "Open in Browser"

-- ===== src/Browser/Table.antt =====
-- fs_ui/src/components/FileList.tsx: the headers and rows of a directory's table, and what a press
-- of them does. `locale_date` is `toLocaleString`, which the table calls for a missing time as well.
use cuttlefish.Common.{
  ◌==◌, Bool, false, ◌&&◌, ◌||◌, String, List, [], ◌∷◌, Option, none, some, map, str_eq,
  if◌then◌else◌,
}
use cuttlefish.Common.Text.{◌<>◌}
use cuttlefish.Types.{
  Entry, EntryKey, path_key, size_key, user_key, mtime_key, SortConfig, Direction, asc, desc,
}
use cuttlefish.Format.{Print, format_bytes}
use cuttlefish.Treemap.{effective_size, entry_name}
use cuttlefish.Browser.{is_key, Collation, sort_entries}

abbrev arrow : Direction → String
arrow asc = " ▲"
arrow desc = " ▼"

abbrev direction_name : Direction → String
direction_name asc = "ascending"
direction_name desc = "descending"

unfoldable pub sort_indicator : SortConfig → EntryKey → String
sort_indicator config key = if is_key config.key key then arrow config.direction else ""

-- A header: its text, and `aria-sort`. A press sorts by its key.
pub record HeaderCell : Type 0 where
  pub key : EntryKey
  pub text : String
  pub aria_sort : Option String

unfoldable pub sort_header : SortConfig → EntryKey → String → HeaderCell
unfolding sort_indicator
sort_header config key label = record {
  key = key;
  text = label <> sort_indicator config key;
  aria_sort = if is_key config.key key then some (direction_name config.direction) else none;
}

unfoldable pub headers : SortConfig → List HeaderCell
unfolding sort_header
headers config =
    sort_header config path_key "Name"
    ∷ sort_header config size_key "Size"
    ∷ sort_header config user_key "Owner"
    ∷ sort_header config mtime_key "Modified"
    ∷ []

-- What a press calls: `onSelect`, `onNavigate`, or nothing.
pub data Action : Type 0 where
  selects : Entry → Action
  navigates : String → Action
  nothing : Action

abbrev pub is_dir : Entry → Bool
is_dir e = e.file_type == 2

unfoldable pub row_click : Entry → Action
row_click e = selects e

unfoldable pub row_double_click : Entry → Action
row_double_click e = if is_dir e then navigates e.path else nothing

-- A key on the row itself.
unfoldable pub row_key : String → Bool → Entry → Action
row_key key on_row e =
    if on_row && (str_eq key "Enter" || str_eq key " ") then selects e else nothing

-- The button on the name, which stops the click on the row.
unfoldable pub name_click : Entry → Action
name_click e = if is_dir e then navigates e.path else selects e

pub record Row : Type 0 where
  pub path : String
  pub is_selected : Bool
  pub cells : List String

abbrev is_path : Option String → String → Bool
is_path none path = false
is_path (some p) path = str_eq p path

unfoldable pub row : Print → Option String → Entry → Row
unfolding effective_size entry_name
row p selected_path e = record {
  path = e.path;
  is_selected = is_path selected_path e.path;
  cells = entry_name e ∷ format_bytes p (effective_size e) ∷ e.user ∷ p.locale_date e.mtime ∷ [];
}

-- The body of the table.
unfoldable pub table_rows : Print → Collation → SortConfig → Option String → List Entry → List Row
unfolding row sort_entries
table_rows p c config selected_path entries =
    map (row p selected_path) (sort_entries c config entries)

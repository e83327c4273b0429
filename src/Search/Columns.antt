-- ===== src/Search/Columns.antt =====
-- fs_ui/src/pages/SearchPage.tsx: the result columns, and which of them are shown.
pub mod Shown
use cuttlefish.Common.{
  ℕ, Bool, true, false, String, List, [], ◌∷◌, ◌++◌, Option, none, some, filter, any, map, not,
  ◌==◌, str_eq, if◌then◌else◌, length, get_or_else,
}
use cuttlefish.Common.Int.{ℤ}
use cuttlefish.Common.Text.{show, is_truthy}
use cuttlefish.Types.{DirAggregates, Entry}
use cuttlefish.Format.{Print, format_bytes, format_number, format_date, is_time, type_label}
use cuttlefish.Search.Json.{Json, Js, null, bool, num, str, arr, obj, items, items_of, texts}

-- `aggregates?.total_size_bytes ?? d`
abbrev pub total_or : Option DirAggregates → ℕ → ℕ
total_or none d = d
total_or (some a) d = a.total_size_bytes

-- A directory's size is its recursive total, if the scan has one; a file's is its own.
unfoldable pub effective_size : Entry → ℕ
effective_size e = if e.file_type == 2 then total_or e.aggregates e.size_bytes else e.size_bytes

unfoldable pub iso_date : Print → ℤ → String
iso_date p epoch = if is_time epoch then p.iso_date epoch else ""

pub data Align : Type 0 where
  left right : Align

pub record ResultColumn : Type 0 where
  pub key : String
  pub label : String
  pub csv_label : Option String
  pub align : Option Align
  pub sort_key : Option String
  pub cell : Entry → String
  pub csv : Entry → String

abbrev pub with_aggregates : Option DirAggregates → (DirAggregates → String) → String → String
with_aggregates none f d = d
with_aggregates (some a) f d = f a

abbrev pub dir_time_column : Print → String → String → (DirAggregates → ℤ) → ResultColumn
dir_time_column p key label pick = record {
  key = key;
  label = label;
  csv_label = none;
  align = none;
  sort_key = some key;
  cell = λ e. with_aggregates e.aggregates (λ a. format_date p (pick a)) "—";
  csv = λ e. with_aggregates e.aggregates (λ a. iso_date p (pick a)) "";
}

-- A column whose cell and export show the same text.
abbrev pub plain_column :
    String → String → Option Align → Option String → (Entry → String) → ResultColumn
plain_column key label align sort_key show = record {
  key = key;
  label = label;
  csv_label = none;
  align = align;
  sort_key = sort_key;
  cell = show;
  csv = show;
}

abbrev pub time_column : Print → String → String → (Entry → ℤ) → ResultColumn
time_column p key label pick = record {
  key = key;
  label = label;
  csv_label = none;
  align = none;
  sort_key = some key;
  cell = λ e. format_date p (pick e);
  csv = λ e. iso_date p (pick e);
}

abbrev pub size_column : Print → ResultColumn
size_column p = record {
  key = "size_bytes";
  label = "Size";
  csv_label = some "Size (bytes)";
  align = some right;
  sort_key = some "size_bytes";
  cell = λ e. format_bytes p (effective_size e);
  csv = λ e. show (effective_size e);
}

abbrev pub total_size_column : Print → ResultColumn
total_size_column p = record {
  key = "dir_total_size";
  label = "Dir: Total Size";
  csv_label = some "Dir Total Size (bytes)";
  align = some right;
  sort_key = some "dir_total_size";
  cell = λ e. with_aggregates e.aggregates (λ a. format_bytes p a.total_size_bytes) "—";
  csv = λ e. with_aggregates e.aggregates (λ a. show a.total_size_bytes) "";
}

abbrev pub file_count_column : Print → ResultColumn
file_count_column p = record {
  key = "dir_file_count";
  label = "Dir: File Count";
  csv_label = none;
  align = some right;
  sort_key = some "dir_file_count";
  cell = λ e. with_aggregates e.aggregates (λ a. format_number p a.file_count) "—";
  csv = λ e. with_aggregates e.aggregates (λ a. show a.file_count) "";
}

abbrev pub columns : Print → List ResultColumn
columns p =
    plain_column "path" "Path" none (some "path") (λ e. e.path)
    ∷ plain_column "file_type" "Type" none (some "file_type") (λ e. type_label e.file_type)
    ∷ size_column p
    ∷ plain_column "user" "Owner" none (some "uid") (λ e. e.user)
    ∷ plain_column "uid" "UID" (some right) (some "uid") (λ e. show e.uid)
    ∷ plain_column "group" "Group" none (some "gid") (λ e. e.group)
    ∷ plain_column "gid" "GID" (some right) (some "gid") (λ e. show e.gid)
    ∷ plain_column "permissions" "Permissions" none none (λ e. e.permissions)
    ∷ time_column p "mtime" "Modified" (λ e. e.mtime)
    ∷ time_column p "atime" "Accessed" (λ e. e.atime)
    ∷ time_column p "ctime" "Changed" (λ e. e.ctime)
    ∷ total_size_column p
    ∷ file_count_column p
    ∷ dir_time_column p "dir_mtime_first" "Dir: Earliest Modified" (λ a. a.mtime_first)
    ∷ dir_time_column p "dir_mtime_last" "Dir: Latest Modified" (λ a. a.mtime_last)
    ∷ dir_time_column p "dir_atime_first" "Dir: Earliest Accessed" (λ a. a.atime_first)
    ∷ dir_time_column p "dir_atime_last" "Dir: Latest Accessed" (λ a. a.atime_last)
    ∷ dir_time_column p "dir_ctime_first" "Dir: Earliest Changed" (λ a. a.ctime_first)
    ∷ dir_time_column p "dir_ctime_last" "Dir: Latest Changed" (λ a. a.ctime_last)
    ∷ []

-- The keys alone, in the order of the table.
unfoldable pub column_keys : List String
column_keys =
    "path" ∷ "file_type" ∷ "size_bytes" ∷ "user" ∷ "uid" ∷ "group" ∷ "gid" ∷ "permissions" ∷ "mtime"
    ∷ "atime" ∷ "ctime" ∷ "dir_total_size" ∷ "dir_file_count" ∷ "dir_mtime_first" ∷ "dir_mtime_last"
    ∷ "dir_atime_first" ∷ "dir_atime_last" ∷ "dir_ctime_first" ∷ "dir_ctime_last" ∷ []

abbrev pub default_columns : List String
default_columns = "path" ∷ "file_type" ∷ "size_bytes" ∷ "user" ∷ []

-- `keys.includes(key)`
unfoldable pub contains : List String → String → Bool
contains keys key = any (λ k. str_eq k key) keys

-- `COLUMNS.filter(c => keys.includes(c.key)).map(c => c.key)`
unfoldable pub order_columns : List String → List String
unfolding contains column_keys
order_columns keys = filter (contains keys) column_keys

-- `COLUMNS.filter(c => columnKeys.includes(c.key))`
unfoldable pub active_columns : Print → List String → List ResultColumn
unfolding contains
active_columns p keys = filter (λ c. contains keys c.key) (columns p)

-- What `localStorage.getItem` does: it throws, has nothing, or has a text.
pub data Stored : Type 0 where
  denied : Stored
  missing : Stored
  stored : String → Stored

abbrev pub or_default : List String → List String
or_default [] = default_columns
or_default (k ∷ ks) = k ∷ ks

-- The stored selection, less what no column is named after.
unfoldable pub columns_of_json : Json → List String
unfolding contains column_keys
columns_of_json (arr xs) = or_default (filter (contains column_keys) (texts (items xs)))
columns_of_json null = default_columns
columns_of_json (bool b) = default_columns
columns_of_json (num m e) = default_columns
columns_of_json (str s) = default_columns
columns_of_json (obj ps) = default_columns

unfoldable pub load_columns : Js → Stored → List String
unfolding columns_of_json
load_columns js denied = default_columns
load_columns js missing = default_columns
load_columns js (stored raw) =
    if is_truthy raw
    then elim (js.parse raw) [ none ↦ default_columns | some v ↦ columns_of_json v ]
    else default_columns

-- The columns shown, and what the browser keeps of them.
pub record Selection : Type 0 where
  pub shown : List String
  pub storage : Stored

-- `localStorage.setItem`; where storage is denied it throws, and that is ignored.
abbrev pub store : Stored → String → Stored
store denied t = denied
store missing t = stored t
store (stored old) t = stored t

abbrev pub texts_json : List String → Json
texts_json keys = arr (items_of (map str keys))

-- A choice in which no column is named changes nothing.
abbrev pub show_columns : Js → Selection → List String → Selection
show_columns js s [] = s
show_columns js s (k ∷ ks) = record {
  shown = k ∷ ks;
  storage = store s.storage (js.stringify (texts_json (k ∷ ks)));
}

unfoldable pub apply_column_keys : Js → Selection → List String → Selection
unfolding order_columns
apply_column_keys js s keys = show_columns js s (order_columns keys)

unfoldable pub toggle_column : Js → Selection → String → Selection
unfolding apply_column_keys contains
toggle_column js s key =
    apply_column_keys js s (
      if contains s.shown key
      then filter (λ k. not (str_eq k key)) s.shown
      else s.shown ++ key ∷ [])

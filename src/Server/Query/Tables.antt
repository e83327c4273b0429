-- ===== src/Server/Query/Tables.antt =====
-- The tables of fs_api/search.go: the fields with their columns, the sort keys, and the units of sizes.
use cuttlefish.Common.{ℕ, ◌^◌, Bool, true, false, String, List, [], ◌∷◌}

pub record Column : Type 0 where
  pub field : String
  pub column : String
  pub numeric : Bool
  pub size_human : Bool

abbrev text_column : String → String → Column
text_column field column = record {
  field = field;
  column = column;
  numeric = false;
  size_human = false;
}

abbrev number_column : String → String → Column
number_column field column = record {
  field = field;
  column = column;
  numeric = true;
  size_human = false;
}

abbrev size_column : String → String → Column
size_column field column = record {
  field = field;
  column = column;
  numeric = true;
  size_human = true;
}

abbrev pub search_fields : List Column
search_fields =
    text_column "path" "f.path"
    ∷ number_column "uid" "f.uid"
    ∷ number_column "gid" "f.gid"
    ∷ text_column "user" "u.name"
    ∷ text_column "group" "g.name"
    ∷ number_column "file_type" "f.file_type"
    ∷ size_column "size_bytes" "f.size_bytes"
    ∷ number_column "mtime" "f.mtime"
    ∷ number_column "atime" "f.atime"
    ∷ number_column "ctime" "f.ctime"
    ∷ size_column "dir_total_size" "s.total_size_bytes"
    ∷ number_column "dir_file_count" "s.file_count"
    ∷ number_column "dir_mtime_first" "s.mtime_first"
    ∷ number_column "dir_mtime_last" "s.mtime_last"
    ∷ number_column "dir_atime_first" "s.atime_first"
    ∷ number_column "dir_atime_last" "s.atime_last"
    ∷ number_column "dir_ctime_first" "s.ctime_first"
    ∷ number_column "dir_ctime_last" "s.ctime_last"
    ∷ []

pub record Sorting : Type 0 where
  pub key : String
  pub column : String

abbrev sorting : String → String → Sorting
sorting key column = record { key = key; column = column }

abbrev pub search_sort_columns : List Sorting
search_sort_columns =
    sorting "path" "f.path"
    ∷ sorting "size_bytes" "f.size_bytes"
    ∷ sorting "uid" "f.uid"
    ∷ sorting "gid" "f.gid"
    ∷ sorting "file_type" "f.file_type"
    ∷ sorting "mtime" "f.mtime"
    ∷ sorting "atime" "f.atime"
    ∷ sorting "ctime" "f.ctime"
    ∷ sorting "dir_total_size" "s.total_size_bytes"
    ∷ sorting "dir_file_count" "s.file_count"
    ∷ sorting "dir_mtime_first" "s.mtime_first"
    ∷ sorting "dir_mtime_last" "s.mtime_last"
    ∷ sorting "dir_atime_first" "s.atime_first"
    ∷ sorting "dir_atime_last" "s.atime_last"
    ∷ sorting "dir_ctime_first" "s.ctime_first"
    ∷ sorting "dir_ctime_last" "s.ctime_last"
    ∷ []

pub record SizeUnit : Type 0 where
  pub suffix : String
  pub bytes : ℕ

abbrev size_unit : String → ℕ → SizeUnit
size_unit suffix bytes = record { suffix = suffix; bytes = bytes }

-- Longest first.
abbrev pub size_units : List SizeUnit
size_units =
    size_unit "PB" (2 ^ 50)
    ∷ size_unit "TB" (2 ^ 40)
    ∷ size_unit "GB" (2 ^ 30)
    ∷ size_unit "MB" (2 ^ 20)
    ∷ size_unit "KB" (2 ^ 10)
    ∷ size_unit "P" (2 ^ 50)
    ∷ size_unit "T" (2 ^ 40)
    ∷ size_unit "G" (2 ^ 30)
    ∷ size_unit "M" (2 ^ 20)
    ∷ size_unit "K" (2 ^ 10)
    ∷ []

-- ===== src/Search/Csv/Tests.antt =====
-- The exported file at concrete results, and the theorem there.
use cuttlefish.Common.{◌≡◌, refl, false, List, [], ◌∷◌, some, none, map, All}
use cuttlefish.Common.Text.{join, includes}
use cuttlefish.Types.{Entry}
use cuttlefish.Format.{Print}
use cuttlefish.Search.Columns.{active_columns, contains, contains, ResultColumn}
use cuttlefish.Search.Columns.Shown.{}
use cuttlefish.Search.Saved.{}
use cuttlefish.Search.Csv.{
  download, text_start, dashes, starts_formula, as_text, csv_row, escape, export_csv,
}
use cuttlefish.Search.Csv.Reader.{read_csv}
use cuttlefish.Search.Csv.File.{header_of, cells, read_csv-export_csv}
use cuttlefish.Search.Page.Visit.{}
use cuttlefish.Search.Tests.{file_at}

abbrev path_column : ResultColumn
path_column = record {
  key = "path";
  label = "Path";
  csv_label = none;
  sort_key = some "path";
  align = none;
  csv = λ e. e.path;
  cell = λ e. e.path;
}

quoted_comma :
    csv_row (path_column ∷ path_column ∷ []) (file_at "=a,\"b") ≡ "\"'=a,\"\"b\",\"'=a,\"\"b\""
unfolding csv_row join includes
quoted_comma = refl

abbrev printer : Print
printer = record {
  log_1024 = λ n. 0;
  two_places = λ n i. "2";
  one_place = λ a b. "1";
  grouped = λ n. "n";
  locale_date = λ s. "date";
  iso_date = λ s. "iso";
}

abbrev two_columns : List ResultColumn
two_columns = active_columns printer ("user" ∷ "path" ∷ [])

abbrev odd_files : List Entry
odd_files = file_at "=a,\"b" ∷ file_at "c\nd" ∷ []

read_csv-export_csv_example :
    (read_csv (export_csv two_columns odd_files)
      ≡ map header_of two_columns ∷ map (cells two_columns) odd_files)
    × All (All (λ s. starts_formula s ≡ false)) (map (cells two_columns) odd_files)
read_csv-export_csv_example =
    read_csv-export_csv printer ("user" ∷ "path" ∷ []) odd_files
      (unfold active_columns contains in λ e. cc)

-- A carriage return inside a value is left as it is.
carriage_return : escape "a\r=1" ≡ "a\r=1"
unfolding escape as_text includes
carriage_return = refl

-- The colons of the time are no part of the file's name.
file_name :
    (download "2026-01-02T03:04:05.678Z" two_columns odd_files).name
    ≡ "cuttlefish-search-2026-01-02T03-04-05.csv"
unfolding download text_start dashes
file_name = refl

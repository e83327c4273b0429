-- ===== src/Search/Csv.antt =====
-- fs_ui/src/pages/SearchPage.tsx: the export of the results.
pub mod Reader
pub mod Reading
pub mod File
mod Tests
use cuttlefish.Common.{
  ℕ, zero, suc, Bool, true, false, ◌||◌, ◌==◌, String, List, [], ◌∷◌, Option, none, some, map, code,
  if◌then◌else◌, get_or_else,
}
use cuttlefish.Common.Text.{◌<>◌, includes, join}
use cuttlefish.Types.{Entry}
use cuttlefish.Search.Columns.{ResultColumn}

-- `/^[=+\-@\t\r]/.test(s)`: a spreadsheet would take the text for a formula.
unfoldable pub starts_formula : String → Bool
starts_formula String.[] = false
starts_formula (String.◌∷◌ c s) =
    code c == b'='
    || code c == b'+'
    || code c == b'-'
    || code c == b'@'
    || code c == 9
    || code c == 13

-- `'${s}` where the text would be a formula
unfoldable pub as_text : String → String
unfolding starts_formula
as_text s = if starts_formula s then "'" <> s else s

-- `s.replace(/"/g, '""')`
unfoldable pub double_quotes : String → String
double_quotes String.[] = String.[]
double_quotes (String.◌∷◌ c s) =
    let rest = double_quotes s in
    if code c == 34 then String.◌∷◌ c (String.◌∷◌ c rest) else String.◌∷◌ c rest

abbrev pub needs_quotes : String → Bool
needs_quotes s = includes b',' s || includes 34 s || includes 10 s

abbrev pub quote : String
quote = "\""

unfoldable pub escape : String → String
unfolding as_text double_quotes
escape v = let s = as_text v in if needs_quotes s then quote <> double_quotes s <> quote else s

unfoldable pub csv_row : List ResultColumn → Entry → String
unfolding escape
csv_row columns e = join "," (map escape (map (λ (c : ResultColumn). c.csv e) columns))

-- The text of the exported file.
unfoldable pub export_csv : List ResultColumn → List Entry → String
unfolding csv_row
export_csv columns results = join "\n" (
    join "," (map (λ (c : ResultColumn). get_or_else c.csv_label c.label) columns)
    ∷ map (csv_row columns) results)

-- `slice(0, n)`
unfoldable pub text_start : ℕ → String → String
text_start zero s = String.[]
text_start (suc n) String.[] = String.[]
text_start (suc n) (String.◌∷◌ c s) = String.◌∷◌ c (text_start n s)

-- `replace(/:/g, '-')`
unfoldable pub dashes : String → String
dashes String.[] = String.[]
dashes (String.◌∷◌ c s) =
    let rest = dashes s in if code c == 58 then "-" <> rest else String.◌∷◌ c rest

-- The file that the browser is given. `iso` is `new Date().toISOString()`.
pub record Download : Type 0 where
  pub name : String
  pub media_type : String
  pub content : String

unfoldable pub download : String → List ResultColumn → List Entry → Download
unfolding text_start dashes export_csv
download iso columns results = record {
  name = "cuttlefish-search-" <> dashes (text_start 19 iso) <> ".csv";
  media_type = "text/csv;charset=utf-8;";
  content = export_csv columns results;
}

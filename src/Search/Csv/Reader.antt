-- ===== src/Search/Csv/Reader.antt =====
-- A reader of comma-separated values after RFC 4180, for the file of exportCsv in
-- fs_ui/src/pages/SearchPage.tsx. A record ends at a line feed.
use cuttlefish.Common.{ℕ, ◌==◌, String, List, [], ◌∷◌, code, Char, if◌then◌else◌}

-- Where the reader stands: at the first character of a field, in one that is not quoted, in a
-- quoted one, or behind a quotation mark of a quoted one.
pub data Place : Type 0 where
  opening plain quoted closing : Place

abbrev pub outside : ℕ → Place
outside k = if k == b',' then opening else if k == 10 then opening else plain

abbrev pub next : Place → ℕ → Place
next opening k = if k == 34 then quoted else outside k
next plain k = outside k
next quoted k = if k == 34 then closing else quoted
next closing k = if k == 34 then quoted else outside k

-- The field under way, those behind it in its record, and the records behind that.
pub record Document : Type 0 where
  pub field : String
  pub fields : List String
  pub records : List (List String)

abbrev pub longer : Char → Document → Document
longer c d = record d { field = String.◌∷◌ c d.field }

abbrev pub field_ends : Document → Document
field_ends d = record { field = ""; fields = d.field ∷ d.fields; records = d.records }

abbrev pub record_ends : Document → Document
record_ends d = record { field = ""; fields = []; records = (d.field ∷ d.fields) ∷ d.records }

abbrev pub unquoted : Char → Document → Document
unquoted c d =
    if code c == b',' then field_ends d else if code c == 10 then record_ends d else longer c d

abbrev pub add : Place → Char → Document → Document
add opening c d = if code c == 34 then d else unquoted c d
add plain c d = unquoted c d
add quoted c d = if code c == 34 then d else longer c d
add closing c d = if code c == 34 then longer c d else unquoted c d

unfoldable pub read : Place → String → Document
read p String.[] = record { field = ""; fields = []; records = [] }
read p (String.◌∷◌ c s) = add p c (read (next p (code c)) s)

-- The records of a text: a field in quotation marks may hold commas and line feeds, and a quotation
-- mark in it is doubled.
unfoldable pub read_csv : String → List (List String)
unfolding read
read_csv s = let d = read opening s in (d.field ∷ d.fields) ∷ d.records

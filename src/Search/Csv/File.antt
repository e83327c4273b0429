-- ===== src/Search/Csv/File.antt =====
-- fs_ui/src/pages/SearchPage.tsx: the file of exportCsv, read as a spreadsheet reads it.
use text.Mathlib.TextLemmas.{cons-append, append-nil}
use mathlib.Core.Path.{subst}
use cuttlefish.Common.{
  false, String, List, [], ◌∷◌, ◌≡◌, refl, ◌≢◌, ap, sym, ◌∙◌, map, Bool-cases, inl, inr, arith, All,
  All-filter, get_or_else, All-of_forall, All-map, All-imp, Bool, true, ◌&&◌, not, all, all-All,
}
use cuttlefish.Common.Text.{◌<>◌, includes, join}
use cuttlefish.Format.{Print}
use cuttlefish.Search.Csv.{starts_formula, as_text, escape, csv_row, export_csv}
use cuttlefish.Search.Csv.Reader.{opening, Document, record_ends, read, read_csv}
use cuttlefish.Search.Columns.{ResultColumn, columns, active_columns, contains}
use cuttlefish.Types.{Entry}
use cuttlefish.Search.Csv.Reading.{
  IsField, IsRecord, IsEnd, IsEnd-nil, IsEnd-line, escape-field, join-IsRecord, plain_field,
}

-- A record's text and its fields.
record Line : Type 0 where
  text : String
  first : String
  others : List String

abbrev IsRead : Line → Type 0
IsRead l = IsRecord l.text l.first l.others

read-join :
    (l : Line) (ls : List Line)
    → All IsRead (l ∷ ls)
    → read opening (join "\n" (map (λ (k : Line). k.text) (l ∷ ls))) ≡ record {
      field = l.first;
      fields = l.others;
      records = map (λ (k : Line). k.first ∷ k.others) ls;
    }
unfolding join
read-join l [] h = ap (read opening) (sym (append-nil l.text)) ∙ h.0 "" [] IsEnd-nil
read-join l (k ∷ ls) h =
    let tail = join "\n" (map (λ (k : Line). k.text) (k ∷ ls)) in
    h.0 ("\n" <> tail) _
      (subst (IsEnd ("\n" <> tail)) (ap record_ends (read-join k ls h.1)) (IsEnd-line tail))

as_text-starts_formula : (s : String) → starts_formula (as_text s) ≡ false
unfolding as_text starts_formula
as_text-starts_formula s = elim (Bool-cases (starts_formula s)) [
  | inl e ↦ rw e (rw cons-append refl)
  | inr e ↦ rw e e
]

All-as_text :
    {A : Type 0} (f : A → String) (xs : List A)
    → All (λ s. starts_formula s ≡ false) (map (λ x. as_text (f x)) xs)
All-as_text f [] = tt
All-as_text f (x ∷ xs) = (as_text-starts_formula (f x), All-as_text f xs)

map-map :
    {A B C : Type 0} (f : B → C) (g : A → B) (xs : List A)
    → map f (map g xs) ≡ map (λ x. f (g x)) xs
map-map f g [] = refl
map-map f g (x ∷ xs) = ap (λ ys. f (g x) ∷ ys) (map-map f g xs)

abbrev pub header_of : ResultColumn → String
header_of c = get_or_else c.csv_label c.label

-- A header that needs no quotation marks, which exportCsv does not put round it.
abbrev is_plain : ResultColumn → Bool
is_plain c =
    not (includes b',' (header_of c))
    && not (includes 34 (header_of c))
    && not (includes 10 (header_of c))

header-IsField : (c : ResultColumn) → is_plain c ≡ true → IsField (header_of c) (header_of c)
header-IsField c h t r end =
    plain_field (header_of c) t (ground arith) (ground arith) (ground arith) end

columns-is_plain : (p : Print) → all is_plain (columns p) ≡ true
unfolding includes
columns-is_plain p = refl

abbrev pub cells : List ResultColumn → Entry → List String
cells cols e = map (λ (c : ResultColumn). as_text (c.csv e)) cols

row-IsRecord :
    (c : ResultColumn) (cs : List ResultColumn) (e : Entry)
    → IsRecord (csv_row (c ∷ cs) e) (as_text (c.csv e)) (cells cs e)
unfolding csv_row
row-IsRecord c cs e = rw (map-map escape (λ (d : ResultColumn). d.csv e) (c ∷ cs)) (
    join-IsRecord (λ (d : ResultColumn). escape (d.csv e)) (λ (d : ResultColumn). as_text (d.csv e))
      c cs (All-of_forall _ (c ∷ cs) (λ d t r end. escape-field (d.csv e) t end)))

header_line : ResultColumn → List ResultColumn → Line
header_line c cs = record {
  text = join "," (map header_of (c ∷ cs));
  first = header_of c;
  others = map header_of cs;
}

row_line : ResultColumn → List ResultColumn → Entry → Line
row_line c cs e = record {
  text = csv_row (c ∷ cs) e;
  first = as_text (c.csv e);
  others = cells cs e;
}

read-export :
    (c : ResultColumn) (cs : List ResultColumn) (results : List Entry)
    → All (λ d. is_plain d ≡ true) (c ∷ cs)
    → read_csv (export_csv (c ∷ cs) results) ≡ map header_of (c ∷ cs) ∷ map (cells (c ∷ cs)) results
unfolding read_csv export_csv header_line row_line
read-export c cs results h =
    let lines = map (row_line c cs) results in
    let read_all = read-join (header_line c cs) lines (
      join-IsRecord header_of header_of c cs (All-imp _ _ (c ∷ cs) (λ d k. header-IsField d k) h),
      All-map IsRead (row_line c cs) results (All-of_forall _ results (λ e. row-IsRecord c cs e)),
    ) in
    rw (← map-map (λ (k : Line). k.text) (row_line c cs) results) (
      ap (λ (d : Document). (d.field ∷ d.fields) ∷ d.records) read_all
      ∙ rw (map-map (λ (k : Line). k.first ∷ k.others) (row_line c cs) results) refl)

cells-IsText :
    (cols : List ResultColumn) (results : List Entry)
    → All (All (λ s. starts_formula s ≡ false)) (map (cells cols) results)
cells-IsText cols [] = tt
cells-IsText cols (e ∷ es) =
    (All-as_text (λ (c : ResultColumn). c.csv e) cols, cells-IsText cols es)

-- The exported file, with at least one column on screen, reads back as it was meant: its first
-- record has the headers, and each record behind it the values of one result in the order of the
-- columns, whatever commas, quotation marks and line feeds are in them, each marked as text where it
-- would be a formula; and no value starts a formula.
pub read_csv-export_csv :
    (p : Print) (keys : List String) (results : List Entry)
    → let cols = active_columns p keys in
      cols ≢ []
      → (read_csv (export_csv cols results) ≡ map header_of cols ∷ map (cells cols) results)
        × All (All (λ s. starts_formula s ≡ false)) (map (cells cols) results)
unfolding active_columns
read_csv-export_csv p keys results h =
    let cols = active_columns p keys in
    (
      by_columns cols h (
          All-filter (λ c. is_plain c ≡ true) (λ c. contains keys c.key) (columns p)
            (all-All is_plain (columns p) (columns-is_plain p))),
      cells-IsText cols results,
    )
  where
    by_columns :
        (cols : List ResultColumn)
        → cols ≢ []
        → All (λ d. is_plain d ≡ true) cols
        → read_csv (export_csv cols results) ≡ map header_of cols ∷ map (cells cols) results
    by_columns [] n k = absurd (n refl)
    by_columns (c ∷ cs) n k = read-export c cs results k

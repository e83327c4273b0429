-- ===== src/Search/Csv/Reading.antt =====
-- fs_ui/src/pages/SearchPage.tsx: a field and a row of exportCsv, read as a spreadsheet reads them.
use text.Mathlib.TextLemmas.{nil-append, cons-append, append-nil, append_assoc}
use cuttlefish.Common.{
  ◌==◌, false, String, List, [], ◌∷◌, ◌≡◌, refl, ap, sym, ◌∙◌, map, code, Bool-cases, inl, inr,
  arith, All,
}
use cuttlefish.Common.Text.{◌<>◌, includes, join}
use cuttlefish.Search.Csv.{as_text, double_quotes, needs_quotes, quote, escape}
use cuttlefish.Search.Csv.Reader.{
  opening, plain, quoted, closing, Document, longer, field_ends, record_ends, read,
}

abbrev pub before : String → Document → Document
before s r = record r { field = s <> r.field }

before_nil : (r : Document) → before "" r ≡ r
before_nil r = rw nil-append refl

plain-run :
    (s t : String)
    → includes b',' s ≡ false
    → includes 10 s ≡ false
    → read plain (s <> t) ≡ before s (read plain t)
unfolding read includes
plain-run String.[] t h l = rw nil-append (sym (before_nil _))
plain-run (String.◌∷◌ c s) t h l =
    let not_comma : (code c == b',') ≡ false = ground arith in
    let not_line : (code c == 10) ≡ false = ground arith in
    rw (cons-append c s t, not_comma, not_line, cons-append c s (read plain t).field)
      (ap (longer c) (plain-run s t (ground arith) (ground arith)))

quoted-run :
    (s t : String) → read quoted (double_quotes s <> quote <> t) ≡ before s (read closing t)
unfolding read double_quotes
quoted-run String.[] t = rw (nil-append, cons-append) (rw nil-append (sym (before_nil _)))
quoted-run (String.◌∷◌ c s) t = elim (Bool-cases (code c == 34)) [
  | inl e ↦
      rw (e, cons-append, cons-append, e, cons-append c s (read closing t).field)
        (rw e (ap (longer c) (quoted-run s t)))
  | inr e ↦
      rw (e, cons-append, e, cons-append c s (read closing t).field)
        (ap (longer c) (quoted-run s t))
]

-- The text ends the field under way, wherever in it the reader stands.
pub record IsEnd (t : String) (r : Document) : Type 0 where
  pub at_opening : read opening t ≡ r
  pub in_plain : read plain t ≡ r
  pub at_closing : read closing t ≡ r

pub plain_field :
    (s t : String) {r : Document}
    → includes b',' s ≡ false
    → includes 34 s ≡ false
    → includes 10 s ≡ false
    → IsEnd t r
    → read opening (s <> t) ≡ before s r
unfolding read includes
plain_field String.[] t {r} p q l end = rw nil-append (end.at_opening ∙ sym (before_nil r))
plain_field (String.◌∷◌ c s) t {r} p q l end =
    let not_quote : (code c == 34) ≡ false = ground arith in
    let not_comma : (code c == b',') ≡ false = ground arith in
    let not_line : (code c == 10) ≡ false = ground arith in
    rw (cons-append c s t, not_quote, not_comma, not_line, cons-append c s r.field)
      (ap (longer c) (plain-run s t (ground arith) (ground arith) ∙ ap (before s) end.in_plain))

opened :
    (s t : String)
    → read opening (quote <> double_quotes s <> quote <> t) ≡ before s (read closing t)
unfolding read
opened s t = rw (cons-append, nil-append) (quoted-run s t)

pub escape-field :
    (v t : String) {r : Document} → IsEnd t r → read opening (escape v <> t) ≡ before (as_text v) r
unfolding escape
escape-field v t {r} end = elim (Bool-cases (needs_quotes (as_text v))) [
  | inl e ↦
      rw (e, append_assoc quote (double_quotes (as_text v) <> quote) t)
        (rw (append_assoc (double_quotes (as_text v)) quote t)
          (opened (as_text v) t ∙ ap (before (as_text v)) end.at_closing))
  | inr e ↦ rw e (plain_field (as_text v) t (ground arith) (ground arith) (ground arith) end)
]

-- The document behind a record that ends.
abbrev pub behind : List (List String) → Document
behind rs = record { field = ""; fields = []; records = rs }

pub IsEnd-nil : IsEnd "" (behind [])
unfolding read
IsEnd-nil = record { at_opening = refl; in_plain = refl; at_closing = refl }

IsEnd-comma : (s : String) → IsEnd ("," <> s) (field_ends (read opening s))
unfolding read
IsEnd-comma s = record {
  at_opening = rw (cons-append, nil-append) refl;
  in_plain = rw (cons-append, nil-append) refl;
  at_closing = rw (cons-append, nil-append) refl;
}

pub IsEnd-line : (s : String) → IsEnd ("\n" <> s) (record_ends (read opening s))
unfolding read
IsEnd-line s = record {
  at_opening = rw (cons-append, nil-append) refl;
  in_plain = rw (cons-append, nil-append) refl;
  at_closing = rw (cons-append, nil-append) refl;
}

-- The text w is read as one field, v.
abbrev pub IsField : String → String → Type 0
IsField w v = (t : String) (r : Document) → IsEnd t r → read opening (w <> t) ≡ before v r

-- The text w is read as one record, of the fields v and vs.
abbrev pub IsRecord : String → String → List String → Type 0
IsRecord w v vs =
    (t : String) (rs : List (List String))
    → IsEnd t (behind rs)
    → read opening (w <> t) ≡ record { field = v; fields = vs; records = rs }

pub join-IsRecord :
    {A : Type 0} (f g : A → String) (x : A) (xs : List A)
    → All (λ a. IsField (f a) (g a)) (x ∷ xs)
    → IsRecord (join "," (map f (x ∷ xs))) (g x) (map g xs)
unfolding join
join-IsRecord f g x [] h t rs end = h.0 t (behind rs) end ∙ rw append-nil refl
join-IsRecord f g x (y ∷ xs) h t rs end =
    let tail = join "," (map f (y ∷ xs)) in
    rw (append_assoc (f x) ("," <> tail) t, append_assoc "," tail t)
      (h.0 ("," <> (tail <> t)) (field_ends (read opening (tail <> t))) (IsEnd-comma (tail <> t))
        ∙ rw (append-nil, join-IsRecord f g y xs h.1 t rs end) refl)

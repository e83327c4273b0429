-- ===== src/Server/Tests/Postgres.antt =====
-- A LIKE as PostgreSQL documents it, and tables to search.
use text.Mathlib.TextLemmas.{cons-append, nil-append}
use cuttlefish.Common.{
  Char, code, ◌==◌, Bool, true, false, ◌&&◌, ◌||◌, String, ◌≡◌, refl, ◌∙◌, ap, arith, str_eq,
  if◌then◌else◌,
}
use cuttlefish.Common.Text.{◌<>◌}
use cuttlefish.Server.Search.Meaning.{Like, Database, is_plain}

abbrev pub literal : Char → (String → Bool) → String → Bool
literal c p String.[] = false
literal c p (String.◌∷◌ d s) = (code d == code c) && p s

abbrev pub one_character : (String → Bool) → String → Bool
one_character p String.[] = false
one_character p (String.◌∷◌ d s) = p s

abbrev pub some_end : (String → Bool) → String → Bool
some_end p String.[] = p ""
some_end p (String.◌∷◌ d s) = p (String.◌∷◌ d s) || some_end p s

abbrev backslash : Char
backslash = "\\"

-- The flag says that the character before was the backslash.
unfoldable pub like_from : Bool → String → String → Bool
like_from true String.[] s = false
like_from false String.[] s = str_eq s ""
like_from true (String.◌∷◌ c p) s = literal c (like_from false p) s
like_from false (String.◌∷◌ c p) s =
    let next = like_from false p in
    let escaped = like_from true p s in
    if code c == 92
    then escaped
    else if code c == b'%'
    then some_end next s
    else if code c == b'_'
    then one_character next s
    else literal c next s

some_end-true : (s : String) → some_end (λ t. str_eq t "") s ≡ true
some_end-true String.[] = refl
some_end-true (String.◌∷◌ d s) = let rest = some_end-true s in ground arith

pub like_from-plain :
    (c : Char) (p s : String)
    → is_plain c ≡ true
    → like_from false (String.◌∷◌ c p) s ≡ literal c (like_from false p) s
unfolding like_from
like_from-plain c p s h = ground arith

pub like_from-any : (s : String) → like_from false "%" s ≡ true
unfolding like_from
like_from-any s = some_end-true s

pub like_from-escaped :
    (c : Char) (p s : String)
    → like_from false ("\\" <> String.◌∷◌ c p) s ≡ literal c (like_from false p) s
unfolding like_from
like_from-escaped c p s =
    ap (λ t. like_from false t s)
      (cons-append backslash "" (String.◌∷◌ c p)
        ∙ ap (String.◌∷◌ backslash) (nil-append (String.◌∷◌ c p)))

abbrev pub postgres : Like
postgres = record {
  like = like_from false;
  any_text = like_from-any;
  escaped = λ c d p s. like_from-escaped c p (String.◌∷◌ d s);
  escaped_end = λ c p. like_from-escaped c p "";
  plain = λ c d p s h. like_from-plain c p (String.◌∷◌ d s) h;
  plain_end = λ c p h. like_from-plain c p "" h;
}

-- Rows that are their paths, all of whose columns compare with every value.
abbrev pub paths : Database
paths = record {
  Row = String;
  path = λ p. p;
  compares = λ column op v p. true;
  patterns = postgres;
}

matches_below : like_from false "/srv/a\\_b/%" "/srv/a_b/x" ≡ true
unfolding like_from
matches_below = refl

matches_itself_only : like_from false "/srv/a\\_b/%" "/srv/axb/x" ≡ false
unfolding like_from
matches_itself_only = refl

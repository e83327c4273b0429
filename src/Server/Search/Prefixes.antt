-- ===== src/Server/Search/Prefixes.antt =====
-- The scope of a search holds of what is below a prefix.
use text.Mathlib.TextLemmas.{cons-append, append_assoc}
use cuttlefish.Common.{
  ℕ, zero, suc, ◌+◌, Char, code, ◌==◌, true, false, ◌&&◌, ◌||◌, String, List, [], ◌∷◌, ◌++◌, some,
  any, any-append, length, get_elem?, All, All-append, All-imp, ◌≡◌, refl, ap, ◌∙◌, arith, str_eq,
  Bool-cases, inl, inr,
}
use cuttlefish.Common.Text.{◌<>◌, starts_with}
use cuttlefish.Server.Access.{is_within}
use cuttlefish.Server.Query.{Value, text_value, escape_like, Condition, Connector}
use cuttlefish.Server.Search.{ScopePart, no_row, scope_part, scope_values, scope_loop, scope_clause}
use cuttlefish.Server.Search.Meaning.{
  Like, is_plain, Database, value_at, condition_holds, part_holds, scope_holds,
}

abbrev slash : Char
slash = "/"

escape_like-plain :
    (c : Char) (p : String)
    → is_plain c ≡ true
    → escape_like (String.◌∷◌ c p) <> "/%" ≡ String.◌∷◌ c (escape_like p <> "/%")
unfolding escape_like
escape_like-plain c p e = ap (λ t. t <> "/%") (ground arith) ∙ cons-append c (escape_like p) "/%"

escape_like-escaped :
    (c : Char) (p : String)
    → is_plain c ≡ false
    → escape_like (String.◌∷◌ c p) <> "/%" ≡ "\\" <> String.◌∷◌ c (escape_like p <> "/%")
unfolding escape_like
escape_like-escaped c p e =
    ap (λ t. t <> "/%") (ground arith)
    ∙ append_assoc "\\" (String.◌∷◌ c (escape_like p)) "/%"
    ∙ ap (λ t. "\\" <> t) (cons-append c (escape_like p) "/%")

-- The escaped prefix and "/%" match what begins with the prefix and a slash.
module _ (l : Like) where
  like-cons :
      (c d : Char) (p s : String)
      → l.like (escape_like (String.◌∷◌ c p) <> "/%") (String.◌∷◌ d s)
        ≡ ((code d == code c) && l.like (escape_like p <> "/%") s)
  like-cons c d p s = elim (Bool-cases (is_plain c)) [
    | inl e ↦ rw (escape_like-plain c p e) (l.plain c d (escape_like p <> "/%") s e)
    | inr e ↦ rw (escape_like-escaped c p e) (l.escaped c d (escape_like p <> "/%") s)
  ]

  like-cons_end : (c : Char) (p : String) → l.like (escape_like (String.◌∷◌ c p) <> "/%") "" ≡ false
  like-cons_end c p = elim (Bool-cases (is_plain c)) [
    | inl e ↦ rw (escape_like-plain c p e) (l.plain_end c (escape_like p <> "/%") e)
    | inr e ↦ rw (escape_like-escaped c p e) (l.escaped_end c (escape_like p <> "/%"))
  ]

  escape_like-empty : escape_like "" ≡ ""
  unfolding escape_like
  escape_like-empty = refl

  like-prefix : (p s : String) → l.like (escape_like p <> "/%") s ≡ starts_with s (p <> "/")
  unfolding starts_with
  like-prefix String.[] String.[] = rw escape_like-empty (l.plain_end slash "%" refl)
  like-prefix String.[] (String.◌∷◌ d s) =
      rw escape_like-empty
        (l.plain slash d "%" s refl ∙ ap (λ b. (code d == b'/') && b) (l.any_text s))
  like-prefix (String.◌∷◌ c p) String.[] = like-cons_end c p ∙ rw (cons-append c p "/") refl
  like-prefix (String.◌∷◌ c p) (String.◌∷◌ d s) =
      like-cons c d p s
      ∙ rw (cons-append c p "/") (ap (λ b. (code d == code c) && b) (like-prefix p s))

get_elem?-append_left :
    (xs ys : List Value) (i : ℕ) {v : Value}
    → get_elem? xs i ≡ some v
    → get_elem? (xs ++ ys) i ≡ some v
get_elem?-append_left [] ys i e = cc
get_elem?-append_left (x ∷ xs) ys zero e = e
get_elem?-append_left (x ∷ xs) ys (suc i) e = get_elem?-append_left xs ys i e

pub get_elem?-at_end :
    (xs : List Value) (v : Value) (ys : List Value) → get_elem? (xs ++ v ∷ ys) (length xs) ≡ some v
get_elem?-at_end [] v ys = refl
get_elem?-at_end (x ∷ xs) v ys = get_elem?-at_end xs v ys

get_elem?-behind_end :
    (xs : List Value) (v w : Value) → get_elem? (xs ++ v ∷ w ∷ []) (suc (length xs)) ≡ some w
get_elem?-behind_end [] v w = refl
get_elem?-behind_end (x ∷ xs) v w = get_elem?-behind_end xs v w

value_at-first :
    (xs : List Value) (v w : Value) → value_at (xs ++ v ∷ w ∷ []) (length xs + 1) ≡ some v
value_at-first xs v w =
    let n : length xs + 1 ≡ suc (length xs) = omega arith in rw n (get_elem?-at_end xs v (w ∷ []))

value_at-second :
    (xs : List Value) (v w : Value) → value_at (xs ++ v ∷ w ∷ []) (length xs + 2) ≡ some w
value_at-second xs v w =
    let n : length xs + 2 ≡ suc (suc (length xs)) = omega arith in
    rw n (get_elem?-behind_end xs v w)

is_within-root : (q p : String) → str_eq p "/" ≡ true → is_within q p ≡ true
unfolding is_within
is_within-root q p e = rw e refl

pub value_at-append :
    (xs ys : List Value) (n : ℕ) {v : Value}
    → value_at xs n ≡ some v
    → value_at (xs ++ ys) n ≡ some v
value_at-append xs ys zero e = cc
value_at-append xs ys (suc n) e = get_elem?-append_left xs ys n e

-- A condition whose value stands in the list.
abbrev pub IsGiven : List Value → Connector × Condition → Type 0
IsGiven args (k, c) = (v : Value) × (value_at args c.param ≡ some v)

module _ (db : Database) (row : db.Row) where
  -- A part whose values stand in the list.
  abbrev IsBound : List Value → ScopePart → Type 0
  IsBound args s =
      ((t : String) × (value_at args s.exact ≡ some (text_value t)))
      × ((p : String) × (value_at args s.below ≡ some (text_value p)))

  IsBound-append :
      (args more : List Value) (s : ScopePart) → IsBound args s → IsBound (args ++ more) s
  IsBound-append args more s ((t, e), (p, f)) =
      ((t, value_at-append args more s.exact e), (p, value_at-append args more s.below f))

  part_holds-append :
      (args more : List Value) (s : ScopePart)
      → IsBound args s
      → part_holds db (args ++ more) row s ≡ part_holds db args row s
  unfolding part_holds
  part_holds-append args more s ((t, e), (p, f)) =
      rw (value_at-append args more s.exact e)
        (rw (value_at-append args more s.below f) (rw e (rw f refl)))

  parts_hold-append :
      (args more : List Value) (parts : List ScopePart)
      → All (IsBound args) parts
      → any (part_holds db (args ++ more) row) parts ≡ any (part_holds db args row) parts
  parts_hold-append args more [] h = refl
  parts_hold-append args more (s ∷ parts) (h, hs) =
      rw (part_holds-append args more s h) (rw (parts_hold-append args more parts hs) refl)

  scope_part-IsBound :
      (p : String) (args : List Value) → IsBound (args ++ scope_values p) (scope_part args)
  scope_part-IsBound p args = (
    (p, value_at-first args (text_value p) (text_value (escape_like p <> "/%"))),
    (
      escape_like p <> "/%",
      value_at-second args (text_value p) (text_value (escape_like p <> "/%")),
    ),
  )

  scope_part-holds :
      (p : String) (args : List Value)
      → str_eq p "/" ≡ false
      → part_holds db (args ++ scope_values p) row (scope_part args) ≡ is_within (db.path row) p
  unfolding part_holds is_within
  scope_part-holds p args n =
      rw (value_at-first args (text_value p) (text_value (escape_like p <> "/%"))) (
        rw (value_at-second args (text_value p) (text_value (escape_like p <> "/%")))
          (rw (like-prefix db.patterns p (db.path row)) (rw n refl)))

  scope_loop-holds :
      (prefixes : List String) (args : List Value) (parts : List ScopePart)
      → All (IsBound args) parts
      → scope_holds db (scope_loop prefixes args parts).1 row (scope_loop prefixes args parts).0
        ≡ (any (part_holds db args row) parts || any (is_within (db.path row)) prefixes)
  unfolding scope_loop scope_holds
  scope_loop-holds [] args parts h = ground arith
  scope_loop-holds (p ∷ prefixes) args parts h = elim (Bool-cases (str_eq p "/")) [
    | inl e ↦ rw e (let root = is_within-root (db.path row) p e in ground arith)
    | inr e ↦ rw e (
        scope_loop-holds prefixes (args ++ scope_values p) (parts ++ scope_part args ∷ []) (
          All-append (IsBound (args ++ scope_values p)) parts (scope_part args ∷ [])
            (All-imp _ _ parts (IsBound-append args (scope_values p)) h)
            (scope_part-IsBound p args, tt))
        ∙ rw (any-append (part_holds db (args ++ scope_values p) row) parts (scope_part args ∷ []))
            (rw (parts_hold-append args (scope_values p) parts h)
              (rw (scope_part-holds p args e) (ground arith))))
  ]

  scope_holds-no_row : (args : List Value) → scope_holds db args row no_row ≡ false
  unfolding scope_holds
  scope_holds-no_row args = refl

  pub scope_clause-holds :
      (prefixes : List String) (args : List Value)
      → scope_holds db (scope_clause prefixes args).1 row (scope_clause prefixes args).0
        ≡ any (is_within (db.path row)) prefixes
  unfolding scope_clause
  scope_clause-holds [] args = scope_holds-no_row args
  scope_clause-holds (p ∷ prefixes) args = scope_loop-holds (p ∷ prefixes) args [] tt

  pub condition_holds-append :
      (args more : List Value) (k : Connector × Condition)
      → IsGiven args k
      → condition_holds db (args ++ more) row k.1 ≡ condition_holds db args row k.1
  unfolding condition_holds
  condition_holds-append args more (k, c) (v, e) =
      rw (value_at-append args more c.param e) (rw e refl)

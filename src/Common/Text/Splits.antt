-- ===== src/Common/Text/Splits.antt =====
-- The parts of a text between slashes, and its beginnings.
use text.Mathlib.TextLemmas.{nil-append, cons-append, append-nil, append_assoc}
use text.Mathlib.TextEquality.{Char-path}
use cuttlefish.Common.{
  Char, code, true, false, String, List, [], ◌∷◌, ◌++◌, ◌==◌, ◌≡◌, ◌≢◌, refl, ap, sym, ◌∙◌, inl,
  filter-append, inr, arith, Bool-cases, eq_iff, and-eq-true, All, filter,
}
use cuttlefish.Common.Text.{◌<>◌, join, segments, split, split_from, starts_with, is_truthy}

pub starts_with-split : (s p : String) → starts_with s p ≡ true → (rest : String) × (s ≡ p <> rest)
unfolding starts_with
starts_with-split s String.[] h = (s, sym (nil-append s))
starts_with-split String.[] (String.◌∷◌ d p) h = cc
starts_with-split (String.◌∷◌ c s) (String.◌∷◌ d p) h =
    let both = and-eq-true _ _ h in
    let (rest, e) = starts_with-split s p both.1 in
    let head : c ≡ d = Char-path c d (ground arith) in
    (
      rest,
      ap (String.◌∷◌ c) e
          ∙ ap (λ (k : Char). String.◌∷◌ k (p <> rest)) head
          ∙ sym (cons-append d p rest),
    )

pub starts_with-append : (p rest : String) → starts_with (p <> rest) p ≡ true
unfolding starts_with
starts_with-append String.[] rest = refl
starts_with-append (String.◌∷◌ c p) rest =
    rw (cons-append c p rest) (ground (arith, starts_with-append p rest))

-- `b'/'` is 47.
abbrev pub NoSlash : String → Type 0
NoSlash String.[] = Unit
NoSlash (String.◌∷◌ c s) = ((code c == b'/') ≡ false) × NoSlash s

abbrev pub prepend : String → List String → List String
prepend a [] = []
prepend a (b ∷ r) = (a <> b) ∷ r

prepend-prepend : (a b : String) (l : List String) → prepend a (prepend b l) ≡ prepend (a <> b) l
prepend-prepend a b [] = refl
prepend-prepend a b (c ∷ r) = ap (λ (s : String). s ∷ r) (sym (append_assoc a b c))

split_from-prepend : (cur s : String) → split_from cur s ≡ prepend cur (split_from "" s)
unfolding split_from
split_from-prepend cur String.[] = ap (λ (s : String). s ∷ []) (sym (append-nil cur))
split_from-prepend cur (String.◌∷◌ c s) = elim (Bool-cases (code c == b'/')) [
  | inl e ↦ rw e (ap (λ (t : String). t ∷ split_from "" s) (sym (append-nil cur)))
  | inr e ↦ rw e (
      rw (nil-append (String.◌∷◌ c "")) (
        split_from-prepend (cur <> (String.◌∷◌ c "")) s
        ∙ sym (prepend-prepend cur (String.◌∷◌ c "") (split_from "" s))
        ∙ ap (prepend cur) (sym (split_from-prepend (String.◌∷◌ c "") s))))
]

abbrev slash : Char
slash = "/"

-- A slash ends a part.
split_from-slash :
    (cur x y : String) → split_from cur (x <> ("/" <> y)) ≡ split_from cur x ++ split_from "" y
unfolding split_from
split_from-slash cur String.[] y =
    rw (nil-append ("/" <> y)) (rw (cons-append slash "" y) (rw (nil-append y) refl))
split_from-slash cur (String.◌∷◌ c x) y =
    rw (cons-append c x ("/" <> y)) (elim (Bool-cases (code c == b'/')) [
      | inl e ↦ rw e (ap (λ l. cur ∷ l) (split_from-slash "" x y))
      | inr e ↦ rw e (split_from-slash (cur <> String.◌∷◌ c "") x y)
    ])

split_from-whole : (cur s : String) → NoSlash s → split_from cur s ≡ (cur <> s) ∷ []
unfolding split_from
split_from-whole cur String.[] h = ap (λ (t : String). t ∷ []) (sym (append-nil cur))
split_from-whole cur (String.◌∷◌ c s) (h, hs) = rw h (
    split_from-whole (cur <> String.◌∷◌ c "") s hs
    ∙ ap (λ (t : String). t ∷ [])
        (append_assoc cur (String.◌∷◌ c "") s
          ∙ ap (λ (t : String). cur <> t) (cons-append c "" s ∙ ap (String.◌∷◌ c) (nil-append s))))

-- The segments before a slash, and those behind it.
pub segments-slash : (x y : String) → segments (x <> ("/" <> y)) ≡ segments x ++ segments y
unfolding segments split
segments-slash x y =
    ap (filter is_truthy) (split_from-slash "" x y)
    ∙ filter-append is_truthy (split_from "" x) (split_from "" y)

-- A segment of a path.
pub record IsSegment (s : String) : Type 0 where
  pub filled : s ≢ ""
  pub whole : NoSlash s

pub segments-one : (s : String) → IsSegment s → segments s ≡ s ∷ []
unfolding segments split
segments-one s h =
    ap (filter is_truthy)
      (split_from-whole "" s h.whole ∙ ap (λ (t : String). t ∷ []) (nil-append s))
    ∙ ground (arith, eq_iff s "")

pub segments-nil : segments "" ≡ []
unfolding segments
segments-nil = refl

pub segments-join : (l : List String) → All IsSegment l → segments (join "/" l) ≡ l
unfolding join
segments-join [] h = segments-nil
segments-join (a ∷ []) (h, u) = segments-one a h
segments-join (a ∷ b ∷ l) (h, hs) =
    segments-slash a (join "/" (b ∷ l))
    ∙ rw (segments-one a h) (ap (λ r. a ∷ r) (segments-join (b ∷ l) hs))

pub NoSlash-append : (s t : String) → NoSlash s → NoSlash t → NoSlash (s <> t)
NoSlash-append String.[] t h k = rw (nil-append t) k
NoSlash-append (String.◌∷◌ c s) t (h, hs) k = rw (cons-append c s t) (h, NoSlash-append s t hs k)

split_from-NoSlash : (cur s : String) → NoSlash cur → All NoSlash (split_from cur s)
unfolding split_from
split_from-NoSlash cur String.[] h = (h, tt)
split_from-NoSlash cur (String.◌∷◌ c s) h = elim (Bool-cases (code c == b'/')) [
  | inl e ↦ rw e (h, split_from-NoSlash "" s tt)
  | inr e ↦ rw e (split_from-NoSlash (cur <> String.◌∷◌ c "") s (NoSlash-append cur _ h (e, tt)))
]

pub split-NoSlash : (s : String) → All NoSlash (split s)
unfolding split
split-NoSlash s = split_from-NoSlash "" s tt

-- ===== src/Server/Paths/Canonical.antt =====
-- Canonical paths are those that `path.Clean` makes, and that it leaves alone.
use mathlib.Core.List.{reverse, tail, append-nil, reverse-cons, append_assoc}
use mathlib.Core.Path.{subst}
use text.Mathlib.TextLemmas.{nil-append}
use cuttlefish.Common.{
  true, ◌||◌, String, List, [], ◌∷◌, ◌++◌, ◌≡◌, ◌≢◌, refl, ap, sym, ◌∙◌, arith, str_eq, eq_iff, All,
  All-append, filter, Bool-cases, inl, inr, ◌↔◌, and-eq-true,
}
use cuttlefish.Common.Text.{◌<>◌, join, split, segments, starts_with, is_truthy}
use cuttlefish.Common.Text.Splits.{
  segments-nil, NoSlash, IsSegment, split-NoSlash, segments-join, segments-slash,
  starts_with-append,
}
use cuttlefish.Server.Paths.{push_part, resolve, clean, is_canonical}

-- A name in a directory, which is not the directory itself or its parent.
pub record IsName (s : String) : Type 0 where
  pub segment : IsSegment s
  pub not_here : s ≢ "."
  pub not_parent : s ≢ ".."

pub record IsCanonical (p : String) : Type 0 where
  pub names : List String
  pub are_names : All IsName names
  pub spelled : p ≡ "/" <> join "/" names

pub names-segments : (l : List String) → All IsName l → All IsSegment l
names-segments [] h = tt
names-segments (s ∷ l) (h, hs) = (h.segment, names-segments l hs)

pub segments-path : (l : List String) → All IsName l → segments ("/" <> join "/" l) ≡ l
segments-path l h =
    ap segments (sym (nil-append ("/" <> join "/" l)))
    ∙ segments-slash "" (join "/" l)
    ∙ rw segments-nil (segments-join l (names-segments l h))

All-tail : (l : List String) → All IsName l → All IsName (tail l)
All-tail [] h = tt
All-tail (s ∷ l) h = h.1

All-reverse : (l : List String) → All IsName l → All IsName (reverse l)
All-reverse [] h = tt
All-reverse (s ∷ l) (h, hs) =
    rw (reverse-cons s l) (All-append IsName (reverse l) (s ∷ []) (All-reverse l hs) (h, tt))

push_part-names :
    (done : List String) (s : String) → All IsName done → NoSlash s → All IsName (push_part done s)
unfolding push_part
push_part-names done s h k = elim (Bool-cases (str_eq s "" || str_eq s ".")) [
  | inl e ↦ rw e h
  | inr e ↦ rw e (elim (Bool-cases (str_eq s "..")) [
    | inl f ↦ rw f (All-tail done h)
    | inr f ↦ rw f (
      record {
        segment = record { filled = ground (arith, eq_iff s ""); whole = k };
        not_here = ground (arith, eq_iff s ".");
        not_parent = ground (arith, eq_iff s "..");
      },
      h,
    )
  ])
]

resolve-names :
    (done parts : List String)
    → All IsName done
    → All NoSlash parts
    → All IsName (resolve done parts)
unfolding resolve
resolve-names done [] h k = All-reverse done h
resolve-names done (s ∷ parts) h (k, ks) =
    resolve-names (push_part done s) parts (push_part-names done s h k) ks

pub clean-IsCanonical : (p : String) → IsCanonical (clean p)
unfolding clean
clean-IsCanonical p = record {
  names = resolve [] (split p);
  are_names = resolve-names [] (split p) tt (split-NoSlash p);
  spelled = refl;
}

push_part_of_empty :
    (done : List String) (s : String) → str_eq s "" ≡ true → push_part done s ≡ done
unfolding push_part
push_part_of_empty done s e = rw e refl

-- Empty parts are passed over.
resolve-filled :
    (done parts : List String) → resolve done parts ≡ resolve done (filter is_truthy parts)
unfolding resolve
resolve-filled done [] = refl
resolve-filled done (s ∷ parts) = elim (Bool-cases (str_eq s "")) [
  | inl e ↦
      rw e (ap (λ d. resolve d parts) (push_part_of_empty done s e) ∙ resolve-filled done parts)
  | inr e ↦ rw e (resolve-filled (push_part done s) parts)
]

pub segments_of_IsCanonical : (p : String) (c : IsCanonical p) → segments p ≡ c.names
segments_of_IsCanonical p c = ap segments c.spelled ∙ segments-path c.names c.are_names

push_part_of_name : (done : List String) (s : String) → IsName s → push_part done s ≡ s ∷ done
unfolding push_part
push_part_of_name done s h =
    ground (arith, eq_iff s "", eq_iff s ".", eq_iff s "..", h.segment.filled)

resolve-segments : (p : String) → resolve [] (split p) ≡ resolve [] (segments p)
unfolding segments
resolve-segments p = resolve-filled [] (split p)

resolve_of_names : (done l : List String) → All IsName l → resolve done l ≡ reverse done ++ l
unfolding resolve
resolve_of_names done [] h = sym (append-nil (reverse done))
resolve_of_names done (s ∷ l) (h, hs) = rw (push_part_of_name done s h) (
    resolve_of_names (s ∷ done) l hs
    ∙ rw (reverse-cons s done) (append_assoc (reverse done) (s ∷ []) l))

clean_of_IsCanonical : (p : String) → IsCanonical p → clean p ≡ p
unfolding clean
clean_of_IsCanonical p c =
    ap (λ l. "/" <> join "/" l)
      (resolve-segments p
        ∙ ap (resolve []) (segments_of_IsCanonical p c)
        ∙ resolve_of_names [] c.names c.are_names)
    ∙ sym c.spelled

pub rooted : (p : String) → IsCanonical p → starts_with p "/" ≡ true
rooted p c = rw c.spelled (starts_with-append "/" (join "/" c.names))

pub is_canonical_iff : (p : String) → (is_canonical p ≡ true) ↔ IsCanonical p
unfolding is_canonical
is_canonical_iff p = (
  λ h. subst IsCanonical ((eq_iff (clean p) p).0 (and-eq-true _ _ h).1) (clean-IsCanonical p),
  λ c. ground (arith, eq_iff (clean p) p, clean_of_IsCanonical p c, rooted p c),
)

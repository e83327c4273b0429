-- ===== src/Server/Access/Confined.antt =====
-- What a restricted user may see, by the segments of paths.
use mathlib.Core.List.{append-nil}
use text.Mathlib.TextLemmas.{append_assoc}
use text.Mathlib.TextPositions.{eq_refl}
use cuttlefish.Common.{
  true, ◌&&◌, String, List, [], ◌∷◌, ◌++◌, ◌≡◌, refl, ap, sym, ◌∙◌, arith, str_eq, eq_iff, All,
  AnyOf, any, Bool-cases, inl, inr, ◌↔◌, and-eq-true,
}
use cuttlefish.Common.Text.{◌<>◌, join, segments}
use cuttlefish.Common.Text.Splits.{starts_with-split, starts_with-append, segments-slash}
use cuttlefish.Types.{restricted}
use cuttlefish.Server.Paths.{is_canonical}
use cuttlefish.Server.Paths.Canonical.{IsCanonical, is_canonical_iff, segments_of_IsCanonical}
use cuttlefish.Server.Access.{Access, allows, is_within}

-- The path's segments are those of the prefix, with more behind them or none.
abbrev pub Continues : String → String → Type 0
Continues p pre = (more : List String) × (segments p ≡ segments pre ++ more)

abbrev pub path_of : List String → String
path_of names = "/" <> join "/" names

join-append :
    (x : String) (xs : List String) (y : String) (ys : List String)
    → join "/" ((x ∷ xs) ++ (y ∷ ys)) ≡ join "/" (x ∷ xs) <> ("/" <> join "/" (y ∷ ys))
unfolding join
join-append x [] y ys = refl
join-append x (z ∷ xs) y ys =
    ap (λ t. x <> ("/" <> t)) (join-append z xs y ys)
    ∙ ap (λ t. x <> t) (sym (append_assoc "/" (join "/" (z ∷ xs)) ("/" <> join "/" (y ∷ ys))))
    ∙ sym (append_assoc x ("/" <> join "/" (z ∷ xs)) ("/" <> join "/" (y ∷ ys)))

path_of-append :
    (x : String) (xs : List String) (y : String) (ys : List String)
    → path_of ((x ∷ xs) ++ (y ∷ ys)) ≡ (path_of (x ∷ xs) <> "/") <> join "/" (y ∷ ys)
path_of-append x xs y ys =
    ap (λ t. "/" <> t) (join-append x xs y ys)
    ∙ sym (append_assoc "/" (join "/" (x ∷ xs)) ("/" <> join "/" (y ∷ ys)))
    ∙ sym (append_assoc (path_of (x ∷ xs)) "/" (join "/" (y ∷ ys)))

pub is_within_self : (p : String) → is_within p p ≡ true
unfolding is_within
is_within_self p = ground (arith, eq_refl p)

is_within_root : (p : String) → is_within p "/" ≡ true
unfolding is_within
is_within_root p = refl

is_within_deeper : (pre rest : String) → is_within ((pre <> "/") <> rest) pre ≡ true
unfolding is_within
is_within_deeper pre rest = ground (arith, starts_with-append (pre <> "/") rest)

path_of-within : (xs ys : List String) → is_within (path_of (xs ++ ys)) (path_of xs) ≡ true
unfolding join
path_of-within [] ys = is_within_root (path_of ys)
path_of-within (x ∷ xs) [] =
    ap (λ l. is_within (path_of l) (path_of (x ∷ xs))) (append-nil (x ∷ xs))
    ∙ is_within_self (path_of (x ∷ xs))
path_of-within (x ∷ xs) (y ∷ ys) =
    ap (λ p. is_within p (path_of (x ∷ xs))) (path_of-append x xs y ys)
    ∙ is_within_deeper (path_of (x ∷ xs)) (join "/" (y ∷ ys))

segments-root : segments "/" ≡ []
unfolding segments
segments-root = refl

within-Continues : (p pre : String) → is_within p pre ≡ true → Continues p pre
unfolding is_within
within-Continues p pre h = elim (Bool-cases (str_eq pre "/")) [
  | inl e ↦ (
    segments p,
    sym (
        ap (λ q. segments q ++ segments p) ((eq_iff pre "/").0 e)
        ∙ ap (λ l. l ++ segments p) segments-root),
  )
  | inr n ↦ elim (Bool-cases (str_eq p pre)) [
    | inl e ↦ ([], ap segments ((eq_iff p pre).0 e) ∙ sym (append-nil (segments pre)))
    | inr m ↦
        let (rest, e) = starts_with-split p (pre <> "/") (ground arith) in
        (segments rest, ap segments (e ∙ append_assoc pre "/" rest) ∙ segments-slash pre rest)
  ]
]

Continues-within :
    (p pre : String) (c : IsCanonical p) (d : IsCanonical pre)
    → Continues p pre
    → is_within p pre ≡ true
Continues-within p pre c d (more, e) =
    ap (λ q. is_within q pre) c.spelled
    ∙ ap (λ q. is_within (path_of c.names) q) d.spelled
    ∙ ap (λ l. is_within (path_of l) (path_of d.names))
        (sym (segments_of_IsCanonical p c)
          ∙ e
          ∙ ap (λ l. l ++ more) (segments_of_IsCanonical pre d))
    ∙ path_of-within d.names more

pub any-AnyOf :
    (p : String) (prefixes : List String)
    → any (is_within p) prefixes ≡ true
    → AnyOf (Continues p) prefixes
any-AnyOf p [] e = cc
any-AnyOf p (pre ∷ prefixes) e = elim (Bool-cases (is_within p pre)) [
  | inl h ↦ inl (within-Continues p pre h)
  | inr n ↦ inr (any-AnyOf p prefixes (ground arith))
]

pub AnyOf-any :
    (p : String) (prefixes : List String)
    → IsCanonical p
    → All IsCanonical prefixes
    → AnyOf (Continues p) prefixes
    → any (is_within p) prefixes ≡ true
AnyOf-any p (pre ∷ prefixes) c (d, ds) (inl h) = rw (Continues-within p pre c d h) refl
AnyOf-any p (pre ∷ prefixes) c (d, ds) (inr h) =
    let rest = AnyOf-any p prefixes c ds h in ground arith
AnyOf-any p [] c d h = absurd h

pub allows_restricted :
    (a : Access) (p : String)
    → a.role ≡ restricted
    → allows a p ≡ (is_canonical p && any (is_within p) a.prefixes)
unfolding allows
allows_restricted a p r = rw r refl

-- A restricted user may see a path exactly when it is absolute, each of its segments is the name of
-- something in a directory (never empty, "." or ".."), and its segments begin with all those of one
-- of the user's prefixes. The prefixes are canonical, as grants are stored.
pub allows_iff :
    (a : Access) (p : String)
    → a.role ≡ restricted
    → All IsCanonical a.prefixes
    → (allows a p ≡ true) ↔ (IsCanonical p × AnyOf (Continues p) a.prefixes)
allows_iff a p r ds = (
  λ h.
      let both = and-eq-true _ _ (sym (allows_restricted a p r) ∙ h) in
      ((is_canonical_iff p).0 both.0, any-AnyOf p a.prefixes both.1),
  λ (c, m).
      let canonical = (is_canonical_iff p).1 c in
      let found = AnyOf-any p a.prefixes c ds m in allows_restricted a p r ∙ ground arith,
)

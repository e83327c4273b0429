-- ===== src/Server/Access/Crumbs.antt =====
-- The header's crumbs against the server's access: fs_ui/src/components/Header.tsx goes by `underPrefix`,
-- fs_api/auth.go by `allows`.
use mathlib.Core.Path.{subst}
use text.Mathlib.TextLemmas.{
  nil-append, cons-append, cons-ne-nil, append_cancel_left, append-ne-nil_of_right_ne-nil,
}
use cuttlefish.Common.{
  Char, ℕ, suc, true, false, ◌||◌, not, ◌==◌, String, List, [], ◌∷◌, ◌++◌, none, some, ◌≡◌, ◌≢◌,
  refl, ap, sym, ◌∙◌, arith, eq_iff, All, All-append, any, length, get_elem?, All-get_elem?,
}
use cuttlefish.Common.Text.{◌<>◌, join, segments, is_truthy}
use cuttlefish.Common.Text.Splits.{NoSlash}
use cuttlefish.Types.{restricted}
use cuttlefish.Browser.{
  Crumb, crumbs, crumbs_from, under_prefix, ends_with_slash, outside, is_inert, url_path,
}
use cuttlefish.Server.Paths.Canonical.{
  IsName, IsCanonical, is_canonical_iff, segments_of_IsCanonical, rooted,
}
use cuttlefish.Server.Access.{Access, allows, is_within}
use cuttlefish.Server.Access.Confined.{path_of, allows_restricted, is_within_self}

abbrev slash : Char
slash = "/"

ends_with_slash-append : (a b : String) → b ≢ "" → ends_with_slash (a <> b) ≡ ends_with_slash b
unfolding ends_with_slash
ends_with_slash-append String.[] b n = ap ends_with_slash (nil-append b)
ends_with_slash-append (String.◌∷◌ c a) b n = rw (cons-append c a b) (
    ground
      (arith, eq_iff (a <> b) "", append-ne-nil_of_right_ne-nil a n, ends_with_slash-append a b n))

ends_with_slash-name : (s : String) → NoSlash s → s ≢ "" → ends_with_slash s ≡ false
unfolding ends_with_slash
ends_with_slash-name String.[] h n = absurd (n refl)
ends_with_slash-name (String.◌∷◌ c s) (h, hs) n =
    ground (arith, eq_iff s "", ends_with_slash-name s hs)

ends_with_slash-join :
    (x : String) (xs : List String)
    → All IsName (x ∷ xs)
    → (ends_with_slash (join "/" (x ∷ xs)) ≡ false) × (join "/" (x ∷ xs) ≢ "")
unfolding join
ends_with_slash-join x [] (h, u) =
    (ends_with_slash-name x h.segment.whole h.segment.filled, h.segment.filled)
ends_with_slash-join x (y ∷ xs) (h, hs) =
    let (ends, filled) = ends_with_slash-join y xs hs in
    let rest = append-ne-nil_of_right_ne-nil "/" filled in
    (
      ends_with_slash-append x ("/" <> join "/" (y ∷ xs)) rest
          ∙ ends_with_slash-append "/" (join "/" (y ∷ xs)) filled
          ∙ ends,
      append-ne-nil_of_right_ne-nil x rest,
    )

-- The interface's test is the server's.
under_prefix-path_of :
    (p : String) (names : List String)
    → IsCanonical p
    → All IsName names
    → under_prefix p (path_of names) ≡ is_within p (path_of names)
unfolding under_prefix is_within join
under_prefix-path_of p [] c h = ground (arith, rooted p c)
under_prefix-path_of p (x ∷ xs) c h =
    let (ends, filled) = ends_with_slash-join x xs h in
    let ends' = ends_with_slash-append "/" (join "/" (x ∷ xs)) filled ∙ ends in
    ground (
      arith,
      ends',
      eq_iff (path_of (x ∷ xs)) "/",
      λ (e : path_of (x ∷ xs) ≡ "/"). filled (append_cancel_left "/" (join "/" (x ∷ xs)) "" e),
    )

under_prefix-within :
    (p pre : String) → IsCanonical p → IsCanonical pre → under_prefix p pre ≡ is_within p pre
under_prefix-within p pre c d =
    ap (under_prefix p) d.spelled
    ∙ under_prefix-path_of p d.names c d.are_names
    ∙ ap (is_within p) (sym d.spelled)

any-within :
    (p : String) (prefixes : List String)
    → IsCanonical p
    → All IsCanonical prefixes
    → any (under_prefix p) prefixes ≡ any (is_within p) prefixes
any-within p [] c ds = refl
any-within p (pre ∷ prefixes) c (d, ds) =
    rw (under_prefix-within p pre c d) (rw (any-within p prefixes c ds) refl)

outside-allows :
    (a : Access) (p : String)
    → a.role ≡ restricted
    → All IsCanonical a.prefixes
    → IsCanonical p
    → outside (some a.prefixes) p ≡ not (allows a p)
outside-allows a p r ds c = ap not (
    any-within p a.prefixes c ds
    ∙ sym (allows_restricted a p r ∙ rw ((is_canonical_iff p).1 c) refl))

crumbs_from-IsCanonical :
    (before segs : List String)
    → All IsName before
    → All IsName segs
    → All (λ (c : Crumb). IsCanonical c.path) (crumbs_from before segs)
unfolding crumbs_from
crumbs_from-IsCanonical before [] h k = tt
crumbs_from-IsCanonical before (seg ∷ segs) h (k, ks) = (
  record { names = before ++ seg ∷ []; are_names = longer; spelled = refl },
  crumbs_from-IsCanonical (before ++ seg ∷ []) segs longer ks,
)
  where
    longer : All IsName (before ++ seg ∷ [])
    longer = All-append IsName before (seg ∷ []) h (k, tt)

crumbs-IsCanonical :
    (current : String)
    → IsCanonical current
    → All (λ (c : Crumb). IsCanonical c.path) (crumbs current)
unfolding crumbs join
crumbs-IsCanonical current c = (
  record { names = []; are_names = tt; spelled = refl },
  crumbs_from-IsCanonical [] (segments current) tt
      (subst (All IsName) (sym (segments_of_IsCanonical current c)) c.are_names),
)

canonical-is_truthy : (p : String) → IsCanonical p → is_truthy p ≡ true
canonical-is_truthy p c = ground (
  arith,
  eq_iff p "",
  λ (e : p ≡ ""). cons-ne-nil slash _ (sym (cons-append slash "" _) ∙ sym c.spelled ∙ e),
)

opens-allowed :
    (a : Access) (prefixes : List String)
    → a.role ≡ restricted
    → a.prefixes ≡ prefixes
    → All IsCanonical prefixes
    → prefixes ≢ []
    → allows a (url_path none (some prefixes)) ≡ true
unfolding url_path
opens-allowed a [] r e ds some_prefix = absurd (some_prefix refl)
opens-allowed a (p ∷ prefixes) r e (d, ds) some_prefix =
    rw (canonical-is_truthy p d)
      (allows_restricted a p r ∙ rw e (rw ((is_canonical_iff p).1 d) (rw (is_within_self p) refl)))

-- To a restricted user the header's crumbs are buttons exactly where the server lets them go: at a
-- canonical directory, the i-th crumb does nothing if it is the last or the server would refuse its
-- path, and not otherwise; and where the URL names no directory, and some prefix is granted, the page
-- opens one that the server allows. The prefixes are canonical, as grants are stored.
pub is_inert-allows :
    (a : Access) (current : String) (i : ℕ) (c : Crumb)
    → a.role ≡ restricted
    → All IsCanonical a.prefixes
    → a.prefixes ≢ []
    → IsCanonical current
    → get_elem? (crumbs current) i ≡ some c
    → (is_inert (some a.prefixes) (crumbs current) i c
        ≡ ((suc i == length (crumbs current)) || not (allows a c.path)))
      × (allows a (url_path none (some a.prefixes)) ≡ true)
unfolding is_inert
is_inert-allows a current i c r ds some_prefix here e = (
  ap (λ b. (suc i == length (crumbs current)) || b)
      (outside-allows a c.path r ds
        (All-get_elem? _ i (crumbs current) (crumbs-IsCanonical current here) e)),
  opens-allowed a a.prefixes r refl ds some_prefix,
)

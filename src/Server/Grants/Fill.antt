-- ===== src/Server/Grants/Fill.antt =====
-- A name that is filled in for {user} stays one segment of the path.
use mathlib.Core.Path.{subst}
use text.Mathlib.TextLemmas.{
  nil-append, cons-append, append_assoc, append-eq-nil_iff, cons-ne-nil, head-eq_of_cons-eq,
  tail-eq_of_cons-eq,
}
use cuttlefish.Common.{
  ℕ, zero, suc, true, false, ◌&&◌, ◌==◌, Char, code, String, List, [], ◌∷◌, some, ◌≡◌, ◌≢◌, refl,
  ap, sym, ◌∙◌, arith, map, All, str_eq, eq_iff, Bool-cases, Option-cases, inl, inr, ◌⊎◌,
  and-eq-true,
}
use cuttlefish.Common.Text.{◌<>◌, join, starts_with, includes}
use cuttlefish.Common.Text.Splits.{NoSlash-append, NoSlash}
use cuttlefish.Server.Paths.Canonical.{IsName, IsCanonical}
use cuttlefish.Server.Access.Confined.{path_of}
use cuttlefish.Server.Grants.{fill_from, fill, grant_user, granted_path, has_user}

abbrev slash : Char
slash = "/"

abbrev dot : Char
dot = "."

-- At least so many characters.
abbrev AtLeast : ℕ → String → Type 0
AtLeast zero s = Unit
AtLeast (suc k) String.[] = ⊥
AtLeast (suc k) (String.◌∷◌ c s) = AtLeast k s

abbrev count : String → ℕ
count String.[] = 0
count (String.◌∷◌ c s) = suc (count s)

starts_with-AtLeast : (s p : String) → starts_with s p ≡ true → AtLeast (count p) s
unfolding starts_with
starts_with-AtLeast s String.[] h = tt
starts_with-AtLeast String.[] (String.◌∷◌ d p) h = cc
starts_with-AtLeast (String.◌∷◌ c s) (String.◌∷◌ d p) h =
    starts_with-AtLeast s p (and-eq-true _ _ h).1

-- No match crosses a slash.
starts_with-slash : (x y p : String) → NoSlash p → starts_with (x <> ("/" <> y)) p ≡ starts_with x p
unfolding starts_with
starts_with-slash x y String.[] h = refl
starts_with-slash String.[] y (String.◌∷◌ d p) (h, hs) =
    rw (nil-append ("/" <> y)) (rw (cons-append slash "" y) (ground arith))
starts_with-slash (String.◌∷◌ c x) y (String.◌∷◌ d p) (h, hs) =
    rw (cons-append c x ("/" <> y)) (ap (λ b. (code c == code d) && b) (starts_with-slash x y p hs))

fill_from-at_slash : (name y : String) → fill_from 0 name ("/" <> y) ≡ "/" <> fill_from 0 name y
unfolding fill_from starts_with
fill_from-at_slash name y = rw (cons-append slash "" y) (
    rw (nil-append y) (
      sym (
        cons-append slash "" (fill_from 0 name y)
        ∙ ap (String.◌∷◌ slash) (nil-append (fill_from 0 name y)))))

starts_with-user :
    (c : Char) (x y : String)
    → starts_with (String.◌∷◌ c (x <> ("/" <> y))) "{user}" ≡ starts_with (String.◌∷◌ c x) "{user}"
starts_with-user c x y =
    ap (λ s. starts_with s "{user}") (sym (cons-append c x ("/" <> y)))
    ∙ starts_with-slash (String.◌∷◌ c x) y "{user}"
        (refl, (refl, (refl, (refl, (refl, (refl, tt))))))

fill_from-slash :
    (k : ℕ) (name x y : String)
    → AtLeast k x
    → fill_from k name (x <> ("/" <> y)) ≡ fill_from k name x <> ("/" <> fill_from 0 name y)
unfolding fill_from
fill_from-slash zero name String.[] y h =
    rw (nil-append ("/" <> y))
      (fill_from-at_slash name y ∙ sym (nil-append ("/" <> fill_from 0 name y)))
fill_from-slash (suc k) name String.[] y h = absurd h
fill_from-slash (suc k) name (String.◌∷◌ c x) y h =
    rw (cons-append c x ("/" <> y)) (fill_from-slash k name x y h)
fill_from-slash zero name (String.◌∷◌ c x) y h = rw (cons-append c x ("/" <> y)) (
    rw (starts_with-user c x y) (elim (Bool-cases (starts_with (String.◌∷◌ c x) "{user}")) [
      | inl m ↦ rw m (
          ap (λ t. name <> t)
            (fill_from-slash 5 name x y (starts_with-AtLeast (String.◌∷◌ c x) "{user}" m))
          ∙ sym (append_assoc name (fill_from 5 name x) ("/" <> fill_from 0 name y)))
      | inr m ↦ rw m (
          ap (String.◌∷◌ c) (fill_from-slash 0 name x y tt)
          ∙ sym (cons-append c (fill_from 0 name x) ("/" <> fill_from 0 name y)))
    ]))

fill-slash : (name x y : String) → fill name (x <> ("/" <> y)) ≡ fill name x <> ("/" <> fill name y)
unfolding fill
fill-slash name x y = fill_from-slash 0 name x y tt

fill-empty : (name : String) → fill name "" ≡ ""
unfolding fill
fill-empty name = refl

fill-join :
    (name : String) (l : List String) → fill name (join "/" l) ≡ join "/" (map (fill name) l)
unfolding join
fill-join name [] = fill-empty name
fill-join name (a ∷ []) = refl
fill-join name (a ∷ b ∷ l) =
    fill-slash name a (join "/" (b ∷ l))
    ∙ ap (λ t. fill name a <> ("/" <> t)) (fill-join name (b ∷ l))

fill-path_of :
    (name : String) (l : List String) → fill name (path_of l) ≡ path_of (map (fill name) l)
fill-path_of name l =
    ap (fill name) (sym (nil-append (path_of l)))
    ∙ fill-slash name "" (join "/" l)
    ∙ rw (fill-empty name) (nil-append ("/" <> fill name (join "/" l)))
    ∙ ap (λ t. "/" <> t) (fill-join name l)

fill_from-NoSlash :
    (k : ℕ) (name s : String) → NoSlash name → NoSlash s → NoSlash (fill_from k name s)
unfolding fill_from
fill_from-NoSlash k name String.[] h hs = tt
fill_from-NoSlash (suc k) name (String.◌∷◌ c s) h (e, hs) = fill_from-NoSlash k name s h hs
fill_from-NoSlash zero name (String.◌∷◌ c s) h (e, hs) =
    elim (Bool-cases (starts_with (String.◌∷◌ c s) "{user}")) [
      | inl m ↦ rw m (NoSlash-append name (fill_from 5 name s) h (fill_from-NoSlash 5 name s h hs))
      | inr m ↦ rw m (e, fill_from-NoSlash 0 name s h hs)
    ]

fill-NoSlash : (name s : String) → NoSlash name → NoSlash s → NoSlash (fill name s)
unfolding fill
fill-NoSlash name s h hs = fill_from-NoSlash 0 name s h hs

fill_cases :
    (name : String) (c : Char) (s : String)
    → ((rest : String) × (fill name (String.◌∷◌ c s) ≡ name <> rest))
      ⊎ (fill name (String.◌∷◌ c s) ≡ String.◌∷◌ c (fill name s))
unfolding fill
fill_cases name c s = elim (Bool-cases (starts_with (String.◌∷◌ c s) "{user}")) [
  | inl m ↦ rw m (inl (fill_from 5 name s, refl))
  | inr m ↦ rw m (inr refl)
]

fill-filled : (name s : String) → name ≢ "" → s ≢ "" → fill name s ≢ ""
fill-filled name String.[] h k = absurd (k refl)
fill-filled name (String.◌∷◌ c s) h k = elim (fill_cases name c s) [
  | inl (rest, e) ↦ λ f. h (append-eq-nil_iff.0 (sym e ∙ f)).0
  | inr e ↦ λ f. cons-ne-nil c (fill name s) (sym e ∙ f)
]

-- What begins "." or "..".
append-here : (a b : String) → a ≢ "" → a <> b ≡ "." → a ≡ "."
append-here String.[] b n e = absurd (n refl)
append-here (String.◌∷◌ c a) b n e =
    let e' = sym (cons-append c a b) ∙ e in
    ap (λ d. String.◌∷◌ d a) (head-eq_of_cons-eq e')
    ∙ ap (String.◌∷◌ dot) (append-eq-nil_iff.0 (tail-eq_of_cons-eq e')).0

append-parent : (a b : String) → a ≢ "" → a <> b ≡ ".." → (a ≡ ".") ⊎ (a ≡ "..")
append-parent String.[] b n e = absurd (n refl)
append-parent (String.◌∷◌ c a) b n e =
    let e' = sym (cons-append c a b) ∙ e in
    let head = ap (λ d. String.◌∷◌ d a) (head-eq_of_cons-eq e') in
    elim (Bool-cases (str_eq a "")) [
      | inl m ↦ inl (head ∙ ap (String.◌∷◌ dot) ((eq_iff a "").0 m))
      | inr m ↦ inr (
          head
          ∙ ap (String.◌∷◌ dot)
              (append-here a b (ground (arith, eq_iff a "")) (tail-eq_of_cons-eq e')))
    ]

fill-not_here : (name s : String) → IsName name → s ≢ "" → s ≢ "." → fill name s ≢ "."
fill-not_here name String.[] n h k = absurd (h refl)
fill-not_here name (String.◌∷◌ c s) n h k = elim (fill_cases name c s) [
  | inl (rest, e) ↦ λ f. n.not_here (append-here name rest n.segment.filled (sym e ∙ f))
  | inr e ↦ λ f.
      let e' = sym e ∙ f in
      fill-filled name s n.segment.filled
        (λ (m : s ≡ "").
          k (ap (λ d. String.◌∷◌ d s) (head-eq_of_cons-eq e') ∙ ap (String.◌∷◌ dot) m))
        (tail-eq_of_cons-eq e')
]

fill-not_parent : (name s : String) → IsName name → s ≢ "" → s ≢ "." → s ≢ ".." → fill name s ≢ ".."
fill-not_parent name String.[] n h k l = absurd (h refl)
fill-not_parent name (String.◌∷◌ c s) n h k l = elim (fill_cases name c s) [
  | inl (rest, e) ↦ λ f. elim (append-parent name rest n.segment.filled (sym e ∙ f)) [
    | inl m ↦ n.not_here m
    | inr m ↦ n.not_parent m
  ]
  | inr e ↦ λ f.
      let e' = sym e ∙ f in
      let head = ap (λ d. String.◌∷◌ d s) (head-eq_of_cons-eq e') in
      fill-not_here name s n (λ (m : s ≡ ""). k (head ∙ ap (String.◌∷◌ dot) m))
        (λ (m : s ≡ "."). l (head ∙ ap (String.◌∷◌ dot) m)) (tail-eq_of_cons-eq e')
]

fill-IsName : (name s : String) → IsName name → IsName s → IsName (fill name s)
fill-IsName name s n h = record {
  segment = record {
    filled = fill-filled name s n.segment.filled h.segment.filled;
    whole = fill-NoSlash name s n.segment.whole h.segment.whole;
  };
  not_here = fill-not_here name s n h.segment.filled h.not_here;
  not_parent = fill-not_parent name s n h.segment.filled h.not_here h.not_parent;
}

map-fill :
    (name : String) (l : List String) → IsName name → All IsName l → All IsName (map (fill name) l)
map-fill name [] n h = tt
map-fill name (s ∷ l) n (h, hs) = (fill-IsName name s n h, map-fill name l n hs)

includes-NoSlash : (s : String) → includes b'/' s ≡ false → NoSlash s
unfolding includes
includes-NoSlash String.[] h = tt
includes-NoSlash (String.◌∷◌ c s) h = (ground arith, includes-NoSlash s (ground arith))

grant_user-passes :
    (s : String) {name : String}
    → grant_user s ≡ some name
    → (s ≡ name)
      × (str_eq s "" ≡ false)
      × (str_eq s "." ≡ false)
      × (str_eq s ".." ≡ false)
      × (includes b'/' s ≡ false)
unfolding grant_user
grant_user-passes s h = ground arith

-- A Unix name that is filled in is the name of something in a directory.
pub grant_user-IsName : (s : String) {name : String} → grant_user s ≡ some name → IsName name
grant_user-IsName s {name} h =
    let (same, empty, here, parent, slashes) = grant_user-passes s h in
    subst IsName same (record {
      segment = record { filled = ground (arith, eq_iff s ""); whole = includes-NoSlash s slashes };
      not_here = ground (arith, eq_iff s ".");
      not_parent = ground (arith, eq_iff s "..");
    })

-- Whatever the name is, what a user gets of a stored grant is a canonical path, or nothing.
pub granted_path-IsCanonical :
    (unix_user prefix : String)
    → IsCanonical prefix
    → granted_path unix_user prefix ≢ ""
    → IsCanonical (granted_path unix_user prefix)
unfolding granted_path
granted_path-IsCanonical unix_user prefix c filled = elim (Bool-cases (has_user prefix)) [
  | inr e ↦ rw e c
  | inl e ↦ elim (Option-cases (grant_user unix_user)) [
    | inl n ↦ absurd (filled (rw e (rw n refl)))
    | inr (name, n) ↦ rw e (
        rw n (record {
          names = map (fill name) c.names;
          are_names = map-fill name c.names (grant_user-IsName unix_user n) c.are_names;
          spelled = ap (fill name) c.spelled ∙ fill-path_of name c.names;
        }))
  ]
]

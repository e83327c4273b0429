-- ===== src/Server/Resolve/Granted.antt =====
-- What a restricted user may see, by the grants that admins have stored.
use cuttlefish.Common.{
  Bool, true, false, ◌||◌, String, List, [], ◌∷◌, ◌≡◌, ◌≢◌, refl, ap, sym, ◌∙◌, ◌↔◌, inl, inr,
  arith, any, All, AnyOf, Bool-cases, str_eq, eq_iff, and-eq-true,
}
use cuttlefish.Common.Text.{is_truthy}
use cuttlefish.Common.Sort.{sort, any-sort}
use cuttlefish.Types.{Grant, IdentityRule, restricted}
use cuttlefish.Server.Paths.Canonical.{IsCanonical, is_canonical_iff}
use cuttlefish.Server.Access.{Access, allows, is_within}
use cuttlefish.Server.Access.Confined.{Continues, any-AnyOf, AnyOf-any, allows_restricted}
use cuttlefish.Server.Grants.{Grants, applies, granted_path, matching_grants}
use cuttlefish.Server.Grants.Fill.{granted_path-IsCanonical}
use cuttlefish.Server.Grants.Stored.{AreStored, Edit, edits, edits-AreStored}
use cuttlefish.Server.Identity.{map_identity}
use cuttlefish.Server.Resolve.{
  AuthConfig, role_for, Tables, text_before, compact_after, compact, granted_paths, prefixes_of,
  resolve_access,
}

any-compact_after :
    (p : String → Bool) (x : String) (xs : List String)
    → (p x || any p (compact_after x xs)) ≡ (p x || any p xs)
any-compact_after p x [] = refl
any-compact_after p x (y ∷ ys) = elim (Bool-cases (str_eq x y)) [
  | inl e ↦
      let same = ap p ((eq_iff x y).0 e) in
      let rest = any-compact_after p x ys in rw e (ground arith)
  | inr e ↦ rw e (ap (λ b. p x || b) (any-compact_after p y ys))
]

any-compact : (p : String → Bool) (xs : List String) → any p (compact xs) ≡ any p xs
unfolding compact
any-compact p [] = refl
any-compact p (x ∷ xs) = any-compact_after p x xs

-- A grant that applies to the user, whose path could be filled in, and which holds the path asked for.
abbrev pub Gives : List String → List String → String → String → Grant → Type 0
Gives groups unix_groups unix_user p g =
    (applies groups unix_groups g ≡ true)
    × (granted_path unix_user g.path_prefix ≢ "")
    × Continues p (granted_path unix_user g.path_prefix)

filled_not : {s : String} → is_truthy s ≡ true → s ≡ "" → ⊥
filled_not {s} h e = absurd (ground (arith, eq_iff s ""))

empty_of : {s : String} → is_truthy s ≡ false → s ≡ ""
empty_of {s} h = (eq_iff s "").0 (ground arith)

module _ (groups unix_groups : List String) (unix_user : String) where
  abbrev paths : List Grant → List String
  paths rows = granted_paths (matching_grants rows groups unix_groups unix_user)

  paths-nil : paths [] ≡ []
  unfolding matching_grants
  paths-nil = refl

  -- The paths of one row more.
  paths-cons :
      (P : List String → Type 0) (g : Grant) (rows : List Grant)
      → ((applies groups unix_groups g ≡ true)
          → (granted_path unix_user g.path_prefix ≢ "")
          → P (granted_path unix_user g.path_prefix ∷ paths rows))
      → (((applies groups unix_groups g ≡ true) × (granted_path unix_user g.path_prefix ≢ "") → ⊥)
          → P (paths rows))
      → P (paths (g ∷ rows))
  unfolding matching_grants
  paths-cons P g rows with_it without = elim (Bool-cases (applies groups unix_groups g)) [
    | inr e ↦ rw e (without (λ (a, f). cc))
    | inl e ↦ rw e (elim (Bool-cases (is_truthy (granted_path unix_user g.path_prefix))) [
      | inl f ↦ rw f (with_it e (λ n. absurd (filled_not f n)))
      | inr f ↦ rw f (without (λ (a, k). k (empty_of f)))
    ])
  ]

  paths-IsCanonical : (rows : List Grant) → AreStored rows → All IsCanonical (paths rows)
  paths-IsCanonical [] h = rw paths-nil tt
  paths-IsCanonical (g ∷ rows) (h, hs) =
      paths-cons (All IsCanonical) g rows
        (λ a filled.
          (granted_path-IsCanonical unix_user g.path_prefix h filled, paths-IsCanonical rows hs))
        (λ n. paths-IsCanonical rows hs)

  paths-Gives :
      (p : String) (rows : List Grant)
      → AnyOf (Continues p) (paths rows) ↔ AnyOf (Gives groups unix_groups unix_user p) rows
  paths-Gives p [] = rw paths-nil ((λ h. h), (λ h. h))
  paths-Gives p (g ∷ rows) =
      let (to, from) = paths-Gives p rows in
      paths-cons
        (λ l. AnyOf (Continues p) l ↔ AnyOf (Gives groups unix_groups unix_user p) (g ∷ rows)) g
        rows
        (λ a filled. (
          λ h. elim h [ inl c ↦ inl (a, filled, c) | inr m ↦ inr (to m) ],
          λ h. elim h [ inl (a', filled', c) ↦ inl c | inr m ↦ inr (from m) ],
        ))
        (λ n. (
          λ h. inr (to h),
          λ h. elim h [ inl (a, filled, c) ↦ absurd (n (a, filled)) | inr m ↦ from m ],
        ))

  allowed_iff :
      (a : Access) (rows : List Grant) (p : String)
      → a.role ≡ restricted
      → a.prefixes ≡ compact (sort text_before (paths rows))
      → AreStored rows
      → (allows a p ≡ true) ↔ (IsCanonical p × AnyOf (Gives groups unix_groups unix_user p) rows)
  allowed_iff a rows p r e stored =
      let same =
        ap (any (is_within p)) e
        ∙ any-compact (is_within p) (sort text_before (paths rows))
        ∙ any-sort text_before (is_within p) (paths rows) in
      (
        λ h.
            let both = and-eq-true _ _ (sym (allows_restricted a p r) ∙ h) in
            (
              (is_canonical_iff p).0 both.0,
              (paths-Gives p rows).0 (any-AnyOf p (paths rows) (sym same ∙ both.1)),
            ),
        λ (c, m).
            let canonical = (is_canonical_iff p).1 c in
            let found =
              same
              ∙ AnyOf-any p (paths rows) c (paths-IsCanonical rows stored)
                  ((paths-Gives p rows).1 m) in
            allows_restricted a p r ∙ ground arith,
      )

-- The access of a restricted user.
restricted_access :
    (lower : String → String) (config : AuthConfig) (t : Tables) (user : String)
    (groups : List String)
    → role_for config groups ≡ restricted
    → resolve_access lower config t user groups ≡ record {
      user = user;
      role = restricted;
      prefixes = prefixes_of t groups (map_identity lower user t.rules);
      unix_user = map_identity lower user t.rules;
    }
unfolding resolve_access
restricted_access lower config t user groups r = rw r refl

abbrev pub no_grants : Grants
no_grants = record { rows = []; next_id = 1 }

-- A restricted user may see a path exactly when it is canonical and its segments begin with those of
-- some stored grant which applies to the user, by an IdP group or a recorded Unix group, with the
-- user's Unix name filled in where it says {user}; a grant whose name cannot be filled in safely gives
-- nothing. So it is after whatever admins have added and deleted, from a table without grants.
pub resolve_access-allows :
    (trim lower : String → String) (config : AuthConfig) (es : List Edit)
    (rules : List IdentityRule) (unix_groups : String → List String) (user : String)
    (groups : List String) (p : String)
    → role_for config groups ≡ restricted
    → (allows
          (resolve_access lower config
            (record {
              grants = (edits trim es no_grants).rows;
              rules = rules;
              unix_groups = unix_groups;
            })
            user
            groups)
          p
        ≡ true)
      ↔ (IsCanonical p
          × AnyOf
              (Gives groups
                (unix_groups (map_identity lower user rules))
                (map_identity lower user rules)
                p)
              (edits trim es no_grants).rows)
resolve_access-allows trim lower config es rules unix_groups user groups p r =
    let t : Tables = record {
      grants = (edits trim es no_grants).rows;
      rules = rules;
      unix_groups = unix_groups;
    } in
    rw (restricted_access lower config t user groups r) (
      allowed_iff groups (unix_groups (map_identity lower user rules))
        (map_identity lower user rules) _ t.grants p refl refl
        (edits-AreStored trim es no_grants tt))

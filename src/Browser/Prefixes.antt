-- ===== src/Browser/Prefixes.antt =====
-- fs_ui/src/components/Header.tsx: underPrefix and the crumbs.
use mathlib.Core.List.{append_assoc}
use cuttlefish.Common.{
  suc, true, String, List, [], ◌∷◌, ◌++◌, some, map, length, get_last?, ◌≡◌, refl, ap, ◌∙◌, ◌⊎◌,
  inl, inr, arith, Bool-cases, str_eq, eq_iff, ◌≢◌,
}
use cuttlefish.Common.Text.{◌<>◌, join, segments}
use cuttlefish.Common.Text.Splits.{starts_with-split}
use cuttlefish.Browser.{with_slash, under_prefix, Crumb, crumbs_from, crumbs}

last_crumb :
    (before segs : List String)
    → segs ≢ []
    → get_last? (map (λ (c : Crumb). c.path) (crumbs_from before segs))
      ≡ some ("/" <> join "/" (before ++ segs))
unfolding crumbs_from
last_crumb before [] h = absurd (h refl)
last_crumb before (seg ∷ []) h = refl
last_crumb before (seg ∷ t ∷ segs) h =
    last_crumb (before ++ seg ∷ []) (t ∷ segs) (λ e. cc)
    ∙ ap (λ l. some ("/" <> join "/" l)) (append_assoc before (seg ∷ []) (t ∷ segs))

last_crumb_or_root :
    (segs : List String)
    → get_last?
        (map (λ (c : Crumb). c.path) (record { label = "/"; path = "/" } ∷ crumbs_from [] segs))
      ≡ some ("/" <> join "/" segs)
unfolding crumbs_from join
last_crumb_or_root [] = refl
last_crumb_or_root (seg ∷ segs) = last_crumb [] (seg ∷ segs) (λ e. cc)

length-crumbs_from : (before segs : List String) → length (crumbs_from before segs) ≡ length segs
unfolding crumbs_from
length-crumbs_from before [] = refl
length-crumbs_from before (seg ∷ segs) = ap suc (length-crumbs_from (before ++ seg ∷ []) segs)

-- The last crumb is the current path, less doubled and closing slashes, and there is one crumb for
-- each of its segments behind the root's.
crumbs-last :
    (current : String)
    → (get_last? (map (λ (c : Crumb). c.path) (crumbs current))
        ≡ some ("/" <> join "/" (segments current)))
      × (length (crumbs current) ≡ suc (length (segments current)))
unfolding crumbs
crumbs-last current =
    (last_crumb_or_root (segments current), ap suc (length-crumbs_from [] (segments current)))

-- A path that counts as under a granted prefix is the prefix itself or continues it behind a slash.
under_prefix-split :
    (path prefix : String)
    → under_prefix path prefix ≡ true
    → (path ≡ prefix) ⊎ ((rest : String) × (path ≡ with_slash prefix <> rest))
unfolding under_prefix
under_prefix-split path prefix h = elim (Bool-cases (str_eq path prefix)) [
  | inl e ↦ inl ((eq_iff path prefix).0 e)
  | inr e ↦ inr (starts_with-split path (with_slash prefix) (ground arith))
]

-- ===== src/Browser/Trail.antt =====
-- fs_ui/src/components/Header.tsx: the buttons of the breadcrumb, and the one under the pointer.
use cuttlefish.Common.{
  ℕ, suc, Bool, false, ◌&&◌, ◌||◌, ◌==◌, not, String, List, [], ◌∷◌, Option, none, some, length,
  ltb, if◌then◌else◌,
}
use cuttlefish.Common.Text.{◌<>◌}
use cuttlefish.Browser.{Crumb, crumbs, is_inert}

-- How a crumb is drawn: the current directory or under the pointer, inert, or at rest.
pub data Shade : Type 0 where
  strong faint muted : Shade

pub record CrumbButton : Type 0 where
  pub label : String
  pub disabled : Bool
  pub aria_current : Option String
  pub title : Option String
  pub is_hovered : Bool
  pub shade : Shade
  -- A slash stands behind it.
  pub slash : Bool

-- The state `hovered`; an inert crumb has no handlers.
unfoldable pub enter : Bool → ℕ → Option ℕ → Option ℕ
enter inert i hovered = if inert then hovered else some i

unfoldable pub leave : Bool → Option ℕ → Option ℕ
leave inert hovered = if inert then hovered else none

abbrev is_at : Option ℕ → ℕ → Bool
is_at none i = false
is_at (some k) i = k == i

unfoldable pub crumb_button : Option (List String) → List Crumb → Option ℕ → ℕ → Crumb → CrumbButton
unfolding is_inert
crumb_button prefixes all hovered i c =
    let is_last = suc i == length all in
    let inert = is_inert prefixes all i c in
    let over = not inert && is_at hovered i in
    record {
      label = c.label;
      disabled = inert;
      aria_current = if is_last then some "location" else none;
      title = if inert then none else some ("Go to " <> c.path);
      is_hovered = over;
      shade = if is_last || over then strong else if inert then faint else muted;
      slash = not is_last && ltb 0 i;
    }

unfoldable pub buttons_from :
    Option (List String) → List Crumb → Option ℕ → ℕ → List Crumb → List CrumbButton
unfolding crumb_button
buttons_from prefixes all hovered i [] = []
buttons_from prefixes all hovered i (c ∷ cs) =
    crumb_button prefixes all hovered i c ∷ buttons_from prefixes all hovered (suc i) cs

unfoldable pub trail : Option (List String) → Option ℕ → String → List CrumbButton
unfolding crumbs buttons_from
trail prefixes hovered current = buttons_from prefixes (crumbs current) hovered 0 (crumbs current)

-- ===== src/Session/Themes.antt =====
-- fs_ui/src/App.tsx and fs_ui/src/theme.ts: a theme chosen by the button.
use cuttlefish.Common.{Bool, Option, some, ◌≡◌, refl, ◌≢◌}
use cuttlefish.Session.{
  ThemeMode, light, dark, Kept, denied, missing, kept, stored_theme_mode, store_theme_mode, Themed,
  open_theme, toggle_theme, system_change, other_mode,
}

stored-store :
    (m : ThemeMode) (s : Kept) → s ≢ denied → stored_theme_mode (store_theme_mode m s) ≡ some m
unfolding stored_theme_mode store_theme_mode
stored-store m denied h = absurd (h refl)
stored-store light missing h = refl
stored-store dark missing h = refl
stored-store light (kept raw) h = refl
stored-store dark (kept raw) h = refl

-- Where the browser keeps it, a theme chosen by the button is shown at once, is the one that a later
-- visit opens with whatever the system prefers, and is left alone by a change of the system's
-- preference.
toggle_theme-kept :
    (t : Themed) (prefers_dark : Bool) (attribute : Option ThemeMode)
    → t.storage ≢ denied
    → ((toggle_theme t).attribute ≡ some (toggle_theme t).mode)
      × ((open_theme (toggle_theme t).storage prefers_dark attribute).mode ≡ (toggle_theme t).mode)
      × (system_change prefers_dark (toggle_theme t) ≡ toggle_theme t)
unfolding toggle_theme open_theme system_change
toggle_theme-kept t prefers_dark attribute h =
    let e = stored-store (other_mode t.mode) t.storage h in (refl, rw e refl, rw e refl)

-- ===== src/Treemap/View.antt =====
-- fs_ui/src/components/TreemapView.tsx: the height of the map, the labels of its tiles, the list of
-- the entries that are not drawn, and what a press does. The container's width is whole pixels.
use cuttlefish.Common.{
  ℕ, ◌+◌, ◌/◌, ◌==◌, Bool, false, ◌&&◌, String, List, [], ◌∷◌, Option, none, some, length, ltb,
  str_eq, min, max, if◌then◌else◌,
}
use cuttlefish.Common.Text.{◌<>◌, show}
use cuttlefish.Types.{Entry}
use cuttlefish.Format.{Print, format_bytes, format_percent}
use cuttlefish.Treemap.{Num, Sized, Tile, Layout, entry_name, layout}

-- `Math.round(Math.min(Math.max(width * 0.5, 320), 680))`
unfoldable pub map_height : ℕ → ℕ
map_height width = min (max ((width + 1) / 2) 320) 680

-- The width that the component measures when it is drawn first, and then observes.
pub record Pane : Type 0 where
  pub width : ℕ

abbrev pub new_pane : Pane
new_pane = record { width = 0 }

unfoldable pub set_width : ℕ → Pane → Pane
set_width width pane = record pane { width = width }

-- The map of a pane.
unfoldable pub pane_layout : (n : Num) → List Entry → Pane → Layout n
unfolding map_height layout
pane_layout n entries pane =
    layout n entries (n.of_nat pane.width) (n.of_nat (map_height pane.width))

abbrev pub open_hint : String
open_hint = " (double-click or Enter to open)"

abbrev pub is_dir : Entry → Bool
is_dir e = e.file_type == 2

unfoldable pub tile_title : Print → Entry → ℕ → String
unfolding entry_name
tile_title p e size =
    entry_name e <> " — " <> format_bytes p size <> (if is_dir e then open_hint else "")

abbrev is_path : Option String → String → Bool
is_path none path = false
is_path (some q) path = str_eq q path

-- What is written in a tile, by its size.
pub record Label : Type 0 where
  pub is_selected : Bool
  pub name : Option String
  pub has_icon : Bool
  pub size : Option String
  pub title : String

module _ (n : Num) where
  abbrev holds : n.N → n.N → ℕ → ℕ → Bool
  holds w h least_w least_h = n.at_most (n.of_nat least_w) w && n.at_most (n.of_nat least_h) h

  unfoldable pub tile_label : Print → Option String → Tile n → Label
  unfolding tile_title
  tile_label p selected_path t = record {
    is_selected = is_path selected_path t.entry.path;
    name = if holds t.w t.h 54 22 then some (entry_name t.entry) else none;
    has_icon = holds t.w t.h 54 22 && holds t.w t.h 96 30;
    size = if holds t.w t.h 74 42 then some (format_bytes p t.size) else none;
    title = tile_title p t.entry t.size;
  }

  abbrev share_text : Print → ℕ → ℕ → String
  share_text p part whole =
      if ltb 0 whole
      then " — "
        <> format_bytes p part
        <> ", "
        <> format_percent p part whole
        <> " of this directory"
      else ""

  -- The line over the entries that are not drawn, if there are any.
  unfoldable pub hidden_text : Print → Layout n → Option String
  hidden_text p l =
      if ltb 0 (length l.hidden)
      then some (
          show (length l.hidden)
          <> (if length l.hidden == 1 then " entry" else " entries")
          <> " too small to draw"
          <> share_text p l.hidden_bytes l.grand_total)
      else none

  -- The line in place of tiles.
  unfoldable pub empty_text : Layout n → Option String
  empty_text l = if length l.tiles == 0 then some "Nothing here has a measurable size." else none

-- The button of an entry that is not drawn: its title, name and size.
unfoldable pub hidden_button : Print → Sized → List String
unfolding tile_title entry_name
hidden_button p s = tile_title p s.entry s.size ∷ entry_name s.entry ∷ format_bytes p s.size ∷ []

-- A double click, and a key, on a tile or a button: the path that is opened. A click selects.
unfoldable pub double_click : Entry → Option String
double_click e = if is_dir e then some e.path else none

unfoldable pub open_on_enter : String → Entry → Option String
open_on_enter key e = if str_eq key "Enter" && is_dir e then some e.path else none

-- ===== src/Windowing.antt =====
-- fs_ui/src/hooks/useWindowedRows.ts: which rows of a long table are drawn, and the height of the
-- spacers that stand for the others.
-- Heights are whole pixels, positions in the scroller are integers. The rows' heights are a function
-- of the index, `none` for a row that has not been measured.
pub mod Bounds
pub mod Coverage
pub mod Exact
pub mod Measuring
pub mod Scrolling
mod Tests
use cuttlefish.Common.{
  ℕ, zero, suc, ◌+◌, ◌-◌, Bool, true, false, ◌&&◌, ◌||◌, Option, none, some, List, [], ◌∷◌, ltb,
  ◌==◌, min, max, if◌then◌else◌, get_or_else,
}
use cuttlefish.Common.Int.{ℤ, pos, ◌+ℤ◌, ◌-ℤ◌, ltb_ℤ}

abbrev pub Heights : Type 0
Heights = ℕ → Option ℕ

-- `heights[i] ?? estimateHeight`
abbrev pub height_of : Heights → ℕ → ℕ → ℕ
height_of heights estimate i = get_or_else (heights i) estimate

-- What the scroller and the anchor element measure.
pub record Geometry : Type 0 where
  pub anchor_rect_top : ℤ
  pub scroller_rect_top : ℤ
  pub scroll_top : ℤ
  pub client_height : ℕ

pub record Range : Type 0 where
  pub start : ℕ
  pub end : ℕ

-- A position in the list of rows, and the height of the rows above it.
pub record Cursor : Type 0 where
  pub index : ℕ
  pub acc : ℕ

unfoldable pub anchor_top : Geometry → ℤ
anchor_top g = g.anchor_rect_top -ℤ g.scroller_rect_top +ℤ g.scroll_top

unfoldable pub view_top : Geometry → ℤ
unfolding anchor_top
view_top g = g.scroll_top -ℤ anchor_top g

unfoldable pub view_bottom : Geometry → ℤ
unfolding view_top
view_bottom g = view_top g +ℤ pos g.client_height

-- The first loop: past the rows that end above the viewport. The fuel is the rows left.
unfoldable pub skip_above : (ℕ → ℕ) → ℤ → ℕ → ℕ → ℕ → Cursor
skip_above h top zero i acc = record { index = i; acc = acc }
skip_above h top (suc left) i acc =
    let next = skip_above h top left (suc i) (acc + h i) in
    if ltb_ℤ (pos (acc + h i)) top then next else record { index = i; acc = acc }

-- The second loop: the rows that begin above the viewport's lower edge.
unfoldable pub take_visible : (ℕ → ℕ) → ℤ → ℕ → ℕ → ℕ → ℕ
take_visible h bottom zero i acc = i
take_visible h bottom (suc left) i acc =
    let next = take_visible h bottom left (suc i) (acc + h i) in
    if ltb_ℤ (pos acc) bottom then next else i

-- `compute`, the range it sets
unfoldable pub compute : (ℕ → ℕ) → Geometry → ℕ → ℕ → Range
unfolding skip_above take_visible
compute h g count overscan =
    let first = skip_above h (view_top g) count 0 0 in
    let last = take_visible h (view_bottom g) (count - first.index) first.index first.acc in
    record { start = first.index - overscan; end = min count (last + overscan) }

-- `sum(from, to)`: the loop has `to - from` rounds.
unfoldable pub sum_rounds : (ℕ → ℕ) → ℕ → ℕ → ℕ
sum_rounds h from zero = 0
sum_rounds h from (suc n) = h from + sum_rounds h (suc from) n

unfoldable pub sum : (ℕ → ℕ) → ℕ → ℕ → ℕ
unfolding sum_rounds
sum h from to = sum_rounds h from (to - from)

pub record Rows : Type 0 where
  pub start : ℕ
  pub end : ℕ
  pub pad_top : ℕ
  pub pad_bottom : ℕ

abbrev pub window_threshold : ℕ
window_threshold = 300

-- What the hook returns; the range in the state may be of an older, longer list.
unfoldable pub windowed_rows : (ℕ → ℕ) → ℕ → ℕ → Range → Rows
unfolding sum
windowed_rows h count threshold range =
    if ltb threshold count
    then (let end = min range.end count in
        let start = min range.start end in
        record { start = start; end = end; pad_top = sum h 0 start; pad_bottom = sum h end count })
    else record { start = 0; end = count; pad_top = 0; pad_bottom = 0 }

-- The hook's state: the measured heights and the range.
pub record Windowing : Type 0 where
  pub heights : Heights
  pub range : Range

abbrev no_heights : Heights
no_heights i = none

-- A new result set or column set: the layout effect clears the table and computes anew.
unfoldable pub reset : Windowing → Bool → ℕ → Geometry → ℕ → ℕ → Windowing
unfolding compute
reset w windowed estimate g count overscan = record {
  heights = no_heights;
  range =
      if windowed
      then compute (height_of no_heights estimate) g count overscan
      else record { start = 0; end = 0 };
}

-- The scroller was resized: every measurement is suspect.
unfoldable pub resize : Windowing → ℕ → Geometry → ℕ → ℕ → Windowing
unfolding compute
resize w estimate g count overscan = record {
  heights = no_heights;
  range = compute (height_of no_heights estimate) g count overscan;
}

unfoldable pub scroll : Windowing → ℕ → Geometry → ℕ → ℕ → Windowing
unfolding compute
scroll w estimate g count overscan = record w {
  range = compute (height_of w.heights estimate) g count overscan;
}

-- `Math.abs(a - b) > 0.5` on whole pixels
abbrev pub differs : ℕ → ℕ → Bool
differs a b = ltb a b || ltb b a

abbrev pub put : Heights → ℕ → ℕ → Heights
put heights i h j = if i == j then some h else heights j

-- The test for one drawn row: its height is known and is not the one in the table.
unfoldable pub moved : ℕ → Heights → ℕ → ℕ → Bool
moved estimate heights i h = ltb 0 h && differs (height_of heights estimate i) h

unfoldable pub record_height : ℕ → Heights → ℕ → ℕ → Heights
unfolding moved
record_height estimate heights i h = if moved estimate heights i h then put heights i h else heights

-- The effect after a commit, over the rows that are drawn: index and measured height.
unfoldable pub measure : ℕ → List (ℕ × ℕ) → Heights → Bool → Heights × Bool
measure estimate [] heights changed = (heights, changed)
measure estimate ((i, h) ∷ rows) heights changed =
    measure estimate rows (record_height estimate heights i h)
      (moved estimate heights i h || changed)

unfoldable pub commit : Windowing → ℕ → Geometry → ℕ → ℕ → List (ℕ × ℕ) → Windowing
unfolding measure scroll
commit w estimate g count overscan rows =
    let (heights, changed) = measure estimate rows w.heights false in
    let measured = record w { heights = heights } in
    if changed then scroll measured estimate g count overscan else measured

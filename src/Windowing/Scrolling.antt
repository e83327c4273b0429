-- ===== src/Windowing/Scrolling.antt =====
-- fs_ui/src/hooks/useWindowedRows.ts: the scroller's events over a list of rows that is long enough
-- for the window, the frame that a scroll asks for, and the rows' elements.
pub mod Current
use cuttlefish.Common.{ℕ, Bool, true, false, not, List, [], ◌∷◌, ◌==◌, map, filter, if◌then◌else◌}
use cuttlefish.Windowing.{Windowing, Geometry, no_heights, reset, resize, scroll, commit}

-- `rows` are the indices of the elements in `rowElsRef`.
pub record Scroller : Type 0 where
  pub windowing : Windowing
  pub geometry : Geometry
  pub frame : Bool
  pub rows : List ℕ

pub data Event : Type 0 where
  scrolls : Geometry → Event
  frame_runs : Event
  resizes : Geometry → Event
  row_mounts : ℕ → Event
  row_unmounts : ℕ → Event
  commits : (ℕ → ℕ) → Event

module _ (estimate count overscan : ℕ) where
  -- The layout effects of a new list: the table of heights is cleared, and the range computed.
  unfoldable pub opened : Geometry → Scroller
  unfolding reset
  opened g = record {
    windowing =
        reset (record { heights = no_heights; range = record { start = 0; end = 0 } }) true estimate
          g count overscan;
    geometry = g;
    frame = false;
    rows = [];
  }

  -- The callback of the frame.
  unfoldable pub run_frame : Scroller → Scroller
  unfolding scroll
  run_frame s =
      if s.frame
      then record s {
        windowing = scroll s.windowing estimate s.geometry count overscan;
        frame = false;
      }
      else s

  -- A scroll asks for a frame unless one is due; a commit measures the rows that have elements.
  unfoldable pub step : Scroller → Event → Scroller
  unfolding run_frame resize commit
  step s (scrolls g) = record s { geometry = g; frame = true }
  step s frame_runs = run_frame s
  step s (resizes g) = record s {
    geometry = g;
    windowing = resize s.windowing estimate g count overscan;
  }
  step s (row_mounts i) = record s { rows = i ∷ filter (λ j. not (i == j)) s.rows }
  step s (row_unmounts i) = record s { rows = filter (λ j. not (i == j)) s.rows }
  step s (commits height) = record s {
    windowing =
        commit s.windowing estimate s.geometry count overscan (map (λ i. (i, height i)) s.rows);
  }

  unfoldable pub run : Scroller → List Event → Scroller
  unfolding step
  run s [] = s
  run s (e ∷ es) = run (step s e) es

-- ===== src/Windowing/Tests.antt =====
-- Runs of the windowing, and the theorems at concrete tables.
use cuttlefish.Common.{ℕ, true, ◌↔◌, ◌+◌, ◌≡◌, refl, ◌≤◌, ◌<◌, arith, [], ◌∷◌, List}
use cuttlefish.Common.Int.{pos, negsuc, ◌+ℤ◌, ◌-ℤ◌}
use cuttlefish.Windowing.{
  moved, record_height, Geometry, Windowing, compute, windowed_rows, sum, view_top, view_bottom,
  no_heights,
}
use cuttlefish.Windowing.Bounds.{windowed_rows-height}
use cuttlefish.Windowing.Scrolling.{Event, scrolls, frame_runs, row_mounts, commits, opened, run}
use cuttlefish.Windowing.Scrolling.Current.{run-is_on_screen}
use cuttlefish.Windowing.Exact.{is_on_screen, compute-is_on_screen}

-- Scrolled 4,000 pixels into a table that begins 200 pixels below the scroller's top.
abbrev scrolled : Geometry
scrolled = record {
  anchor_rect_top = negsuc 3799;
  scroller_rect_top = pos 0;
  scroll_top = pos 4000;
  client_height = 740;
}

abbrev at_top : Geometry
at_top = record {
  anchor_rect_top = pos 0;
  scroller_rect_top = pos 0;
  scroll_top = pos 0;
  client_height = 100;
}

abbrev rows_of_37 : ℕ → ℕ
rows_of_37 i = 37

window : compute rows_of_37 scrolled 1000 10 ≡ record { start = 92; end = 133 }
unfolding compute view_top view_bottom ◌+ℤ◌ ◌-ℤ◌
window = refl

windowed_rows-height_example :
    let w = windowed_rows rows_of_37 500 300 (record { start = 92; end = 133 }) in
    (w.start ≤ w.end)
    × (w.end ≤ 500)
    × (w.pad_top + sum rows_of_37 w.start w.end + w.pad_bottom ≡ sum rows_of_37 0 500)
windowed_rows-height_example =
    windowed_rows-height rows_of_37 500 300 (record { start = 92; end = 133 })

abbrev events : List Event
events = row_mounts 0 ∷ scrolls at_top ∷ scrolls at_top ∷ commits (λ i. 55) ∷ frame_runs ∷ []

run-is_on_screen_example :
    let s = run 37 20 10 (opened 37 20 10 at_top) events in
    (s.windowing.range.start ≤ 1) × (1 < s.windowing.range.end)
run-is_on_screen_example =
    run-is_on_screen 37 20 10 at_top events 1 (unfold run opened in refl) (omega arith)
      (unfold run opened is_on_screen moved record_height ◌-ℤ◌ ◌+ℤ◌ in refl)

abbrev fresh : Windowing
fresh = record { heights = no_heights; range = record { start = 0; end = 0 } }

abbrev drawn : List (ℕ × ℕ)
drawn = (0, 37) ∷ (1, 55) ∷ []

compute-is_on_screen_example :
    let r = compute rows_of_37 scrolled 1000 0 in
    ((r.start ≤ 110) × (110 < r.end)) ↔ (is_on_screen rows_of_37 scrolled 110 ≡ true)
compute-is_on_screen_example = compute-is_on_screen rows_of_37 scrolled 1000 110 (omega arith)

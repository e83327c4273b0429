-- ===== src/Search/Results/Tests.antt =====
-- The results at concrete pages, and the theorem there.
use cuttlefish.Common.{
  ℕ, ◌+◌, ◌-◌, ◌≡◌, refl, true, false, String, List, [], ◌∷◌, none, some, length, get_elem?, map,
  arith,
}
use cuttlefish.Common.Int.{pos, ◌+ℤ◌, ◌-ℤ◌}
use cuttlefish.Common.Text.{show}
use cuttlefish.Types.{Entry, ascending}
use cuttlefish.Format.{Print, format_number}
use cuttlefish.Windowing.{Geometry, compute, sum}
use cuttlefish.Windowing.Exact.{is_on_screen}
use cuttlefish.Search.Columns.{contains, active_columns, missing}
use cuttlefish.Search.Page.{Page}
use cuttlefish.Common.{foldl}
use cuttlefish.Search.Results.{
  menu_step, press_button, mouse_down, Box, done, status, format_duration, column_boxes, drawn_rows,
  result_window,
}
use cuttlefish.Search.Results.Window.{result_window-is_on_screen}

abbrev printer : Print
printer = record {
  log_1024 = λ n. 0;
  two_places = λ n i. "2";
  one_place = λ a b. "1";
  grouped = show;
  locale_date = λ s. "date";
  iso_date = λ s. "iso";
}

abbrev file_at : String → Entry
file_at path = record {
  path = path;
  size_bytes = 1;
  file_type = 1;
  permissions = "";
  uid = 0;
  gid = 0;
  user = "root";
  group = "root";
  mtime = pos 0;
  atime = pos 0;
  ctime = pos 0;
  aggregates = none;
}

abbrev three : List Entry
three = file_at "/a" ∷ file_at "/b" ∷ file_at "/c" ∷ []

abbrev found : Page
found = record {
  rules = [];
  sort_by = "path";
  order = ascending;
  limit = 3;
  results = three;
  is_loading = false;
  error = none;
  has_searched = true;
  selected_path = none;
  elapsed_ms = some 120;
  started_at = none;
  columns = record { shown = []; storage = missing };
  show_text = false;
  query_text = "";
  text_notice = none;
  pending = [];
}

summed_up :
    status printer (λ ms. "1.00") 0 found ≡ done (some "Showing 3 matches (limited to 3) in 120 ms")
unfolding status format_number format_duration show
summed_up = refl

-- The box of the only column cannot be cleared.
last_box :
    get_elem? (map (λ (b : Box). b.disabled) (column_boxes printer ("path" ∷ []))) 0 ≡ some true
unfolding column_boxes active_columns contains
last_box = refl

abbrev at_top : Geometry
at_top = record {
  anchor_rect_top = pos 0;
  scroller_rect_top = pos 0;
  scroll_top = pos 0;
  client_height = 50;
}

abbrev rows_of_37 : ℕ → ℕ
rows_of_37 i = 37

result_window-is_on_screen_example :
    let w = result_window rows_of_37 three (compute rows_of_37 at_top (length three) 10) in
    ((x : Entry) × (get_elem? three 1 ≡ some x)
      × (get_elem? (drawn_rows w three) (1 - w.start) ≡ some (1, x)))
    × (w.pad_top + sum rows_of_37 w.start 1 ≡ sum rows_of_37 0 1)
result_window-is_on_screen_example =
    result_window-is_on_screen rows_of_37 at_top three 10 1 (omega arith)
      (unfold is_on_screen ◌+ℤ◌ ◌-ℤ◌ in refl)

menu_closes : foldl menu_step false (press_button ∷ mouse_down true ∷ mouse_down false ∷ []) ≡ false
unfolding menu_step
menu_closes = refl

-- ===== src/Treemap/Tests.antt =====
-- The treemap over whole numbers, and the theorems there.
use cuttlefish.Common.{
  length, sum_by, refl, ℕ, ◌+◌, ◌-◌, ◌*◌, ◌/◌, min, max, ltb, leb, List, [], ◌∷◌, String, none, ◌≡◌,
  arith,
}
use cuttlefish.Common.Int.{pos}
use cuttlefish.Types.{Entry}
use cuttlefish.Treemap.{Num, Area, squarify, squarify_fuel, layout, Tile, effective_size}
use cuttlefish.Common.Sort.{sort}
use cuttlefish.Treemap.View.{new_pane, set_width, pane_layout}
use cuttlefish.Treemap.Placing.{IsPrefix, squarify-IsPrefix, squarify_fuel-enough}
use cuttlefish.Treemap.Hiding.{Accounts, layout-Accounts}

abbrev whole : Num
whole = record {
  N = ℕ;
  of_nat = λ k. k;
  plus = λ a b. a + b;
  minus = λ a b. a - b;
  times = λ a b. a * b;
  divided_by = λ a b. a / b;
  minimum = λ a b. min a b;
  maximum = λ a b. max a b;
  less = λ a b. ltb a b;
  at_most = λ a b. leb a b;
  infinity = 1000000000;
  minus_infinity = 0;
  hundredth = 0;
}

abbrev file : String → ℕ → Entry
file path size = record {
  path = path;
  size_bytes = size;
  file_type = 1;
  permissions = "rw-r--r--";
  uid = 0;
  gid = 0;
  user = "root";
  group = "root";
  mtime = pos 1;
  atime = pos 1;
  ctime = pos 1;
  aggregates = none;
}

abbrev item : String → ℕ → Area whole
item path area = record { sized = record { entry = file path area; size = area }; area = area }

abbrev items : List (Area whole)
items = item "/a" 60 ∷ item "/b" 30 ∷ item "/c" 10 ∷ []

squarify-IsPrefix_example : IsPrefix whole (squarify whole items 0 0 10 10) items
squarify-IsPrefix_example = squarify-IsPrefix whole items 0 0 10 10

squarify_fuel-enough_example :
    squarify_fuel whole 9 items 0 0 10 10 ≡ squarify whole items 0 0 10 10
squarify_fuel-enough_example = squarify_fuel-enough whole 9 items 0 0 10 10 (omega arith)

layout-Accounts_example : Accounts whole (file "/a" 60 ∷ file "/b" 0 ∷ []) 100 320
layout-Accounts_example = layout-Accounts whole (file "/a" 60 ∷ file "/b" 0 ∷ []) 100 320

-- Before the width is known nothing is drawn, and each entry is listed.
unmeasured : length (pane_layout whole (file "/a" 60 ∷ file "/b" 0 ∷ []) new_pane).hidden ≡ 2
unfolding pane_layout layout sort effective_size
unmeasured = refl

-- The width of a pane that is measured, and the whole map for the one entry that has a size.
measured :
    sum_by
      (λ (t : Tile whole). t.w * t.h)
      (pane_layout whole (file "/a" 60 ∷ file "/b" 0 ∷ []) (set_width 800 new_pane)).tiles
    ≡ 800 * 400
unfolding pane_layout layout set_width sort effective_size
measured = refl

-- ===== src/Treemap.antt =====
-- fs_ui/src/components/TreemapView.tsx: which entries of a directory are drawn, and where.
-- Lengths are numbers of a type that the model takes with its operations, without laws. The loop of
-- `squarify` takes a row of at least one item off the queue each round, so the queue's length is
-- enough rounds.
pub mod Placing
pub mod Hiding
pub mod View
mod Tests
use cuttlefish.Common.{
  ℕ, zero, suc, ◌==◌, Bool, true, false, ◌&&◌, ◌||◌, not, String, List, [], ◌∷◌, ◌++◌, Option, none,
  some, map, foldl, filter, any, length, sum_by, ltb, leb, str_eq, if◌then◌else◌, get_or_else,
  get_last?,
}
use cuttlefish.Common.Sort.{sort}
use cuttlefish.Common.Text.{segments}
use cuttlefish.Types.{Entry}
use cuttlefish.Search.Columns.{total_or}

-- The operations of JavaScript's numbers that the layout uses.
pub record Num : Type 1 where
  pub N : Type 0
  pub of_nat : ℕ → N
  pub plus : N → N → N
  pub minus : N → N → N
  pub times : N → N → N
  pub divided_by : N → N → N
  pub minimum : N → N → N
  pub maximum : N → N → N
  pub less : N → N → Bool
  pub at_most : N → N → Bool
  pub infinity : N
  pub minus_infinity : N
  -- 0.01
  pub hundredth : N

-- `e.file_type === 2 ? (e.aggregates?.total_size_bytes ?? 0) : e.size_bytes`
unfoldable pub effective_size : Entry → ℕ
effective_size e = if e.file_type == 2 then total_or e.aggregates 0 else e.size_bytes

unfoldable pub entry_name : Entry → String
unfolding segments
entry_name e = get_or_else (get_last? (segments e.path)) e.path

pub record Sized : Type 0 where
  pub entry : Entry
  pub size : ℕ

abbrev pub sized_of : Entry → Sized
sized_of e = record { entry = e; size = effective_size e }

-- Largest first.
abbrev pub larger : Sized → Sized → Bool
larger a b = ltb b.size a.size

-- A tile smaller than this many square pixels is not drawn.
abbrev pub min_tile_area : ℕ
min_tile_area = 100

module _ (n : Num) where
  pub record Area : Type 0 where
    pub sized : Sized
    pub area : n.N

  pub record Tile : Type 0 where
    pub entry : Entry
    pub size : ℕ
    pub x : n.N
    pub y : n.N
    pub w : n.N
    pub h : n.N

  abbrev pub total : List n.N → n.N
  total areas = foldl n.plus (n.of_nat 0) areas

  abbrev pub area_of : Area → n.N
  area_of a = a.area

  abbrev pub sum_areas : List Area → n.N
  sum_areas row = foldl (λ s t. n.plus s (area_of t)) (n.of_nat 0) row

  unfoldable pub worst_ratio : List n.N → n.N → n.N
  worst_ratio areas side =
      let sum = total areas in
      let most = foldl n.maximum n.minus_infinity areas in
      let least = foldl n.minimum n.infinity areas in
      let s2 = n.times side side in
      let sum2 = n.times sum sum in
      if n.at_most sum (n.of_nat 0) || n.at_most side (n.of_nat 0)
      then n.infinity
      else n.maximum (n.divided_by (n.times s2 most) sum2) (n.divided_by sum2 (n.times s2 least))

  -- The row, and the queue behind it.
  pub record Split : Type 0 where
    pub row : List Area
    pub rest : List Area

  -- The row grows while its worst ratio does not get worse.
  unfoldable pub grow : n.N → List Area → List Area → Split
  grow side row [] = record { row = row; rest = [] }
  grow side row (t ∷ ts) =
      let more = grow side (row ++ t ∷ []) ts in
      if n.less (worst_ratio (map area_of row) side)
        (worst_ratio (map area_of (row ++ t ∷ [])) side)
      then record { row = row; rest = t ∷ ts }
      else more

  -- Down the left edge, and across the top edge.
  unfoldable pub place_down : n.N → n.N → n.N → List Area → List Tile
  place_down x oy row_w [] = []
  place_down x oy row_w (t ∷ ts) =
      let th = n.divided_by t.area row_w in
      record { entry = t.sized.entry; size = t.sized.size; x = x; y = oy; w = row_w; h = th }
      ∷ place_down x (n.plus oy th) row_w ts

  unfoldable pub place_across : n.N → n.N → n.N → List Area → List Tile
  place_across ox y row_h [] = []
  place_across ox y row_h (t ∷ ts) =
      let tw = n.divided_by t.area row_h in
      record { entry = t.sized.entry; size = t.sized.size; x = ox; y = y; w = tw; h = row_h }
      ∷ place_across (n.plus ox tw) y row_h ts

  abbrev pub open_enough : n.N → n.N → Bool
  open_enough w h = n.less n.hundredth w && n.less n.hundredth h

  unfoldable pub squarify_fuel : ℕ → List Area → n.N → n.N → n.N → n.N → List Tile
  unfolding grow place_down place_across
  squarify_fuel zero queue x y w h = []
  squarify_fuel (suc f) [] x y w h = []
  squarify_fuel (suc f) (t ∷ ts) x y w h =
      let split = grow (n.minimum w h) (t ∷ []) ts in
      let row_area = sum_areas split.row in
      let row_w = n.divided_by row_area h in
      let row_h = n.divided_by row_area w in
      let down =
        place_down x y row_w split.row
        ++ squarify_fuel f split.rest (n.plus x row_w) y (n.minus w row_w) h in
      let across =
        place_across x y row_h split.row
        ++ squarify_fuel f split.rest x (n.plus y row_h) w (n.minus h row_h) in
      if open_enough w h then if n.at_most h w then down else across else []

  unfoldable pub squarify : List Area → n.N → n.N → n.N → n.N → List Tile
  unfolding squarify_fuel
  squarify items x y w h = squarify_fuel (length items) items x y w h

  abbrev pub sizes : List Sized → ℕ
  sizes l = sum_by (λ (s : Sized). s.size) l

  abbrev pub is_drawn : n.N → ℕ → Sized → Bool
  is_drawn area all s =
      ltb 0 s.size
      && n.at_most (n.of_nat min_tile_area)
          (n.times (n.divided_by (n.of_nat s.size) (n.of_nat all)) area)

  -- `drawnPaths.has(path)`
  abbrev pub has_path : List Sized → String → Bool
  has_path l path = any (λ (s : Sized). str_eq s.entry.path path) l

  unfoldable pub sorted : List Entry → List Sized
  sorted entries = sort larger (map sized_of entries)

  unfoldable pub drawn : List Sized → n.N → List Sized
  drawn l area =
      if n.less (n.of_nat 0) area && ltb 0 (sizes l) then filter (is_drawn area (sizes l)) l else []

  pub record Layout : Type 0 where
    pub tiles : List Tile
    pub hidden : List Sized
    pub hidden_bytes : ℕ
    pub grand_total : ℕ

  abbrev pub share_of : ℕ → n.N → Sized → Area
  share_of all area s = record {
    sized = s;
    area = n.times (n.divided_by (n.of_nat s.size) (n.of_nat all)) area;
  }

  unfoldable pub tiles_of : List Sized → n.N → n.N → List Tile
  unfolding squarify
  tiles_of l width height =
      let items = map (share_of (sizes l) (n.times width height)) l in
      if ltb 0 (sizes l) then squarify items (n.of_nat 0) (n.of_nat 0) width height else []

  unfoldable pub layout : List Entry → n.N → n.N → Layout
  unfolding sorted drawn tiles_of
  layout entries width height =
      let all = sorted entries in
      let chosen = drawn all (n.times width height) in
      let rest = filter (λ (s : Sized). not (has_path chosen s.entry.path)) all in
      record {
        tiles = tiles_of chosen width height;
        hidden = rest;
        hidden_bytes = sizes rest;
        grand_total = sizes all;
      }

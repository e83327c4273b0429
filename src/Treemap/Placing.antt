-- ===== src/Treemap/Placing.antt =====
-- fs_ui/src/components/TreemapView.tsx: the order of the tiles, and the rounds of squarify.
use mathlib.Core.List.{append_assoc, map-append}
use cuttlefish.Common.{
  ℕ, zero, suc, ◌+◌, ◌-◌, ◌≤◌, List, [], ◌∷◌, ◌++◌, map, length, ◌≡◌, refl, ap, sym, ◌∙◌, arith,
  Bool-cases, inl, inr,
}
use cuttlefish.Types.{Entry}
use cuttlefish.Treemap.{
  Num, Area, Tile, area_of, worst_ratio, grow, place_down, place_across, open_enough, squarify_fuel,
  squarify,
}

module _ (n : Num) where
  abbrev pub items_entry : Area n → Entry
  items_entry a = a.sized.entry

  abbrev pub tiles_entry : Tile n → Entry
  tiles_entry t = t.entry

  grow-append :
      (side : n.N) (row queue : List (Area n))
      → (grow n side row queue).row ++ (grow n side row queue).rest ≡ row ++ queue
  unfolding grow
  grow-append side row [] = refl
  grow-append side row (t ∷ ts) =
      elim (Bool-cases (
        n.less (worst_ratio n (map (area_of n) row) side)
          (worst_ratio n (map (area_of n) (row ++ t ∷ [])) side))) [
            | inl e ↦ rw e refl
            | inr e ↦ rw e (grow-append side (row ++ t ∷ []) ts ∙ append_assoc row (t ∷ []) ts)
          ]

  grow-rest :
      (side : n.N) (row queue : List (Area n)) → length (grow n side row queue).rest ≤ length queue
  unfolding grow
  grow-rest side row [] = omega arith
  grow-rest side row (t ∷ ts) =
      elim (Bool-cases (
        n.less (worst_ratio n (map (area_of n) row) side)
          (worst_ratio n (map (area_of n) (row ++ t ∷ [])) side))) [
            | inl e ↦ rw e (omega arith)
            | inr e ↦ rw e (omega (arith, grow-rest side (row ++ t ∷ []) ts))
          ]

  map-place_down :
      (x oy row_w : n.N) (row : List (Area n))
      → map tiles_entry (place_down n x oy row_w row) ≡ map items_entry row
  unfolding place_down
  map-place_down x oy row_w [] = refl
  map-place_down x oy row_w (t ∷ ts) =
      ap (λ l. t.sized.entry ∷ l)
        (map-place_down x (n.plus oy (n.divided_by t.area row_w)) row_w ts)

  map-place_across :
      (ox y row_h : n.N) (row : List (Area n))
      → map tiles_entry (place_across n ox y row_h row) ≡ map items_entry row
  unfolding place_across
  map-place_across ox y row_h [] = refl
  map-place_across ox y row_h (t ∷ ts) =
      ap (λ l. t.sized.entry ∷ l)
        (map-place_across (n.plus ox (n.divided_by t.area row_h)) y row_h ts)

  -- The tiles are for the first of the items, in their order.
  abbrev pub IsPrefix : List (Tile n) → List (Area n) → Type 0
  IsPrefix tiles items =
      (left : List (Area n)) × (map tiles_entry tiles ++ map items_entry left
        ≡ map items_entry items)

  IsPrefix-append :
      (placed tiles : List (Tile n)) (row rest items : List (Area n))
      → map tiles_entry placed ≡ map items_entry row
      → row ++ rest ≡ items
      → IsPrefix tiles rest
      → IsPrefix (placed ++ tiles) items
  IsPrefix-append placed tiles row rest items p e (left, k) = (
    left,
    ap (λ l. l ++ map items_entry left) (map-append tiles_entry placed tiles)
        ∙ append_assoc (map tiles_entry placed) (map tiles_entry tiles) (map items_entry left)
        ∙ ap (λ l. l ++ (map tiles_entry tiles ++ map items_entry left)) p
        ∙ ap (λ l. map items_entry row ++ l) k
        ∙ sym (map-append items_entry row rest)
        ∙ ap (map items_entry) e,
  )

  squarify_fuel-IsPrefix :
      (f : ℕ) (items : List (Area n)) (x y w h : n.N)
      → IsPrefix (squarify_fuel n f items x y w h) items
  unfolding squarify_fuel
  squarify_fuel-IsPrefix zero items x y w h = (items, refl)
  squarify_fuel-IsPrefix (suc f) [] x y w h = ([], refl)
  squarify_fuel-IsPrefix (suc f) (t ∷ ts) x y w h =
      let whole = grow-append (n.minimum w h) (t ∷ []) ts in
      let next = squarify_fuel-IsPrefix f (grow n (n.minimum w h) (t ∷ []) ts).rest in
      elim (Bool-cases (open_enough n w h)) [
        | inr e ↦ rw e (t ∷ ts, refl)
        | inl e ↦ elim (Bool-cases (n.at_most h w)) [
          | inl e' ↦
              rw (e, e')
                (IsPrefix-append _ _ _ _ (t ∷ ts) (map-place_down _ _ _ _) whole (next _ _ _ _))
          | inr e' ↦
              rw (e, e')
                (IsPrefix-append _ _ _ _ (t ∷ ts) (map-place_across _ _ _ _) whole (next _ _ _ _))
        ]
      ]

  squarify_fuel-more :
      (f : ℕ) (items : List (Area n)) (x y w h : n.N)
      → length items ≤ f
      → squarify_fuel n (suc f) items x y w h ≡ squarify_fuel n f items x y w h
  unfolding squarify_fuel
  squarify_fuel-more zero [] x y w h k = refl
  squarify_fuel-more zero (t ∷ ts) x y w h k = absurd (omega arith)
  squarify_fuel-more (suc f) [] x y w h k = refl
  squarify_fuel-more (suc f) (t ∷ ts) x y w h k =
      let split = grow n (n.minimum w h) (t ∷ []) ts in
      let next = λ (x' y' w' h' : n.N).
        squarify_fuel-more f split.rest x' y' w' h'
          (omega (arith, grow-rest (n.minimum w h) (t ∷ []) ts)) in
      rw (next _ y _ h, next x _ w _) refl

  squarify_fuel-extra :
      (k : ℕ) (items : List (Area n)) (x y w h : n.N)
      → squarify_fuel n (k + length items) items x y w h ≡ squarify n items x y w h
  unfolding squarify
  squarify_fuel-extra zero items x y w h = ap (λ f. squarify_fuel n f items x y w h) (omega arith)
  squarify_fuel-extra (suc k) items x y w h =
      ap (λ f. squarify_fuel n f items x y w h) {y = suc (k + length items)} (omega arith)
      ∙ squarify_fuel-more (k + length items) items x y w h (omega arith)
      ∙ squarify_fuel-extra k items x y w h

-- The tiles of the treemap are for the first of the items, each once and in their order.
pub squarify-IsPrefix :
    (n : Num) (items : List (Area n)) (x y w h : n.N) → IsPrefix n (squarify n items x y w h) items
unfolding squarify
squarify-IsPrefix n items x y w h = squarify_fuel-IsPrefix n (length items) items x y w h

-- The loop has ended when it has had as many rounds as there are items: more rounds place the same
-- tiles.
pub squarify_fuel-enough :
    (n : Num) (f : ℕ) (items : List (Area n)) (x y w h : n.N)
    → length items ≤ f
    → squarify_fuel n f items x y w h ≡ squarify n items x y w h
squarify_fuel-enough n f items x y w h enough =
    ap (λ g. squarify_fuel n g items x y w h) {y = f - length items + length items} (omega arith)
    ∙ squarify_fuel-extra n (f - length items) items x y w h

-- ===== src/Detail/Largest.antt =====
-- fs_ui/src/components/DetailPanel.tsx: which children of a directory the bar shows.
use mathlib.Core.List.{Perm}
use cuttlefish.Common.{
  ℕ, suc, ◌++◌, ◌≡◌, refl, sym, ◌∙◌, ◌≤◌, arith, true, false, String, List, [], ◌∷◌, some, map, max,
  min, take, drop, length, All, All-imp, ap, length-take, length-map, take-append-drop, zero,
  Option,
}
use cuttlefish.Common.Sort.{sort, IsSorted, IsOrder, sort-IsSorted, sort-perm, length-sort}
use cuttlefish.Types.{Entry}
use cuttlefish.Format.{Print, format_percent}
use cuttlefish.Detail.Selection.{entry, is_directory}
use cuttlefish.Detail.Breakdown.{
  Part, BreakdownItem, part_of, larger, sized, breakdown_total, breakdown_items, contents_breakdown,
  breakdown,
}

larger-IsOrder : IsOrder larger
larger-IsOrder = record { asym = λ x y h. ground arith; trans_not = λ x y z h k. ground arith }

-- What an item is to show of a child, of which `total` is the whole: its name, its width, its share.
abbrev pub face_of : Print → ℕ → Part → String × ℕ × String
face_of p total c = (c.name, max c.size 1, format_percent p c.size total)

abbrev pub shown_face : BreakdownItem → String × ℕ × String
shown_face b = (b.name, b.flex, b.pct_label)

-- None of the parts is larger than any of the others.
abbrev pub IsAbove : List Part → List Part → Type 0
IsAbove shown hidden = All (λ (a : Part). All (λ (b : Part). b.size ≤ a.size) hidden) shown

breakdown_items-face :
    (p : Print) (total i : ℕ) (parts : List Part)
    → map shown_face (breakdown_items p total i parts) ≡ map (face_of p total) parts
unfolding breakdown_items
breakdown_items-face p total i [] = refl
breakdown_items-face p total i (c ∷ cs) =
    ap (λ l. face_of p total c ∷ l) (breakdown_items-face p total (suc i) cs)

All-drop : (P : Part → Type 0) (n : ℕ) (l : List Part) → All P l → All P (drop n l)
All-drop P zero l h = h
All-drop P (suc n) [] h = tt
All-drop P (suc n) (c ∷ cs) h = All-drop P n cs h.1

-- The front of a sorted list stands above what is behind it.
take-IsAbove : (n : ℕ) (l : List Part) → IsSorted larger l → IsAbove (take n l) (drop n l)
take-IsAbove zero l h = tt
take-IsAbove (suc n) [] h = tt
take-IsAbove (suc n) (c ∷ cs) h = (
  All-imp _ _ (drop n cs) (λ b k. ground arith) (All-drop (λ b. larger b c ≡ false) n cs h.0),
  take-IsAbove n cs h.1,
)

-- The bar of a directory shows its largest children: its items stand for four of them, or for all
-- if they are fewer, each with its child's name and share, and as wide as its child is large and at
-- least 1, and no child that is left out is larger than one that is shown. The share is of the
-- directory's total, or of the sum of the children if that is 0 or not known, or of 1.
pub breakdown-IsAbove :
    (p : Print) (e : Entry) (siblings : Option ℕ) (children : List Entry)
    → is_directory e ≡ true
    → (shown : List Part) × (hidden : List Part) × Perm (shown ++ hidden) (map part_of children)
      × (length shown ≡ min 4 (length children))
      × IsAbove shown hidden
      × (map shown_face (breakdown p (some (entry e siblings)) (some children)).items
          ≡ map (face_of p (breakdown_total e (shown ++ hidden))) shown)
unfolding breakdown contents_breakdown sized
breakdown-IsAbove p e siblings children dir = (
  take 4 parts,
  drop 4 parts,
  rw take-append-drop (sort-perm larger (map part_of children)),
  omega (
    arith,
    length-take 4 parts,
    length-sort larger (map part_of children),
    length-map part_of children,
  ),
  take-IsAbove 4 parts (sort-IsSorted larger larger-IsOrder (map part_of children)),
  rw dir (
      breakdown_items-face p (breakdown_total e parts) 0 (take 4 parts)
      ∙ ap (λ l. map (face_of p (breakdown_total e l)) (take 4 parts))
          (sym (take-append-drop 4 parts))),
)
  where
    parts : List Part
    parts = sort larger (map part_of children)

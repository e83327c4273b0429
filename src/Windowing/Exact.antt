-- ===== src/Windowing/Exact.antt =====
-- fs_ui/src/hooks/useWindowedRows.ts: the range without overscan against a description of it that
-- has no loop.
use native.Mathlib.Decide.{dec_lt}
use cuttlefish.Common.{
  and-eq-true, ℕ, zero, suc, ◌+◌, ◌-◌, ◌≡◌, refl, ◌≤◌, ◌<◌, arith, true, false, Bool, ◌&&◌, not,
  Bool-cases, inl, inr, ◌⊎◌, ◌↔◌,
}
use cuttlefish.Common.Int.{ℤ, pos, ltb_ℤ}
use cuttlefish.Windowing.{
  Geometry, Cursor, skip_above, take_visible, compute, sum_rounds, sum, view_top, view_bottom,
}
use cuttlefish.Windowing.Coverage.{
  offset, offset-suc, offset-le, sum-offset, skip_above-offset, compute-covers,
}

-- The row's lower edge is not above the viewport, and its upper edge is above the viewport's lower
-- edge.
unfoldable pub is_on_screen : (ℕ → ℕ) → Geometry → ℕ → Bool
unfolding sum view_top view_bottom
is_on_screen h g j =
    not (ltb_ℤ (pos (sum h 0 (suc j))) (view_top g)) && ltb_ℤ (pos (sum h 0 j)) (view_bottom g)

-- The first loop stops at the end of the list, or at a row that ends in the viewport.
skip_above-stops :
    (h : ℕ → ℕ) (top : ℤ) (left i acc : ℕ)
    → acc ≡ offset h i
    → let c = skip_above h top left i acc in
      (c.index ≡ i + left) ⊎ (ltb_ℤ (pos (offset h (suc c.index))) top ≡ false)
unfolding skip_above
skip_above-stops h top zero i acc e = inl (omega arith)
skip_above-stops h top (suc left) i acc e =
    let e' : acc + h i ≡ offset h (suc i) = omega (arith, offset-suc h i) in
    let ih = skip_above-stops h top left (suc i) (acc + h i) e' in
    elim (Bool-cases (ltb_ℤ (pos (acc + h i)) top)) [
      | inl more ↦ rw more (elim ih [ inl end ↦ inl (omega (arith, end)) | inr past ↦ inr past ])
      | inr stop ↦ rw stop (inr (rw (← e') stop))
    ]

-- Every row that the second loop passes begins above the viewport's lower edge.
take_visible-begins :
    (h : ℕ → ℕ) (bottom : ℤ) (left i acc j : ℕ)
    → acc ≡ offset h i
    → i ≤ j
    → j < take_visible h bottom left i acc
    → ltb_ℤ (pos (offset h j)) bottom ≡ true
unfolding take_visible
take_visible-begins h bottom zero i acc j e p l = absurd (omega arith)
take_visible-begins h bottom (suc left) i acc j e p l =
    let e' : acc + h i ≡ offset h (suc i) = omega (arith, offset-suc h i) in
    elim (Bool-cases (ltb_ℤ (pos acc) bottom)) [
      | inl more ↦ elim (dec_lt i j) [
        | yes q ↦
            take_visible-begins h bottom left (suc i) (acc + h i) j e' (omega arith) (rw more at l)
        | no q ↦ let same : j ≡ i = omega arith in rw (same, ← e) more
      ]
      | inr stop ↦ absurd (omega (arith, rw stop at l))
    ]

not-ltb_ℤ-le : (a b : ℕ) (z : ℤ) → a ≤ b → ltb_ℤ (pos a) z ≡ false → ltb_ℤ (pos b) z ≡ false
not-ltb_ℤ-le a b z p h = ground arith

in_range-is_on_screen :
    (h : ℕ → ℕ) (g : Geometry) (count j : ℕ)
    → j < count
    → let r = compute h g count 0 in r.start ≤ j → j < r.end → is_on_screen h g j ≡ true
unfolding compute is_on_screen
in_range-is_on_screen h g count j lt starts ends = rw (below, above) refl
  where
    c : Cursor
    c = skip_above h (view_top g) count 0 0

    at_cursor : c.acc ≡ offset h c.index
    at_cursor = (skip_above-offset h (view_top g) count 0 0 (unfold sum_rounds in refl)).0

    above : ltb_ℤ (pos (sum h 0 (suc j))) (view_top g) ≡ false
    above = elim (skip_above-stops h (view_top g) count 0 0 (unfold sum_rounds in refl)) [
      | inl end ↦ absurd (omega (arith, end, starts, lt))
      | inr stop ↦ rw sum-offset (
          not-ltb_ℤ-le _ _ (view_top g) (offset-le h (suc c.index) (suc j) (omega (arith, starts)))
            stop)
    ]

    below : ltb_ℤ (pos (sum h 0 j)) (view_bottom g) ≡ true
    below = rw sum-offset (
        take_visible-begins h (view_bottom g) (count - c.index) c.index c.acc j at_cursor
          (omega (arith, starts)) (omega (arith, ends)))

pub false_of_not : {b : Bool} → not b ≡ true → b ≡ false
false_of_not {b} e = ground arith

-- Without overscan the range that the two loops find is exactly what a description without loops
-- says: a row of the list lies in it if and only if the row is on screen, its lower edge not above
-- the viewport and its upper edge above the viewport's lower edge.
pub compute-is_on_screen :
    (h : ℕ → ℕ) (g : Geometry) (count j : ℕ)
    → j < count
    → let r = compute h g count 0 in ((r.start ≤ j) × (j < r.end)) ↔ (is_on_screen h g j ≡ true)
unfolding is_on_screen
compute-is_on_screen h g count j lt = (
  λ r. in_range-is_on_screen h g count j lt r.0 r.1,
  λ on.
      let both = and-eq-true _ _ on in compute-covers h g count 0 j lt (false_of_not both.0) both.1,
)

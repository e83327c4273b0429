-- ===== src/Windowing/Coverage.antt =====
-- fs_ui/src/hooks/useWindowedRows.ts: the rows of the range against the viewport.
use mathlib.Core.Bool.{false≢true}
use native.Mathlib.Decide.{dec_le, dec_lt}
use cuttlefish.Common.{
  ℕ, zero, suc, ◌+◌, ◌-◌, ◌≡◌, refl, ◌≤◌, ◌<◌, arith, true, false, Bool-cases, sym, ap, ◌∙◌, inl,
  inr, ◌⊎◌,
}
use cuttlefish.Common.Int.{ℤ, pos, ltb_ℤ}
use cuttlefish.Windowing.{
  Geometry, Cursor, skip_above, take_visible, compute, sum_rounds, sum, view_top, view_bottom,
}
use cuttlefish.Windowing.Bounds.{sum_rounds-append}

-- The height of the rows above row i.
abbrev pub offset : (ℕ → ℕ) → ℕ → ℕ
offset h i = sum_rounds h 0 i

pub offset-suc : (h : ℕ → ℕ) (i : ℕ) → offset h (suc i) ≡ offset h i + h i
offset-suc h i =
    let e : suc i ≡ i + 1 = omega arith in rw e (omega (arith, sum_rounds-append h 0 i 1, one))
  where
    one : sum_rounds h (0 + i) 1 ≡ h i
    one = let z : 0 + i ≡ i = omega arith in rw z (unfold sum_rounds in omega arith)

offset_mono : (h : ℕ → ℕ) (i n : ℕ) → offset h i ≤ offset h (i + n)
offset_mono h i n = omega (arith, sum_rounds-append h 0 i n)

-- Where the first loop stops: what it has passed ends above the viewport.
pub skip_above-offset :
    (h : ℕ → ℕ) (top : ℤ) (left i acc : ℕ)
    → acc ≡ offset h i
    → let c = skip_above h top left i acc in
      (c.acc ≡ offset h c.index) × ((c.index ≡ i) ⊎ (ltb_ℤ (pos (offset h c.index)) top ≡ true))
unfolding skip_above
skip_above-offset h top zero i acc e = (e, inl refl)
skip_above-offset h top (suc left) i acc e =
    let e' : acc + h i ≡ offset h (suc i) = omega (arith, offset-suc h i) in
    let ih = skip_above-offset h top left (suc i) (acc + h i) e' in
    elim (Bool-cases (ltb_ℤ (pos (acc + h i)) top)) [
      | inl more ↦
          rw more (ih.0, elim ih.1 [ inl same ↦ inr (rw (same, ← e') more) | inr past ↦ inr past ])
      | inr stop ↦ rw stop (e, inl refl)
    ]

-- Where the second loop stops: at the end of the list, or at a row that begins below the viewport.
take_visible-offset :
    (h : ℕ → ℕ) (bottom : ℤ) (left i acc : ℕ)
    → acc ≡ offset h i
    → let e = take_visible h bottom left i acc in
      (e ≡ i + left) ⊎ (ltb_ℤ (pos (offset h e)) bottom ≡ false)
unfolding take_visible
take_visible-offset h bottom zero i acc e = inl (omega arith)
take_visible-offset h bottom (suc left) i acc e =
    let e' : acc + h i ≡ offset h (suc i) = omega (arith, offset-suc h i) in
    let ih = take_visible-offset h bottom left (suc i) (acc + h i) e' in
    elim (Bool-cases (ltb_ℤ (pos acc) bottom)) [
      | inl more ↦ rw more (elim ih [ inl end ↦ inl (omega (arith, end)) | inr past ↦ inr past ])
      | inr stop ↦ rw stop (inr (rw (← e) stop))
    ]

pub offset-le : (h : ℕ → ℕ) (i j : ℕ) → i ≤ j → offset h i ≤ offset h j
offset-le h i j p = let e : i + (j - i) ≡ j = omega arith in rw (← e) (offset_mono h i (j - i))

pub ltb_ℤ-le : (a b : ℕ) (z : ℤ) → a ≤ b → ltb_ℤ (pos b) z ≡ true → ltb_ℤ (pos a) z ≡ true
ltb_ℤ-le a b z p h = ground arith

pub sum-offset : (h : ℕ → ℕ) (i : ℕ) → sum h 0 i ≡ offset h i
unfolding sum
sum-offset h i = ap (sum_rounds h 0) (omega arith)

-- A row whose lower edge is not above the viewport, and whose upper edge is above the viewport's
-- lower edge, lies in the range, whatever the overscan.
pub compute-covers :
    (h : ℕ → ℕ) (g : Geometry) (count overscan j : ℕ)
    → j < count
    → ltb_ℤ (pos (sum h 0 (suc j))) (view_top g) ≡ false
    → ltb_ℤ (pos (sum h 0 j)) (view_bottom g) ≡ true
    → let r = compute h g count overscan in (r.start ≤ j) × (j < r.end)
unfolding compute
compute-covers h g count overscan j lt above below = omega (arith, starts, ends)
  where
    c : Cursor
    c = skip_above h (view_top g) count 0 0

    first :
        (c.acc ≡ offset h c.index)
        × ((c.index ≡ 0) ⊎ (ltb_ℤ (pos (offset h c.index)) (view_top g) ≡ true))
    first = skip_above-offset h (view_top g) count 0 0 (unfold sum_rounds in refl)

    starts : c.index ≤ j
    starts = elim (dec_le c.index j) [
      | yes p ↦ p
      | no p ↦ elim first.1 [
        | inl z ↦ omega arith
        | inr past ↦ absurd (
            false≢true (
              sym (rw sum-offset at above)
              ∙ ltb_ℤ-le _ _ (view_top g) (offset-le h (suc j) c.index (omega arith)) past))
      ]
    ]

    e : ℕ
    e = take_visible h (view_bottom g) (count - c.index) c.index c.acc

    ends : j < e
    ends = elim (dec_lt j e) [
      | yes p ↦ p
      | no p ↦
          elim (take_visible-offset h (view_bottom g) (count - c.index) c.index c.acc first.0) [
            | inl all ↦ omega (arith, starts, all)
            | inr past ↦ absurd (
                false≢true (
                  sym past
                  ∙ ltb_ℤ-le _ _ (view_bottom g) (offset-le h e j (omega arith))
                      (rw sum-offset at below)))
          ]
    ]

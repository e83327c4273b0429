-- ===== src/Windowing/Bounds.antt =====
-- fs_ui/src/hooks/useWindowedRows.ts: the bounds of the range, and the height of the spacers.
use native.Mathlib.Nat.{zero-add, add_assoc}
use cuttlefish.Common.{
  ℕ, zero, suc, ◌+◌, ◌-◌, ◌≡◌, refl, ◌≤◌, arith, min, ltb, ap, Bool-cases, inl, inr,
}
use cuttlefish.Common.Int.{ℤ}
use cuttlefish.Windowing.{
  Geometry, Range, skip_above, take_visible, compute, sum_rounds, sum, windowed_rows, view_top,
  view_bottom,
}

pub skip_above-le :
    (h : ℕ → ℕ) (top : ℤ) (left i acc : ℕ)
    → (i ≤ (skip_above h top left i acc).index) × ((skip_above h top left i acc).index ≤ i + left)
unfolding skip_above
skip_above-le h top zero i acc = omega arith
skip_above-le h top (suc left) i acc = ground (arith, skip_above-le h top left (suc i) (acc + h i))

pub take_visible-le :
    (h : ℕ → ℕ) (bottom : ℤ) (left i acc : ℕ)
    → (i ≤ take_visible h bottom left i acc) × (take_visible h bottom left i acc ≤ i + left)
unfolding take_visible
take_visible-le h bottom zero i acc = omega arith
take_visible-le h bottom (suc left) i acc =
    ground (arith, take_visible-le h bottom left (suc i) (acc + h i))

-- The computed range lies in the list, whatever the scroll position and the heights.
pub compute-le :
    (h : ℕ → ℕ) (g : Geometry) (count overscan : ℕ)
    → let r = compute h g count overscan in (r.start ≤ r.end) × (r.end ≤ count)
unfolding compute
compute-le h g count overscan = omega (arith, first, last)
  where
    first : (skip_above h (view_top g) count 0 0).index ≤ count
    first = omega (arith, skip_above-le h (view_top g) count 0 0)

    last :
        let c = skip_above h (view_top g) count 0 0 in
        c.index ≤ take_visible h (view_bottom g) (count - c.index) c.index c.acc
    last = omega (arith, take_visible-le h (view_bottom g) _ _ _)

pub sum_rounds-append :
    (h : ℕ → ℕ) (from n m : ℕ)
    → sum_rounds h from n + sum_rounds h (from + n) m ≡ sum_rounds h from (n + m)
unfolding sum_rounds
sum_rounds-append h from zero m =
    let e : from + 0 ≡ from = omega arith in
    let l : 0 + m ≡ m = omega arith in rw (e, l, zero-add) refl
sum_rounds-append h from (suc n) m =
    let e : from + suc n ≡ suc from + n = omega arith in
    let l : suc n + m ≡ suc (n + m) = omega arith in
    rw (e, l, add_assoc) (ap (λ t. h from + t) (sum_rounds-append h (suc from) n m))

-- The heights of neighbouring stretches add up.
pub sum-append : (h : ℕ → ℕ) (a b c : ℕ) → a ≤ b → b ≤ c → sum h a b + sum h b c ≡ sum h a c
unfolding sum
sum-append h a b c p q =
    let e : a + (b - a) ≡ b = omega arith in
    let l : (b - a) + (c - b) ≡ c - a = omega arith in
    rw (← l, ← sum_rounds-append h a (b - a) (c - b), e) refl

-- Spacers and drawn rows are together as high as all rows, so the scrollbar does not move with the
-- window; and the drawn rows lie in the list.
pub windowed_rows-height :
    (h : ℕ → ℕ) (count threshold : ℕ) (range : Range)
    → let w = windowed_rows h count threshold range in
      (w.start ≤ w.end)
      × (w.end ≤ count)
      × (w.pad_top + sum h w.start w.end + w.pad_bottom ≡ sum h 0 count)
unfolding windowed_rows sum
windowed_rows-height h count threshold range = elim (Bool-cases (ltb threshold count)) [
  | inl e ↦
      rw (e, windowed_rows)
        (covers (min range.end count) (min range.start (min range.end count)) (omega arith)
          (omega arith))
  | inr e ↦ rw (e, windowed_rows) (omega arith, omega arith, omega arith)
]
  where
    covers :
        (end start : ℕ)
        → start ≤ end
        → end ≤ count
        → (start ≤ end)
          × (end ≤ count)
          × (sum h 0 start + sum h start end + sum h end count ≡ sum h 0 count)
    covers end start p q = (
      p,
      q,
      omega (
        arith,
        sum-append h 0 start end (omega arith) p,
        sum-append h 0 end count (omega arith) q,
      ),
    )

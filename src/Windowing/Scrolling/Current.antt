-- ===== src/Windowing/Scrolling/Current.antt =====
-- fs_ui/src/hooks/useWindowedRows.ts: the range against what is on screen, over the scroller's events.
use cuttlefish.Common.{
  ℕ, Bool, true, false, List, [], ◌∷◌, map, ◌≡◌, refl, ◌⊎◌, inl, inr, ◌<◌, ◌≤◌, Bool-cases,
}
use mathlib.Core.Bool.{false≢true}
use cuttlefish.Common.{sym, ◌∙◌, and-eq-true}
use cuttlefish.Windowing.{
  Windowing, Heights, Geometry, Range, height_of, compute, reset, resize, scroll, commit, measure,
  moved, record_height,
}
use cuttlefish.Windowing.Coverage.{compute-covers}
use cuttlefish.Windowing.Exact.{is_on_screen, false_of_not}
use cuttlefish.Windowing.Scrolling.{
  Scroller, Event, scrolls, frame_runs, resizes, row_mounts, row_unmounts, commits, opened,
  run_frame, step, run,
}

-- A pass that reports no change has changed nothing.
measure-same :
    (estimate : ℕ) (rows : List (ℕ × ℕ)) (heights : Heights) (changed : Bool)
    → (measure estimate rows heights changed).1 ≡ false
    → (changed ≡ false) × ((measure estimate rows heights changed).0 ≡ heights)
unfolding measure record_height
measure-same estimate [] heights changed h = (h, refl)
measure-same estimate ((i, k) ∷ rows) heights changed h =
    let ih = measure-same estimate rows (record_height estimate heights i k) _ h in
    elim (Bool-cases (moved estimate heights i k)) [
      | inl e ↦ absurd (false≢true (sym ih.0 ∙ rw e refl))
      | inr e ↦ (sym (rw e refl) ∙ ih.0, ih.1 ∙ rw e refl)
    ]

module _ (estimate count overscan : ℕ) where
  -- The range that the heights and the position of the scroller call for.
  abbrev pub range_for : Windowing → Geometry → Range
  range_for w g = compute (height_of w.heights estimate) g count overscan

  abbrev IsCurrent : Scroller → Type 0
  IsCurrent s = (s.frame ≡ true) ⊎ (s.windowing.range ≡ range_for s.windowing s.geometry)

  commit-IsCurrent :
      (w : Windowing) (g : Geometry) (rows : List (ℕ × ℕ))
      → w.range ≡ range_for w g
      → let w' = commit w estimate g count overscan rows in w'.range ≡ range_for w' g
  unfolding commit scroll
  commit-IsCurrent w g rows h = elim (Bool-cases (measure estimate rows w.heights false).1) [
    | inl e ↦ rw e refl
    | inr e ↦ let same = measure-same estimate rows w.heights false e in rw (e, same.1) h
  ]

  step-IsCurrent :
      (s : Scroller) (e : Event) → IsCurrent s → IsCurrent (step estimate count overscan s e)
  unfolding step run_frame scroll resize
  step-IsCurrent s (scrolls g) h = inl refl
  step-IsCurrent s frame_runs h = elim (Bool-cases s.frame) [
    | inl e ↦ rw e (inr refl)
    | inr e ↦ rw e (elim h [ inl f ↦ absurd (false≢true (sym e ∙ f)) | inr r ↦ inr r ])
  ]
  step-IsCurrent s (resizes g) h = inr refl
  step-IsCurrent s (row_mounts i) h = h
  step-IsCurrent s (row_unmounts i) h = h
  step-IsCurrent s (commits height) (inl f) = inl f
  step-IsCurrent s (commits height) (inr r) =
      inr (commit-IsCurrent s.windowing s.geometry (map (λ i. (i, height i)) s.rows) r)

  run-IsCurrent :
      (s : Scroller) (es : List Event) → IsCurrent s → IsCurrent (run estimate count overscan s es)
  unfolding run
  run-IsCurrent s [] h = h
  run-IsCurrent s (e ∷ es) h =
      run-IsCurrent (step estimate count overscan s e) es (step-IsCurrent s e h)

-- What is on screen is drawn: over any sequence of scrolls, frames, resizes, rows that come and go,
-- and commits that measure them, if no frame is due then each row of the list that is on screen, by
-- the heights known, lies in the range.
pub run-is_on_screen :
    (estimate count overscan : ℕ) (g : Geometry) (es : List Event) (j : ℕ)
    → let s = run estimate count overscan (opened estimate count overscan g) es in
      s.frame ≡ false
      → j < count
      → is_on_screen (height_of s.windowing.heights estimate) s.geometry j ≡ true
      → (s.windowing.range.start ≤ j) × (j < s.windowing.range.end)
unfolding is_on_screen opened reset
run-is_on_screen estimate count overscan g es j quiet lt on =
    let first = opened estimate count overscan g in
    let s = run estimate count overscan first es in
    let both = and-eq-true _ _ on in
    elim (run-IsCurrent estimate count overscan first es (inr refl)) [
      | inl due ↦ absurd (false≢true (sym quiet ∙ due))
      | inr now ↦ rw now (
          compute-covers (height_of s.windowing.heights estimate) s.geometry count overscan j lt
            (false_of_not both.0) both.1)
    ]

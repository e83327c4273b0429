-- ===== src/Search/Results/Window.antt =====
-- fs_ui/src/pages/SearchPage.tsx over fs_ui/src/hooks/useWindowedRows.ts: the rows that are drawn
-- against the results.
use cuttlefish.Common.{
  and-eq-true, ℕ, zero, suc, ◌+◌, ◌-◌, ◌≡◌, refl, ◌≤◌, ◌<◌, arith, true, List, [], ◌∷◌, some,
  length, take, drop, get_elem?, ltb, Bool-cases, inl, inr, min, ap, ◌∙◌,
}
use cuttlefish.Types.{Entry}
use cuttlefish.Windowing.{Geometry, Range, Rows, compute, sum, windowed_rows, window_threshold}
use cuttlefish.Windowing.Bounds.{sum-append}
use cuttlefish.Windowing.Coverage.{compute-covers}
use cuttlefish.Windowing.Exact.{is_on_screen, false_of_not}
use cuttlefish.Search.Results.{slice, numbered, drawn_rows, result_window}

get_elem?-drop :
    (a j : ℕ) (xs : List Entry) → a ≤ j → get_elem? (drop a xs) (j - a) ≡ get_elem? xs j
get_elem?-drop zero j xs p = ap (get_elem? xs) (omega arith)
get_elem?-drop (suc a) j [] p = refl
get_elem?-drop (suc a) zero (x ∷ xs) p = absurd (omega arith)
get_elem?-drop (suc a) (suc j) (x ∷ xs) p =
    let e : suc j - suc a ≡ j - a = omega arith in rw e (get_elem?-drop a j xs (omega arith))

get_elem?-take : (n i : ℕ) (xs : List Entry) → i < n → get_elem? (take n xs) i ≡ get_elem? xs i
get_elem?-take zero i xs p = absurd (omega arith)
get_elem?-take (suc n) i [] p = refl
get_elem?-take (suc n) zero (x ∷ xs) p = refl
get_elem?-take (suc n) (suc i) (x ∷ xs) p = get_elem?-take n i xs (omega arith)

get_elem?-lt : (i : ℕ) (xs : List Entry) → i < length xs → (x : Entry) × (get_elem? xs i ≡ some x)
get_elem?-lt i [] p = absurd (omega arith)
get_elem?-lt zero (x ∷ xs) p = (x, refl)
get_elem?-lt (suc i) (x ∷ xs) p = get_elem?-lt i xs (omega arith)

get_elem?-numbered :
    (k i : ℕ) (xs : List Entry) {x : Entry}
    → get_elem? xs i ≡ some x
    → get_elem? (numbered k xs) i ≡ some (k + i, x)
get_elem?-numbered k i [] e = cc
get_elem?-numbered k zero (y ∷ xs) {x} e =
    let z : k + 0 ≡ k = omega arith in let same : y ≡ x = cc in rw (z, same) refl
get_elem?-numbered k (suc i) (y ∷ xs) {x} e =
    let z : k + suc i ≡ suc k + i = omega arith in rw z (get_elem?-numbered (suc k) i xs e)

-- A row of the window stands in the part that is drawn, under its own index.
drawn_rows-get_elem? :
    (w : Rows) (results : List Entry) (j : ℕ) {x : Entry}
    → w.start ≤ j
    → j < w.end
    → get_elem? results j ≡ some x
    → get_elem? (drawn_rows w results) (j - w.start) ≡ some (j, x)
unfolding drawn_rows
drawn_rows-get_elem? w results j {x} p q e =
    let back : w.start + (j - w.start) ≡ j = omega arith in
    let there =
      get_elem?-take (w.end - w.start) (j - w.start) (drop w.start results) (omega arith)
      ∙ get_elem?-drop w.start j results p
      ∙ e in
    get_elem?-numbered w.start (j - w.start) (slice w.start w.end results) there
    ∙ ap (λ i. some (i, x)) back

-- A row of the range that lies in the list is drawn, behind a spacer as high as the rows above the
-- first.
windowed_rows-row :
    (h : ℕ → ℕ) (count threshold j : ℕ) (range : Range)
    → j < count
    → range.start ≤ j
    → j < range.end
    → let w = windowed_rows h count threshold range in
      (w.start ≤ j) × (j < w.end) × (w.pad_top + sum h w.start j ≡ sum h 0 j)
unfolding windowed_rows
windowed_rows-row h count threshold j range lt p q = elim (Bool-cases (ltb threshold count)) [
  | inl e ↦
      rw (e, windowed_rows)
        (
          omega arith,
          omega arith,
          sum-append h 0 (min range.start (min range.end count)) j (omega arith) (omega arith),
        )
  | inr e ↦ rw (e, windowed_rows) (omega arith, lt, omega arith)
]

-- A result on screen is drawn, at its own place: whatever the heights of the rows, the scroll
-- position and the overscan, the window that is computed for the results has the j-th of them at
-- the index behind its start, under the index j, and the spacer and the rows drawn before it are
-- together as high as all results before it.
pub result_window-is_on_screen :
    (h : ℕ → ℕ) (g : Geometry) (results : List Entry) (overscan j : ℕ)
    → j < length results
    → is_on_screen h g j ≡ true
    → let w = result_window h results (compute h g (length results) overscan) in
      ((x : Entry) × (get_elem? results j ≡ some x)
        × (get_elem? (drawn_rows w results) (j - w.start) ≡ some (j, x)))
      × (w.pad_top + sum h w.start j ≡ sum h 0 j)
unfolding result_window is_on_screen
result_window-is_on_screen h g results overscan j lt on =
    let both = and-eq-true _ _ on in
    let range = compute h g (length results) overscan in
    let inside = compute-covers h g (length results) overscan j lt (false_of_not both.0) both.1 in
    let row = windowed_rows-row h (length results) window_threshold j range lt inside.0 inside.1 in
    let (x, e) = get_elem?-lt j results lt in
    (
      (
        x,
        e,
        drawn_rows-get_elem? (windowed_rows h (length results) window_threshold range) results j
            row.0 row.1 e,
      ),
      row.2,
    )

-- ===== src/Detail/Children/Fresh.antt =====
-- fs_ui/src/components/DetailPanel.tsx: whose children the panel shows.
use mathlib.Core.Bool.{false≢true}
use cuttlefish.Common.{
  All-remove_at, All-get_elem?, All-imp, ℕ, Bool, true, false, String, List, [], ◌∷◌, Option, none,
  some, map, All, eq_iff, get_elem?, ◌⊎◌, and-eq-true, ◌≡◌, refl, Bool-cases, inl, inr, sym, ap,
  ◌∙◌,
}
use cuttlefish.Common.Text.{is_truthy}
use cuttlefish.Types.{Entry}
use cuttlefish.Api.{Outcome}
use cuttlefish.Detail.Selection.{DetailSelection, is_dir, entry_path}
use cuttlefish.Detail.Children.{
  Ask, Panel, cancel, ask_for, load_children, opened, same_flag, same_path, same_deps, select,
  rows_of, settle, answered, Event, selects, reply, unmount, step, run,
}

-- The children shown are a reply for the directory that is selected.
abbrev pub Shown :
    (String → List Entry → Type 0) → Option DetailSelection → Option (List Entry) → Type 0
Shown P selected none = Unit
Shown P selected (some rows) =
    (path : String) × (entry_path selected ≡ some path) × (is_dir selected ≡ true) × P path rows

-- Each reply is one for the path that was asked for.
abbrev pub Answers : (String → List Entry → Type 0) → Option Ask → Outcome (List Entry) → Type 0
Answers P none o = Unit
Answers P (some a) o = P a.path (rows_of o)

abbrev pub Replies : (String → List Entry → Type 0) → Panel → List Event → Type 0
Replies P s [] = Unit
Replies P s (selects selected ∷ es) = Replies P (step s (selects selected)) es
Replies P s (unmount ∷ es) = Replies P (step s unmount) es
Replies P s (reply i o ∷ es) = Answers P (get_elem? s.asked i) o × Replies P (step s (reply i o)) es

-- A request that is not cancelled is for the directory that is selected.
abbrev IsFor : Option DetailSelection → Ask → Type 0
IsFor selected a =
    (a.cancelled ≡ true) ⊎ ((entry_path selected ≡ some a.path) × (is_dir selected ≡ true))

cancelled : (selected : Option DetailSelection) (l : List Ask) → All (IsFor selected) (map cancel l)
cancelled selected [] = tt
cancelled selected (a ∷ l) = (inl refl, cancelled selected l)

ask_for-All :
    (selected : Option DetailSelection) (path : Option String) (dir : Bool) (l : List Ask)
    → entry_path selected ≡ path
    → is_dir selected ≡ dir
    → All (IsFor selected) l
    → All (IsFor selected) (ask_for path dir l)
ask_for-All selected none dir l ep ed h = h
ask_for-All selected (some path) false l ep ed h = h
ask_for-All selected (some path) true l ep ed h = elim (Bool-cases (is_truthy path)) [
  | inl e ↦ rw e (inr (ep, ed), h)
  | inr e ↦ rw e h
]

same_path-eq : (a b : Option String) → same_path a b ≡ true → a ≡ b
same_path-eq none none h = refl
same_path-eq (some a) (some b) h = ap some ((eq_iff a b).0 h)
same_path-eq none (some b) h = absurd (false≢true h)
same_path-eq (some a) none h = absurd (false≢true h)

same_flag-eq : (a b : Bool) → same_flag a b ≡ true → a ≡ b
same_flag-eq true b h = sym h
same_flag-eq false true h = absurd (false≢true h)
same_flag-eq false false h = refl

same_deps-eq :
    (a b : Option DetailSelection)
    → same_deps a b ≡ true
    → (is_dir a ≡ is_dir b) × (entry_path a ≡ entry_path b)
unfolding same_deps
same_deps-eq a b h =
    let both = and-eq-true _ _ h in (same_flag-eq _ _ both.0, same_path-eq _ _ both.1)

IsFor_same :
    (u v : Option DetailSelection) (a : Ask)
    → (is_dir u ≡ is_dir v) × (entry_path u ≡ entry_path v)
    → IsFor u a
    → IsFor v a
IsFor_same u v a d (inl c) = inl c
IsFor_same u v a d (inr k) = inr (sym d.1 ∙ k.0, sym d.0 ∙ k.1)

module _ (P : String → List Entry → Type 0) where
  abbrev Keeps : Panel → Type 0
  Keeps s = All (IsFor s.selected) s.asked × Shown P s.selected s.children

  load_children-Keeps :
      (selected : Option DetailSelection) (s : Panel) → Keeps (load_children selected s)
  unfolding load_children
  load_children-Keeps selected s = (
    ask_for-All selected (entry_path selected) (is_dir selected) _ refl refl
        (cancelled selected s.asked),
    tt,
  )

  Shown_same :
      (u v : Option DetailSelection) (rows : Option (List Entry))
      → (is_dir u ≡ is_dir v) × (entry_path u ≡ entry_path v)
      → Shown P u rows
      → Shown P v rows
  Shown_same u v none d h = tt
  Shown_same u v (some rows) d h =
      let (path, ep, ed, p) = h in (path, sym d.1 ∙ ep, sym d.0 ∙ ed, p)

  select-Keeps :
      (selected : Option DetailSelection) (s : Panel) → Keeps s → Keeps (select selected s)
  unfolding select
  select-Keeps selected s h = elim (Bool-cases (same_deps s.selected selected)) [
    | inl e ↦
        let d = same_deps-eq _ _ e in
        rw e (
          All-imp (IsFor s.selected) (IsFor selected) s.asked
              (λ a k. IsFor_same s.selected selected a d k) h.0,
          Shown_same s.selected selected s.children d h.1,
        )
    | inr e ↦ rw e (load_children-Keeps selected s)
  ]

  answered-Keeps :
      (i : ℕ) (a : Option Ask) (o : Outcome (List Entry)) (s : Panel)
      → get_elem? s.asked i ≡ a
      → Answers P a o
      → Keeps s
      → Keeps (answered i a o s)
  unfolding settle
  answered-Keeps i none o s e r h = h
  answered-Keeps i (some a) o s e r h =
      let left = All-remove_at (IsFor s.selected) i s.asked h.0 in
      elim (Bool-cases a.cancelled) [
        | inl c ↦ rw c (left, h.1)
        | inr c ↦ rw c (
          left,
          elim (All-get_elem? (IsFor s.selected) i s.asked h.0 e) [
            | inl off ↦ absurd (false≢true (sym c ∙ off))
            | inr here ↦ (a.path, here.0, here.1, r)
          ],
        )
      ]

  step-Keeps : (s : Panel) (e : Event) → Replies P s (e ∷ []) → Keeps s → Keeps (step s e)
  unfolding step
  step-Keeps s (selects selected) r h = select-Keeps selected s h
  step-Keeps s (reply i o) r h = answered-Keeps i (get_elem? s.asked i) o s refl r.0 h
  step-Keeps s unmount r h = (cancelled s.selected s.asked, h.1)

  run-Keeps : (s : Panel) (es : List Event) → Replies P s es → Keeps s → Keeps (run s es)
  unfolding run
  run-Keeps s [] r h = h
  run-Keeps s (selects selected ∷ es) r h =
      run-Keeps (step s (selects selected)) es r (step-Keeps s (selects selected) tt h)
  run-Keeps s (unmount ∷ es) r h = run-Keeps (step s unmount) es r (step-Keeps s unmount tt h)
  run-Keeps s (reply i o ∷ es) r h =
      run-Keeps (step s (reply i o)) es r.1 (step-Keeps s (reply i o) (r.0, tt) h)

-- The panel never shows the children of another directory: for any property that each reply has of
-- the path that was asked for, whatever is selected and in whatever order replies come, the children
-- shown are those of a selected directory and have the property of its path.
pub run-Shown :
    (P : String → List Entry → Type 0) (selected : Option DetailSelection) (es : List Event)
    → Replies P (opened selected) es
    → let s = run (opened selected) es in Shown P s.selected s.children
unfolding opened
run-Shown P selected es r =
    (run-Keeps P (opened selected) es r (
      load_children-Keeps P selected
        (record { selected = selected; children = none; asked = [] }))).1

-- ===== src/FileSystem/Rows.antt =====
-- Whose rows the file browser shows once no listing is awaited.
use mathlib.Core.Path.{subst}
use cuttlefish.Common.{
  ℕ, String, Bool, true, false, List, [], Option, none, some, ◌≡◌, refl, sym, ◌⊎◌, inl, inr,
  get_elem?, All-get_elem?, Option-cases,
}
use cuttlefish.Types.{Entry}
use cuttlefish.Api.{Outcome, resolved, rejected}
use cuttlefish.FileSystem.{
  FileSystem, Flight, Target, listing, details, landed, list_settled, list_lands, Event, navigate,
  select, list_reply, detail_reply, close, sort, step, navigate_to,
}
use cuttlefish.FileSystem.Invariant.{IsCurrent, Inv}
use cuttlefish.FileSystem.Order.{InOrder}
use cuttlefish.FileSystem.Refinement.{
  View, view, rows_of, left, select-keeps, detail_lands-keeps, Move, opens, shows, drops, ignores,
  step-moves,
}

-- A listing is awaited, or the rows are such as a listing of the path has.
abbrev pub Fresh : (String → List Entry → Type 0) → View → Type 0
Fresh P v = (v.awaits ≡ true) ⊎ P v.path v.entries

abbrev pub Answers : (String → List Entry → Type 0) → Option Flight → Outcome (List Entry) → Type 0
Answers P none o = Unit
Answers P (some f) o = P f.path (rows_of o)

-- A reply with a listing is one for the path that was asked for.
abbrev pub Fits : (String → List Entry → Type 0) → FileSystem → Event → Type 0
Fits P s (list_reply i o) = Answers P (get_elem? s.flights i) o
Fits P s _ = Unit

list_lands-Fresh :
    (P : String → List Entry → Type 0) (s : FileSystem) (i : ℕ) (f : Flight)
    → Inv s
    → InOrder s
    → get_elem? s.flights i ≡ some f
    → (t : Target) (a : Bool) (o : Outcome (List Entry)) → f.target ≡ t
    → f.aborted ≡ a
    → P f.path (rows_of o)
    → Fresh P (view s)
    → Fresh P (view (list_lands t f o (landed t listing i s)))
unfolding list_lands list_settled view
list_lands-Fresh P s i f v n e details a o et ea p h = h
list_lands-Fresh P s i f v n e listing true o et ea p h = rw (ea, left s i f v n e (inr ea)) h
list_lands-Fresh P s i f v n e listing false (resolved xs) et ea p h =
    let here = (All-get_elem? (IsCurrent s) i s.flights v.current e).0 et ea in
    rw ea (inr (subst (λ q. P q xs) here.1 p))
list_lands-Fresh P s i f v n e listing false (rejected x) et ea p h =
    let here = (All-get_elem? (IsCurrent s) i s.flights v.current e).0 et ea in
    rw ea (inr (subst (λ q. P q []) here.1 p))

pub step-Fresh :
    (P : String → List Entry → Type 0) (s : FileSystem) (e : Event)
    → Inv s
    → InOrder s
    → Fits P s e
    → Fresh P (view s)
    → Fresh P (view (step s e))
unfolding step view navigate_to
step-Fresh P s (navigate path) v n p h = inl refl
step-Fresh P s (select entry) v n p h = subst (Fresh P) (sym (select-keeps s entry v n)) h
step-Fresh P s (list_reply i o) v n p h = elim (Option-cases (get_elem? s.flights i)) [
  | inl e ↦ rw (e, step) h
  | inr (f, e) ↦
      rw (e, step)
        (list_lands-Fresh P s i f v n e f.target f.aborted o refl refl
          (subst (λ (x : Option Flight). Answers P x o) e p) h)
]
step-Fresh P s (detail_reply i o) v n p h = elim (Option-cases (get_elem? s.flights i)) [
  | inl e ↦ rw (e, step) h
  | inr (f, e) ↦
      rw (e, step)
        (subst (Fresh P) (sym (detail_lands-keeps s i f v n e f.target f.aborted o refl refl)) h)
]
step-Fresh P s close v n p h = h
step-Fresh P s (sort config) v n p h = h

abbrev pub is_navigation : Event → Bool
is_navigation (navigate path) = true
is_navigation _ = false

Move-path : (e : Event) (v u : View) → Move e v u → is_navigation e ≡ false → u.path ≡ v.path
Move-path e v u (opens path e' u') n = absurd cc
Move-path e v u (shows i o e' w u') n = cc
Move-path e v u (drops i o e' u') n = cc
Move-path e v u (ignores x u') n = cc

-- Only a navigation changes the path.
pub step-current_path :
    (s : FileSystem) (e : Event)
    → Inv s
    → InOrder s
    → is_navigation e ≡ false
    → (step s e).current_path ≡ s.current_path
unfolding view
step-current_path s e v n h = Move-path e (view s) (view (step s e)) (step-moves s e v n) h

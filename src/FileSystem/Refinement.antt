-- ===== src/FileSystem/Refinement.antt =====
-- The file browser's listings against a machine that knows no requests, only whether one is awaited.
use cuttlefish.Common.{
  any-remove_at, remove_at, ℕ, String, Bool, true, false, List, [], ◌∷◌, some, ◌≡◌, ◌≢◌, refl,
  arith, All, any, get_elem?, Bool-cases, Option-cases, inl, inr, ◌⊎◌,
}
use cuttlefish.Types.{Entry}
use cuttlefish.Api.{Outcome, resolved, rejected}
use cuttlefish.FileSystem.{
  FileSystem, Flight, Target, listing, details, start, navigate_to, select_item, list_settled,
  detail_settled, landed, list_lands, detail_lands, Event, navigate, select, list_reply,
  detail_reply, close, sort, step, run, is_selected,
}
use cuttlefish.FileSystem.Order.{
  is_awaited, InOrder, step-InOrder, start-InOrder, any-abort, any-get_elem?, any-others,
  is_awaited-cases,
}
use cuttlefish.FileSystem.Invariant.{IsCurrent, Inv, step-Inv, start-Inv}

-- What the user sees of a directory: its path, its rows, and whether its listing is still awaited.
pub record View : Type 0 where
  pub path : String
  pub entries : List Entry
  pub awaits : Bool

unfoldable pub view : FileSystem → View
view s = record { path = s.current_path; entries = s.entries; awaits = any is_awaited s.flights }

abbrev pub rows_of : Outcome (List Entry) → List Entry
rows_of (resolved xs) = xs
rows_of (rejected e) = []

abbrev pub is_about_listing : Event → Bool
is_about_listing (navigate p) = true
is_about_listing (list_reply i o) = true
is_about_listing _ = false

-- One event, as the user sees it: a navigation is taken at once and awaits a listing; a reply is
-- shown only while one is awaited, and ends the wait, or is dropped; nothing else is seen.
pub data Move (e : Event) (v u : View) : Type 0 where
  opens :
      (path : String)
      → e ≡ navigate path
      → u ≡ record { path = path; entries = v.entries; awaits = true }
      → Move e v u
  shows :
      (i : ℕ) (o : Outcome (List Entry))
      → e ≡ list_reply i o
      → v.awaits ≡ true
      → u ≡ record { path = v.path; entries = rows_of o; awaits = false }
      → Move e v u
  drops : (i : ℕ) (o : Outcome (List Entry)) → e ≡ list_reply i o → u ≡ v → Move e v u
  ignores : is_about_listing e ≡ false → u ≡ v → Move e v u

pub data Moves : List Event → View → View → Type 0 where
  done : {v : View} → Moves [] v v
  next :
      {e : Event} {es : List Event} {v u w : View} → Move e v u → Moves es u w → Moves (e ∷ es) v w

navigate_to-moves :
    (s : FileSystem) (path : String) → Move (navigate path) (view s) (view (navigate_to path s))
unfolding view navigate_to
navigate_to-moves s path = opens path refl refl

pub select-keeps :
    (s : FileSystem) (entry : Entry) → Inv s → InOrder s → view (select_item entry s) ≡ view s
unfolding view select_item
select-keeps s entry v h = elim (Bool-cases (is_selected s.selected_item entry.path)) [
  | inl e ↦ rw e refl
  | inr e ↦ rw (e, any-abort s.detail_abort s.flights (kept s.flights v.current)) refl
]
  where
    kept :
        (fs : List Flight)
        → All (IsCurrent s) fs
        → All (λ f. is_awaited f ≡ true → s.detail_abort ≢ some f.controller) fs
    kept [] c = tt
    kept (f ∷ fs) c = (
      λ a d. let t = is_awaited-cases f.target f.aborted a in h.1 f.controller (c.0.0 t.0 t.1).0 d,
      kept fs c.1,
    )

module _ (s : FileSystem) (i : ℕ) (f : Flight) (v : Inv s) (h : InOrder s)
    (e : get_elem? s.flights i ≡ some f) where
  pub left :
      (f.target ≡ details) ⊎ (f.aborted ≡ true)
      → any is_awaited (remove_at i s.flights) ≡ any is_awaited s.flights
  left r = any-remove_at is_awaited i s.flights e (out r)
    where
      out : (f.target ≡ details) ⊎ (f.aborted ≡ true) → is_awaited f ≡ false
      out (inl t) = rw t (ground arith)
      out (inr a) = rw a refl

  one : f.target ≡ listing → f.aborted ≡ false → any is_awaited s.flights ≡ true
  one et ea = any-get_elem? is_awaited i s.flights e (rw (et, ea) refl)

  none_left :
      f.target ≡ listing → f.aborted ≡ false → any is_awaited (remove_at i s.flights) ≡ false
  none_left et ea = any-others s f s.next_controller i s.flights v.current h.0 e (rw (et, ea) refl)

  list_lands-moves :
      (t : Target) (a : Bool) (o : Outcome (List Entry))
      → f.target ≡ t
      → f.aborted ≡ a
      → Move (list_reply i o) (view s) (view (list_lands t f o (landed t listing i s)))
  unfolding list_lands list_settled view
  list_lands-moves details a o et ea = drops i o refl refl
  list_lands-moves listing true o et ea = rw ea (drops i o refl (rw (left (inr ea)) refl))
  list_lands-moves listing false (resolved xs) et ea =
      rw ea (shows i (resolved xs) refl (one et ea) (rw (none_left et ea) refl))
  list_lands-moves listing false (rejected x) et ea =
      rw ea (shows i (rejected x) refl (one et ea) (rw (none_left et ea) refl))

  pub detail_lands-keeps :
      (t : Target) (a : Bool) (o : Outcome Entry)
      → f.target ≡ t
      → f.aborted ≡ a
      → view (detail_lands t f o (landed t details i s)) ≡ view s
  unfolding detail_lands detail_settled view
  detail_lands-keeps listing a o et ea = refl
  detail_lands-keeps details true o et ea = rw (ea, left (inl et)) refl
  detail_lands-keeps details false (resolved x) et ea = rw (ea, left (inl et)) refl
  detail_lands-keeps details false (rejected x) et ea = rw (ea, left (inl et)) refl

pub step-moves :
    (s : FileSystem) (e : Event) → Inv s → InOrder s → Move e (view s) (view (step s e))
unfolding step view
step-moves s (navigate path) v h = navigate_to-moves s path
step-moves s (select entry) v h = ignores refl (select-keeps s entry v h)
step-moves s (list_reply i o) v h = elim (Option-cases (get_elem? s.flights i)) [
  | inl e ↦ rw (e, step) (drops i o refl refl)
  | inr (f, e) ↦ rw (e, step) (list_lands-moves s i f v h e f.target f.aborted o refl refl)
]
step-moves s (detail_reply i o) v h = elim (Option-cases (get_elem? s.flights i)) [
  | inl e ↦ rw (e, step) (ignores refl refl)
  | inr (f, e) ↦
      rw (e, step) (ignores refl (detail_lands-keeps s i f v h e f.target f.aborted o refl refl))
]
step-moves s close v h = ignores refl refl
step-moves s (sort config) v h = ignores refl refl

run-moves :
    (s : FileSystem) (es : List Event) → Inv s → InOrder s → Moves es (view s) (view (run s es))
unfolding run
run-moves s [] v h = done
run-moves s (e ∷ es) v h =
    next (step-moves s e v h) (run-moves (step s e) es (step-Inv s e v) (step-InOrder s e v h))

-- The file browser refines a machine that has no requests: over every sequence of events, with
-- replies in any order, what the user sees of a directory moves as the machine allows. A navigation
-- is taken at once and awaits one listing; a reply's rows, none for a failure, are shown only while
-- a listing is awaited and end the wait, so a navigation is answered at most once; a reply that is
-- not shown changes nothing that is seen; selecting, the reply to a selection, closing and sorting are not seen.
pub run_refines :
    (path : String) (es : List Event) → Moves es (view (start path)) (view (run (start path) es))
run_refines path es = run-moves (start path) es (start-Inv path) (start-InOrder path)

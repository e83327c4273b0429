-- ===== src/FileSystem/Invariant.antt =====
-- The invariant of the file browser's state over every order of replies.
use cuttlefish.Common.{
  All-remove_at, remove_at, ℕ, zero, suc, String, Bool, true, false, not, List, [], ◌∷◌, map, some,
  ◌≡◌, refl, ◌<◌, arith, All, any, get_elem?, Bool-cases, Option-cases, inl, inr, ◌⊎◌,
}
use cuttlefish.Types.{Entry}
use cuttlefish.Api.{Outcome, resolved, rejected}
use cuttlefish.FileSystem.{
  FileSystem, Flight, Target, listing, details, abort_flight, start, navigate_to, select_item,
  finish, list_settled, detail_settled, landed, list_lands, detail_lands, Event, navigate, select,
  list_reply, detail_reply, close, sort, step, run, is_selected,
}

-- The flight whose reply will be taken: a listing only for the newest `navigateTo` and its path, an
-- entry only for the newest `selectItem`.
abbrev pub IsCurrent : FileSystem → Flight → Type 0
IsCurrent s f =
    (f.target ≡ listing
      → f.aborted ≡ false
      → (s.list_abort ≡ some f.controller) × (f.path ≡ s.current_path))
    × (f.target ≡ details → f.aborted ≡ false → s.detail_abort ≡ some f.controller)

abbrev pub is_live : Flight → Bool
is_live f = not f.aborted

pub record Inv (s : FileSystem) : Type 0 where
  pub current : All (IsCurrent s) s.flights
  pub older : (k : ℕ) → (s.list_abort ≡ some k) ⊎ (s.detail_abort ≡ some k) → k < s.next_controller
  pub waits : s.is_loading ≡ true → any is_live s.flights ≡ true

any-remove_at :
    (i : ℕ) (fs : List Flight) {f : Flight}
    → get_elem? fs i ≡ some f
    → f.aborted ≡ true
    → any is_live fs ≡ true
    → any is_live (remove_at i fs) ≡ true
any-remove_at i [] e d h = h
any-remove_at zero (g ∷ fs) e d h = ground arith
any-remove_at (suc i) (g ∷ fs) {f} e d h = ground (arith, any-remove_at i fs {f = f})

pub start-Inv : (path : String) → Inv (start path)
unfolding start
start-Inv path = record { current = tt; older = λ k e. ground arith; waits = λ e. e }

-- Aborting the controller of the newest listing leaves no listing that is not aborted.
navigate_to-old :
    (s : FileSystem) (path : String) (fs : List Flight)
    → All (IsCurrent s) fs
    → All (IsCurrent (navigate_to path s)) (map (abort_flight s.list_abort) fs)
unfolding navigate_to
navigate_to-old s path [] h = tt
navigate_to-old s path (f ∷ fs) h = (ground arith, navigate_to-old s path fs h.1)

select_item-old :
    (s : FileSystem) (entry : Entry) (loading : Bool) (fs : List Flight)
    → All (IsCurrent s) fs
    → All
        (IsCurrent (record s { detail_abort = some s.next_controller }))
        (map (abort_flight s.detail_abort) fs)
select_item-old s entry loading [] h = tt
select_item-old s entry loading (f ∷ fs) h = (ground arith, select_item-old s entry loading fs h.1)

navigate_to-Inv : (s : FileSystem) (path : String) → Inv s → Inv (navigate_to path s)
unfolding navigate_to
navigate_to-Inv s path h = record {
  current = ((λ t a. (refl, refl), λ t a. cc), navigate_to-old s path s.flights h.current);
  older = λ k e. ground (arith, h.older k);
  waits = λ e. refl;
}

select_item-Inv : (s : FileSystem) (entry : Entry) → Inv s → Inv (select_item entry s)
unfolding select_item
select_item-Inv s entry h = elim (Bool-cases (is_selected s.selected_item entry.path)) [
  | inl e ↦ rw e h
  | inr e ↦ rw e (record {
    current = ((λ t a. cc, λ t a. refl), select_item-old s entry true s.flights h.current);
    older = λ k e. ground (arith, h.older k);
    waits = λ e. refl;
  })
]

-- What a reply leaves in flight.
landed_waits :
    (s : FileSystem) (i : ℕ) {f : Flight}
    → Inv s
    → get_elem? s.flights i ≡ some f
    → f.aborted ≡ true
    → s.is_loading ≡ true
    → any is_live (remove_at i s.flights) ≡ true
landed_waits s i h e a l = any-remove_at i s.flights e a (h.waits l)

finish-Inv :
    (aborted : Bool) (s : FileSystem)
    → All (IsCurrent s) s.flights
    → ((k : ℕ) → (s.list_abort ≡ some k) ⊎ (s.detail_abort ≡ some k) → k < s.next_controller)
    → (aborted ≡ true → s.is_loading ≡ true → any is_live s.flights ≡ true)
    → Inv (finish aborted s)
finish-Inv true s h b w = record { current = h; older = b; waits = w refl }
finish-Inv false s h b w = record { current = h; older = b; waits = λ e. cc }

list_settled-Inv :
    (aborted : Bool) (path : String) (o : Outcome (List Entry)) (s : FileSystem)
    → All (IsCurrent s) s.flights
    → ((k : ℕ) → (s.list_abort ≡ some k) ⊎ (s.detail_abort ≡ some k) → k < s.next_controller)
    → (aborted ≡ true → s.is_loading ≡ true → any is_live s.flights ≡ true)
    → Inv (list_settled aborted path o s)
unfolding list_settled
list_settled-Inv a path (resolved xs) s h b w = finish-Inv a (record s { entries = xs }) h b w
list_settled-Inv true path (rejected e) s h b w = record { current = h; older = b; waits = w refl }
list_settled-Inv false path (rejected e) s h b w = record {
  current = h;
  older = b;
  waits = λ l. cc;
}

detail_settled-Inv :
    (aborted : Bool) (path : String) (o : Outcome Entry) (s : FileSystem)
    → All (IsCurrent s) s.flights
    → ((k : ℕ) → (s.list_abort ≡ some k) ⊎ (s.detail_abort ≡ some k) → k < s.next_controller)
    → (aborted ≡ true → s.is_loading ≡ true → any is_live s.flights ≡ true)
    → Inv (detail_settled aborted path o s)
unfolding detail_settled
detail_settled-Inv a path (resolved x) s h b w =
    finish-Inv a (record s { selected_item = some x }) h b w
detail_settled-Inv true path (rejected e) s h b w = record {
  current = h;
  older = b;
  waits = w refl;
}
detail_settled-Inv false path (rejected e) s h b w = record {
  current = h;
  older = b;
  waits = λ l. cc;
}

module _ (s : FileSystem) (i : ℕ) (f : Flight) (h : Inv s)
    (e : get_elem? s.flights i ≡ some f) where
  left : All (IsCurrent s) (remove_at i s.flights)
  left = All-remove_at (IsCurrent s) i s.flights h.current

  list_reply-Inv :
      (t : Target) (o : Outcome (List Entry)) → Inv (list_lands t f o (landed t listing i s))
  unfolding list_lands
  list_reply-Inv listing o =
      list_settled-Inv f.aborted f.path _ (landed listing listing i s) left h.older
        (landed_waits s i h e)
  list_reply-Inv details o = h

  detail_reply-Inv :
      (t : Target) (o : Outcome Entry) → Inv (detail_lands t f o (landed t details i s))
  unfolding detail_lands
  detail_reply-Inv details o =
      detail_settled-Inv f.aborted f.path _ (landed details details i s) left h.older
        (landed_waits s i h e)
  detail_reply-Inv listing o = h

pub step-Inv : (s : FileSystem) (e : Event) → Inv s → Inv (step s e)
unfolding step
step-Inv s (navigate path) h = navigate_to-Inv s path h
step-Inv s (select entry) h = select_item-Inv s entry h
step-Inv s (list_reply i o) h = elim (Option-cases (get_elem? s.flights i)) [
  | inl e ↦ rw (e, step) h
  | inr (f, e) ↦ rw (e, step) (list_reply-Inv s i f h e f.target o)
]
step-Inv s (detail_reply i o) h = elim (Option-cases (get_elem? s.flights i)) [
  | inl e ↦ rw (e, step) h
  | inr (f, e) ↦ rw (e, step) (detail_reply-Inv s i f h e f.target o)
]
step-Inv s close h = record { current = h.current; older = h.older; waits = h.waits }
step-Inv s (sort config) h = record { current = h.current; older = h.older; waits = h.waits }

pub run-Inv : (s : FileSystem) (es : List Event) → Inv s → Inv (run s es)
unfolding run
run-Inv s [] h = h
run-Inv s (e ∷ es) h = run-Inv (step s e) es (step-Inv s e h)

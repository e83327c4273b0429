-- ===== src/FileSystem/Stale.antt =====
-- Replies that come late: which of them the file browser takes.
use cuttlefish.Common.{
  remove_at, All-get_elem?, ℕ, String, Bool, true, false, List, [], ◌∷◌, map, some, ◌≡◌, refl,
  arith, All, any, get_elem?, Option-cases, inl, inr, ◌⊎◌, ap, sym, ◌∙◌,
}
use mathlib.Core.Path.{subst}
use cuttlefish.Types.{Entry}
use cuttlefish.Api.{Outcome, resolved, rejected}
use cuttlefish.FileSystem.{
  FileSystem, Flight, Target, listing, details, abort_flight, start, list_settled, detail_settled,
  seen_through, list_lands, detail_lands, Event, navigate, select, list_reply, detail_reply, step,
  run, is_selected, unmount, describe, landed,
}
use cuttlefish.FileSystem.Invariant.{IsCurrent, is_live, Inv, start-Inv, run-Inv}

-- What the page shows once a listing has been taken.
abbrev pub Shows : String → Outcome (List Entry) → FileSystem → Type 0
Shows path (resolved xs) s = (s.entries ≡ xs) × (s.is_loading ≡ false)
Shows path (rejected e) s =
    (s.entries ≡ []) × (s.is_loading ≡ false) × (s.error ≡ some (describe e path "directory"))

list_settled-Shows :
    (path : String) (o : Outcome (List Entry)) (s : FileSystem)
    → Shows path o (list_settled false path o s)
unfolding list_settled
list_settled-Shows path (resolved xs) s = (refl, refl)
list_settled-Shows path (rejected e) s = (refl, refl, refl)

list_lands-cases :
    (i : ℕ) (f : Flight) (t : Target) (a : Bool) (o : Outcome (List Entry)) (s : FileSystem)
    → t ≡ listing
    → f.aborted ≡ a
    → ((a ≡ false) × Shows f.path o (list_lands t f o (landed t listing i s)))
      ⊎ (list_lands t f o (landed t listing i s) ≡ record s { flights = remove_at i s.flights })
unfolding list_lands
list_lands-cases i f details a o s t e = cc
list_lands-cases i f listing true o s t e = inr (
    ap (λ (b : Bool). list_settled b f.path (seen_through b o) (landed listing listing i s)) e
    ∙ unfold list_settled in refl)
list_lands-cases i f listing false o s t e = inl (
  refl,
  subst
      (λ (b : Bool).
        Shows f.path o (list_settled b f.path (seen_through b o) (landed listing listing i s)))
      (sym e) (list_settled-Shows f.path o (landed listing listing i s)),
)

list_reply-cases :
    (s : FileSystem) (i : ℕ) (o : Outcome (List Entry)) (f : Flight)
    → Inv s
    → get_elem? s.flights i ≡ some f
    → f.target ≡ listing
    → ((f.path ≡ s.current_path) × Shows s.current_path o (step s (list_reply i o)))
      ⊎ (step s (list_reply i o) ≡ record s { flights = remove_at i s.flights })
unfolding step
list_reply-cases s i o f h e t =
    let here = All-get_elem? (IsCurrent s) i s.flights h.current e in
    elim (list_lands-cases i f f.target f.aborted o s t refl) [
      | inl taken ↦
          let same = (here.0 t taken.0).1 in
          inl (
            same,
            rw (e, step)
                (subst (λ p. Shows p o (list_lands f.target f o (landed f.target listing i s))) same
                  taken.1),
          )
      | inr dropped ↦ inr (rw (e, step) dropped)
    ]

-- In whatever order replies come, a listing lands on the directory that it was asked for: its reply
-- either is for the current directory and is what the page then shows, with the message of the
-- failure if it failed, or changes nothing but the set of requests in flight.
pub list_reply-fresh :
    (path : String) (es : List Event) (i : ℕ) (o : Outcome (List Entry)) (f : Flight)
    → get_elem? (run (start path) es).flights i ≡ some f
    → f.target ≡ listing
    → let s = run (start path) es in
      ((f.path ≡ s.current_path) × Shows s.current_path o (step s (list_reply i o)))
      ⊎ (step s (list_reply i o) ≡ record s { flights = remove_at i s.flights })
list_reply-fresh path es i o f e t =
    list_reply-cases (run (start path) es) i o f (run-Inv (start path) es (start-Inv path)) e t

-- The progress state never outlives the work: while the browser shows that it loads, a request that
-- was not aborted is in flight.
pub is_loading-waits :
    (path : String) (es : List Event)
    → (run (start path) es).is_loading ≡ true
    → any is_live (run (start path) es).flights ≡ true
is_loading-waits path es h = (run-Inv (start path) es (start-Inv path)).waits h

-- A selection outlives the directory that it was made in: `navigateTo` aborts the listing under way
-- and not the entry, so an entry that was asked for before a navigation, and is answered after it,
-- is selected in the new directory.
detail_reply-stale :
    (s : FileSystem) (entry x : Entry) (path : String)
    → Inv s
    → is_selected s.selected_item entry.path ≡ false
    → let s' = run s (select entry ∷ navigate path ∷ detail_reply 1 (resolved x) ∷ []) in
      (s'.current_path ≡ path) × (s'.selected_item ≡ some x)
unfolding run step
detail_reply-stale s entry x path h e = elim (Option-cases s.list_abort) [
  | inl n ↦ ground arith
  | inr (k, l) ↦ ground (arith, h.older k (inl l))
]

-- The progress state is shared: an entry that lands while a listing is still under way ends it.
detail_reply-ends_loading :
    (s : FileSystem) (entry x : Entry) (path : String)
    → Inv s
    → let s' = run s (navigate path ∷ select entry ∷ detail_reply 0 (resolved x) ∷ []) in
      (s'.is_loading ≡ false) × (any is_live s'.flights ≡ true)
unfolding run step
detail_reply-ends_loading s entry x path h = elim (Option-cases s.detail_abort) [
  | inl n ↦ ground arith
  | inr (k, l) ↦ ground (arith, h.older k (inr l))
]

unmount-aborted :
    (s : FileSystem) (fs : List Flight)
    → All (IsCurrent s) fs
    → All
        (λ f. f.aborted ≡ true)
        (map (abort_flight s.detail_abort) (map (abort_flight s.list_abort) fs))
unmount-aborted s [] h = tt
unmount-aborted s (f ∷ fs) h = (aborted f.target refl, unmount-aborted s fs h.1)
  where
    aborted :
        (t : Target)
        → f.target ≡ t
        → (abort_flight s.detail_abort (abort_flight s.list_abort f)).aborted ≡ true
    aborted listing e = ground (arith, h.0.0 e)
    aborted details e = ground (arith, h.0.1 e)

list_lands_aborted :
    (f : Flight) (i : ℕ) (t : Target) (o : Outcome (List Entry)) (s : FileSystem)
    → f.aborted ≡ true
    → record (list_lands t f o (landed t listing i s)) { flights = s.flights } ≡ s
unfolding list_lands
list_lands_aborted f i details o s a = refl
list_lands_aborted f i listing o s a =
    ap
      (λ (b : Bool).
        record (list_settled b f.path (seen_through b o) (landed listing listing i s)) {
          flights = s.flights;
        })
      a
    ∙ unfold list_settled in refl

detail_lands_aborted :
    (f : Flight) (i : ℕ) (t : Target) (o : Outcome Entry) (s : FileSystem)
    → f.aborted ≡ true
    → record (detail_lands t f o (landed t details i s)) { flights = s.flights } ≡ s
unfolding detail_lands
detail_lands_aborted f i listing o s a = refl
detail_lands_aborted f i details o s a =
    ap
      (λ (b : Bool).
        record (detail_settled b f.path (seen_through b o) (landed details details i s)) {
          flights = s.flights;
        })
      a
    ∙ unfold detail_settled in refl

list_reply_aborted :
    (s : FileSystem) (i : ℕ) (o : Outcome (List Entry))
    → All (λ f. f.aborted ≡ true) s.flights
    → record (step s (list_reply i o)) { flights = s.flights } ≡ s
unfolding step
list_reply_aborted s i o h = elim (Option-cases (get_elem? s.flights i)) [
  | inl e ↦ rw (e, step) refl
  | inr (f, e) ↦
      rw (e, step)
        (list_lands_aborted f i f.target o s
          (All-get_elem? (λ g. g.aborted ≡ true) i s.flights h e))
]

detail_reply_aborted :
    (s : FileSystem) (i : ℕ) (o : Outcome Entry)
    → All (λ f. f.aborted ≡ true) s.flights
    → record (step s (detail_reply i o)) { flights = s.flights } ≡ s
unfolding step
detail_reply_aborted s i o h = elim (Option-cases (get_elem? s.flights i)) [
  | inl e ↦ rw (e, step) refl
  | inr (f, e) ↦
      rw (e, step)
        (detail_lands_aborted f i f.target o s
          (All-get_elem? (λ g. g.aborted ≡ true) i s.flights h e))
]

-- Once the page is gone no reply, to a listing or to an entry, writes its state: but for the set of
-- requests in flight the state stays as it was.
unmount-silent :
    (path : String) (es : List Event) (i : ℕ) (xs : Outcome (List Entry)) (x : Outcome Entry)
    → let s = unmount (run (start path) es) in
      (record (step s (list_reply i xs)) { flights = s.flights } ≡ s)
      × (record (step s (detail_reply i x)) { flights = s.flights } ≡ s)
unmount-silent path es i xs x =
    let s = run (start path) es in
    let gone = unmounted s (run-Inv (start path) es (start-Inv path)) in
    (list_reply_aborted (unmount s) i xs gone, detail_reply_aborted (unmount s) i x gone)
  where
    unmounted : (s : FileSystem) → Inv s → All (λ f. f.aborted ≡ true) (unmount s).flights
    unmounted s h = unfold unmount in unmount-aborted s s.flights h.current

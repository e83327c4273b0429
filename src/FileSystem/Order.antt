-- ===== src/FileSystem/Order.antt =====
-- The controllers of the requests in flight: each request has its own, so one listing is awaited.
use mathlib.Core.Path.{subst}
use mathlib.Core.Bool.{false≢true}
use cuttlefish.Common.{
  remove_at, All-get_elem?, ℕ, zero, suc, String, Bool, true, false, not, ◌&&◌, List, [], ◌∷◌, map,
  Option, none, some, ◌≡◌, ◌≢◌, refl, sym, ◌<◌, ◌≤◌, arith, All, any, get_elem?, Bool-cases,
  Option-cases, inl, inr,
}
use cuttlefish.Types.{Entry}
use cuttlefish.Api.{Outcome, resolved, rejected}
use cuttlefish.FileSystem.{
  FileSystem, Flight, Target, listing, details, abort_flight, start, navigate_to, select_item,
  list_settled, detail_settled, landed, list_lands, detail_lands, same_target, Event, navigate,
  select, list_reply, detail_reply, close, sort, step, is_selected, finish,
}
use cuttlefish.FileSystem.Invariant.{IsCurrent, is_live, Inv}

abbrev pub is_awaited : Flight → Bool
is_awaited f = is_live f && same_target f.target listing

-- The requests in flight, the newest first: their controllers fall, and are below the next one.
abbrev pub Falls : ℕ → List Flight → Type 0
Falls n [] = Unit
Falls n (f ∷ fs) = (f.controller < n) × Falls f.controller fs

Falls-mono : (n m : ℕ) (fs : List Flight) → n ≤ m → Falls n fs → Falls m fs
Falls-mono n m [] p h = tt
Falls-mono n m (f ∷ fs) p h = (omega (arith, p, h.0), h.1)

abort_flight-controller : (k : Option ℕ) (f : Flight) → (abort_flight k f).controller ≡ f.controller
abort_flight-controller none f = refl
abort_flight-controller (some k) f = ground arith

Falls-abort :
    (k : Option ℕ) (n : ℕ) (fs : List Flight) → Falls n fs → Falls n (map (abort_flight k) fs)
Falls-abort k n [] h = tt
Falls-abort k n (f ∷ fs) h = rw abort_flight-controller (h.0, Falls-abort k f.controller fs h.1)

Falls-remove_at : (i n : ℕ) (fs : List Flight) → Falls n fs → Falls n (remove_at i fs)
Falls-remove_at i n [] h = tt
Falls-remove_at zero n (f ∷ fs) h = Falls-mono f.controller n fs (omega (arith, h.0)) h.1
Falls-remove_at (suc i) n (f ∷ fs) h = (h.0, Falls-remove_at i f.controller fs h.1)

Falls-get_elem? :
    (n i : ℕ) (fs : List Flight) {f : Flight}
    → Falls n fs
    → get_elem? fs i ≡ some f
    → f.controller < n
Falls-get_elem? n i [] h e = cc
Falls-get_elem? n zero (g ∷ fs) {f} h e = let same : f ≡ g = cc in rw same h.0
Falls-get_elem? n (suc i) (g ∷ fs) {f} h e =
    let below = Falls-get_elem? g.controller i fs h.1 e in omega (arith, below, h.0)

-- The two newest controllers, of a listing and of an entry, are never the same.
abbrev pub InOrder : FileSystem → Type 0
InOrder s =
    Falls s.next_controller s.flights × ((k : ℕ) → s.list_abort ≡ some k → s.detail_abort ≢ some k)

navigate_to-InOrder :
    (s : FileSystem) (path : String) → Inv s → InOrder s → InOrder (navigate_to path s)
unfolding navigate_to
navigate_to-InOrder s path v h = (
  (omega arith, Falls-abort s.list_abort s.next_controller s.flights h.0),
  λ k l d.
      let below = v.older k (inr d) in
      let same : s.next_controller ≡ k = cc in omega (arith, below, same),
)

select_item-InOrder :
    (s : FileSystem) (entry : Entry) → Inv s → InOrder s → InOrder (select_item entry s)
unfolding select_item
select_item-InOrder s entry v h = elim (Bool-cases (is_selected s.selected_item entry.path)) [
  | inl e ↦ rw e h
  | inr e ↦ rw e (
    (omega arith, Falls-abort s.detail_abort s.next_controller s.flights h.0),
    λ k l d.
        let below = v.older k (inl l) in
        let same : s.next_controller ≡ k = cc in omega (arith, below, same),
  )
]

-- A reply sets no controller, and leaves the other flights.
finish-InOrder : (a : Bool) (s : FileSystem) → InOrder s → InOrder (finish a s)
finish-InOrder true s h = h
finish-InOrder false s h = h

list_settled-InOrder :
    (a : Bool) (path : String) (o : Outcome (List Entry)) (s : FileSystem)
    → InOrder s
    → InOrder (list_settled a path o s)
unfolding list_settled
list_settled-InOrder a path (resolved xs) s h = finish-InOrder a (record s { entries = xs }) h
list_settled-InOrder true path (rejected x) s h = h
list_settled-InOrder false path (rejected x) s h = h

detail_settled-InOrder :
    (a : Bool) (path : String) (o : Outcome Entry) (s : FileSystem)
    → InOrder s
    → InOrder (detail_settled a path o s)
unfolding detail_settled
detail_settled-InOrder a path (resolved x) s h =
    finish-InOrder a (record s { selected_item = some x }) h
detail_settled-InOrder true path (rejected x) s h = h
detail_settled-InOrder false path (rejected x) s h = h

list_lands-InOrder :
    (t : Target) (f : Flight) (o : Outcome (List Entry)) (s : FileSystem)
    → InOrder s
    → InOrder (list_lands t f o s)
unfolding list_lands
list_lands-InOrder details f o s h = h
list_lands-InOrder listing f o s h = list_settled-InOrder f.aborted f.path _ s h

detail_lands-InOrder :
    (t : Target) (f : Flight) (o : Outcome Entry) (s : FileSystem)
    → InOrder s
    → InOrder (detail_lands t f o s)
unfolding detail_lands
detail_lands-InOrder listing f o s h = h
detail_lands-InOrder details f o s h = detail_settled-InOrder f.aborted f.path _ s h

landed-InOrder : (t u : Target) (i : ℕ) (s : FileSystem) → InOrder s → InOrder (landed t u i s)
landed-InOrder t u i s h = elim (Bool-cases (same_target t u)) [
  | inl e ↦ rw e (Falls-remove_at i s.next_controller s.flights h.0, h.1)
  | inr e ↦ rw e h
]

pub start-InOrder : (path : String) → InOrder (start path)
unfolding start
start-InOrder path = (tt, λ k l d. cc)

pub step-InOrder : (s : FileSystem) (e : Event) → Inv s → InOrder s → InOrder (step s e)
unfolding step
step-InOrder s (navigate path) v h = navigate_to-InOrder s path v h
step-InOrder s (select entry) v h = select_item-InOrder s entry v h
step-InOrder s (list_reply i o) v h = elim (Option-cases (get_elem? s.flights i)) [
  | inl e ↦ rw (e, step) h
  | inr (f, e) ↦
      rw (e, step)
        (list_lands-InOrder f.target f o (landed f.target listing i s)
          (landed-InOrder f.target listing i s h))
]
step-InOrder s (detail_reply i o) v h = elim (Option-cases (get_elem? s.flights i)) [
  | inl e ↦ rw (e, step) h
  | inr (f, e) ↦
      rw (e, step)
        (detail_lands-InOrder f.target f o (landed f.target details i s)
          (landed-InOrder f.target details i s h))
]
step-InOrder s close v h = h
step-InOrder s (sort config) v h = h

pub is_awaited-cases :
    (t : Target) (a : Bool) → (not a && same_target t listing) ≡ true → (t ≡ listing) × (a ≡ false)
is_awaited-cases listing false h = (refl, refl)
is_awaited-cases listing true h = absurd (false≢true h)
is_awaited-cases details true h = absurd (false≢true h)
is_awaited-cases details false h = absurd (false≢true h)

-- At most one listing is awaited, since it holds the newest controller of a listing.
not_awaited :
    (s : FileSystem) (f g : Flight)
    → IsCurrent s f
    → IsCurrent s g
    → is_awaited f ≡ true
    → g.controller ≢ f.controller
    → is_awaited g ≡ false
not_awaited s f g hf hg af ne = elim (Bool-cases (is_awaited g)) [
  | inl ag ↦
      let tf = is_awaited-cases f.target f.aborted af in
      let tg = is_awaited-cases g.target g.aborted ag in
      let cf = (hf.0 tf.0 tf.1).0 in let cg = (hg.0 tg.0 tg.1).0 in absurd (ne cc)
  | inr out ↦ out
]

any-below :
    (s : FileSystem) (f : Flight) (n : ℕ) (fs : List Flight)
    → n ≤ f.controller
    → IsCurrent s f
    → is_awaited f ≡ true
    → All (IsCurrent s) fs
    → Falls n fs
    → any is_awaited fs ≡ false
any-below s f n [] p hf af h l = refl
any-below s f n (g ∷ fs) p hf af h l = ground (
  arith,
  not_awaited s f g hf h.0 af (λ e. omega (arith, l.0, e)),
  any-below s f g.controller fs (omega (arith, l.0)) hf af h.1 l.1,
)

pub any-others :
    (s : FileSystem) (f : Flight) (n i : ℕ) (fs : List Flight)
    → All (IsCurrent s) fs
    → Falls n fs
    → get_elem? fs i ≡ some f
    → is_awaited f ≡ true
    → any is_awaited (remove_at i fs) ≡ false
any-others s f n i [] h l e af = refl
any-others s f n zero (g ∷ fs) h l e af =
    let same : f ≡ g = cc in
    any-below s f g.controller fs (rw same (omega arith)) (subst (IsCurrent s) (sym same) h.0) af
      h.1 l.1
any-others s f n (suc i) (g ∷ fs) h l e af =
    let older = Falls-get_elem? g.controller i fs l.1 e in
    ground (
      arith,
      not_awaited s f g (All-get_elem? (IsCurrent s) i fs h.1 e) h.0 af
          (λ c. omega (arith, older, c)),
      any-others s f g.controller i fs h.1 l.1 e af,
    )

pub any-abort :
    (k : Option ℕ) (fs : List Flight)
    → All (λ f. is_awaited f ≡ true → k ≢ some f.controller) fs
    → any is_awaited (map (abort_flight k) fs) ≡ any is_awaited fs
any-abort k [] h = refl
any-abort none (f ∷ fs) h = ground (arith, any-abort none fs h.1)
any-abort (some k) (f ∷ fs) h = ground (arith, h.0, any-abort (some k) fs h.1)

pub any-get_elem? :
    (p : Flight → Bool) (i : ℕ) (fs : List Flight) {f : Flight}
    → get_elem? fs i ≡ some f
    → p f ≡ true
    → any p fs ≡ true
any-get_elem? p i [] e y = cc
any-get_elem? p zero (g ∷ fs) {f} e y =
    let same : f ≡ g = cc in
    let y' : p g ≡ true = subst (λ x. p x ≡ true) same y in ground (arith, y')
any-get_elem? p (suc i) (g ∷ fs) {f} e y = ground (arith, any-get_elem? p i fs {f = f} e y)

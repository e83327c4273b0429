-- ===== src/Admin/Filled.antt =====
-- fs_ui/src/pages/AdminPage.tsx: what the page asks of the server.
use cuttlefish.Common.{
  All-remove_at, remove_at, ℕ, Bool, true, false, ◌||◌, not, String, List, [], ◌∷◌, Option, none,
  some, All, All-append, ◌≡◌, arith, Bool-cases, inl, inr,
}
use cuttlefish.Common.Text.{is_truthy, trim}
use cuttlefish.Types.{Grant}
use cuttlefish.Api.{Outcome, resolved, rejected}
use cuttlefish.Admin.{
  Asked, list_grants, add_grant, delete_grant, Admin, load, opened, submit_grant, remove_grant,
  settle, answered, Event, set_group_type, set_group, set_prefix, submit, remove, reply, step, run,
}

-- A grant is asked for with a group and a path that are not empty.
abbrev pub IsFilled : Asked → Type 0
IsFilled (add_grant t g p) = (is_truthy g ≡ true) × (is_truthy p ≡ true)
IsFilled list_grants = Unit
IsFilled (delete_grant id) = Unit

module _ (spell : String) where
  load-IsFilled : (a : Admin) → All IsFilled a.asked → All IsFilled (load spell a).asked
  unfolding load
  load-IsFilled a h = All-append IsFilled a.asked _ h (tt, tt)

  submit_grant-IsFilled :
      (a : Admin) → All IsFilled a.asked → All IsFilled (submit_grant spell a).asked
  unfolding submit_grant
  submit_grant-IsFilled a h =
      elim (Bool-cases (not (is_truthy (trim a.group)) || not (is_truthy (trim a.prefix)))) [
        | inl e ↦ rw e h
        | inr e ↦ rw e (All-append IsFilled a.asked _ h ((ground arith, ground arith), tt))
      ]

  remove_grant-IsFilled :
      (b : Bool) (g : Grant) (a : Admin)
      → All IsFilled a.asked
      → All IsFilled (remove_grant spell b g a).asked
  unfolding remove_grant
  remove_grant-IsFilled true g a h = All-append IsFilled a.asked _ h (tt, tt)
  remove_grant-IsFilled false g a h = h

  settle-IsFilled :
      (c : Asked) (o : Outcome (List Grant)) (a : Admin)
      → All IsFilled a.asked
      → All IsFilled (settle spell c o a).asked
  unfolding settle
  settle-IsFilled list_grants (resolved grants) a h = h
  settle-IsFilled list_grants (rejected e) a h = h
  settle-IsFilled (add_grant t g p) (resolved r) a h =
      load-IsFilled (record a { group = ""; prefix = "" }) h
  settle-IsFilled (add_grant t g p) (rejected e) a h = h
  settle-IsFilled (delete_grant id) (resolved r) a h = load-IsFilled a h
  settle-IsFilled (delete_grant id) (rejected e) a h = h

  answered-IsFilled :
      (i : ℕ) (c : Option Asked) (o : Outcome (List Grant)) (a : Admin)
      → All IsFilled a.asked
      → All IsFilled (answered spell i c o a).asked
  answered-IsFilled i none o a h = h
  answered-IsFilled i (some c) o a h =
      settle-IsFilled c o (record a { asked = remove_at i a.asked })
        (All-remove_at IsFilled i a.asked h)

  step-IsFilled :
      (a : Admin) (e : Event) → All IsFilled a.asked → All IsFilled (step spell a e).asked
  unfolding step
  step-IsFilled a (set_group_type t) h = h
  step-IsFilled a (set_group g) h = h
  step-IsFilled a (set_prefix p) h = h
  step-IsFilled a submit h = submit_grant-IsFilled a h
  step-IsFilled a (remove b g) h = remove_grant-IsFilled b g a h
  step-IsFilled a (reply i o) h = answered-IsFilled i _ o a h

  run_from-IsFilled :
      (a : Admin) (es : List Event) → All IsFilled a.asked → All IsFilled (run spell a es).asked
  unfolding run
  run_from-IsFilled a [] h = h
  run_from-IsFilled a (e ∷ es) h = run_from-IsFilled (step spell a e) es (step-IsFilled a e h)

-- Whatever is done on the page, each grant that the server is asked to add has a group name and a
-- path prefix.
pub run-IsFilled :
    (spell : String) (es : List Event)
    → All IsFilled (run spell (load spell (opened spell)) es).asked
run-IsFilled spell es =
    run_from-IsFilled spell (load spell (opened spell)) es (load-IsFilled spell (opened spell) tt)

-- ===== src/Admin/Tests.antt =====
-- The admin page at a run, and the theorem there.
use cuttlefish.Common.{List, [], ◌∷◌, All, ◌≡◌, refl}
use cuttlefish.Common.Text.{trim}
use cuttlefish.Types.{idp}
use cuttlefish.Admin.{
  list_grants, add_grant, opened, load, Event, set_group, set_prefix, submit, run,
}
use cuttlefish.Admin.Filled.{IsFilled, run-IsFilled}

-- The form is submitted before it is filled in, and after.
abbrev typed : List Event
typed = submit ∷ set_group " staff " ∷ submit ∷ set_prefix "/data" ∷ submit ∷ []

asked_once :
    (run "?" (load "?" (opened "?")) typed).asked ≡ list_grants ∷ add_grant idp "staff" "/data" ∷ []
unfolding run load trim
asked_once = refl

run-IsFilled_example : All IsFilled (run "?" (load "?" (opened "?")) typed).asked
run-IsFilled_example = run-IsFilled "?" typed

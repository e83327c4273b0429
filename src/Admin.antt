-- ===== src/Admin.antt =====
-- fs_ui/src/pages/AdminPage.tsx: the grants of the admin page, and the calls in flight.
pub mod Filled
pub mod Mapping
pub mod Texts
mod Tests
use cuttlefish.Common.{
  remove_at, ℕ, zero, suc, Bool, true, false, ◌||◌, not, String, List, [], ◌∷◌, ◌++◌, Option, none,
  some, get_elem?, if◌then◌else◌,
}
use cuttlefish.Common.Text.{is_truthy, trim}
use cuttlefish.Types.{Grant, GroupType, idp}
use cuttlefish.Api.{Outcome, resolved, rejected, Failure, api_error, plain_error, no_error}

-- A call of `fsApi` that was made and not answered.
pub data Asked : Type 0 where
  list_grants : Asked
  add_grant : GroupType → String → String → Asked
  delete_grant : ℕ → Asked

pub record Admin : Type 0 where
  pub grants : List Grant
  pub error : Option String
  pub form_error : Option String
  pub group_type : GroupType
  pub group : String
  pub prefix : String
  pub asked : List Asked

module _ (spell : String) where
  -- `message(e)`; `spell` is `String(e)` of a value that is no `Error`.
  abbrev pub message : Failure → String
  message (api_error m status) = m
  message (plain_error m) = m
  message no_error = spell

  abbrev pub ask : Asked → Admin → Admin
  ask call a = record a { asked = a.asked ++ call ∷ [] }

  unfoldable pub load : Admin → Admin
  load a = ask list_grants (record a { error = none })

  abbrev pub opened : Admin
  opened = record {
    grants = [];
    error = none;
    form_error = none;
    group_type = idp;
    group = "";
    prefix = "";
    asked = [];
  }

  unfoldable pub submit_grant : Admin → Admin
  submit_grant a =
      if not (is_truthy (trim a.group)) || not (is_truthy (trim a.prefix))
      then record a { form_error = some "Group name and path prefix are both required." }
      else ask (add_grant a.group_type (trim a.group) (trim a.prefix))
          (record a { form_error = none })

  -- `window.confirm` answers first.
  unfoldable pub remove_grant : Bool → Grant → Admin → Admin
  remove_grant confirmed g a = if confirmed then ask (delete_grant g.id) a else a

  -- What a call resolves with: the grants, where it lists them.
  unfoldable pub settle : Asked → Outcome (List Grant) → Admin → Admin
  unfolding load
  settle list_grants (resolved grants) a = record a { grants = grants }
  settle list_grants (rejected e) a = record a { error = some (message e) }
  settle (add_grant t g p) (resolved _) a = load (record a { group = ""; prefix = "" })
  settle (add_grant t g p) (rejected e) a = record a { form_error = some (message e) }
  settle (delete_grant id) (resolved _) a = load a
  settle (delete_grant id) (rejected e) a = record a { error = some (message e) }

  abbrev pub answered : ℕ → Option Asked → Outcome (List Grant) → Admin → Admin
  answered i none o a = a
  answered i (some call) o a = settle call o (record a { asked = remove_at i a.asked })

pub data Event : Type 0 where
  set_group_type : GroupType → Event
  set_group : String → Event
  set_prefix : String → Event
  submit : Event
  remove : Bool → Grant → Event
  reply : ℕ → Outcome (List Grant) → Event

module _ (spell : String) where
  unfoldable pub step : Admin → Event → Admin
  unfolding submit_grant remove_grant settle
  step a (set_group_type t) = record a { group_type = t }
  step a (set_group g) = record a { group = g }
  step a (set_prefix p) = record a { prefix = p }
  step a submit = submit_grant spell a
  step a (remove confirmed g) = remove_grant spell confirmed g a
  step a (reply i o) = answered spell i (get_elem? a.asked i) o a

  unfoldable pub run : Admin → List Event → Admin
  unfolding step
  run a [] = a
  run a (e ∷ es) = run (step a e) es

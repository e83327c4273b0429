-- ===== src/Admin/Mapping.antt =====
-- fs_ui/src/pages/AdminPage.tsx, IdentityMapping: the rules for Unix names, the preview of an
-- identity, and the calls in flight.
mod Tests
use cuttlefish.Common.{
  ℕ, Bool, true, false, String, List, [], ◌∷◌, ◌++◌, Option, none, some, get_elem?, remove_at,
  if◌then◌else◌,
}
use cuttlefish.Common.Text.{is_truthy, trim}
use cuttlefish.Types.{IdentityRule, IdentityPreview}
use cuttlefish.Api.{Outcome, resolved, rejected}
use cuttlefish.Admin.{message}

-- A call of `fsApi` that was made and not answered.
pub data Asked : Type 0 where
  list_rules : Asked
  add_rule : String → String → Asked
  delete_rule : ℕ → Asked
  preview_identity : String → String → Asked

-- What a call resolves with.
pub data Result : Type 0 where
  listed : List IdentityRule → Result
  previewed : IdentityPreview → Result
  changed : Result

pub record Mapping : Type 0 where
  pub rules : List IdentityRule
  pub error : Option String
  pub match_text : String
  pub replace : String
  pub probe : String
  pub probe_groups : String
  pub preview : Option IdentityPreview
  pub asked : List Asked

abbrev pub ask : Asked → Mapping → Mapping
ask call m = record m { asked = m.asked ++ call ∷ [] }

unfoldable pub load : Mapping → Mapping
load m = ask list_rules m

-- The state behind the effect of the first render.
unfoldable pub opened : Mapping
unfolding load
opened = load (record {
  rules = [];
  error = none;
  match_text = "";
  replace = "";
  probe = "";
  probe_groups = "";
  preview = none;
  asked = [];
})

unfoldable pub add : Mapping → Mapping
add m = ask (add_rule (trim m.match_text) (trim m.replace)) (record m { error = none })

-- `window.confirm` answers first.
unfoldable pub remove : Bool → IdentityRule → Mapping → Mapping
remove confirmed r m = if confirmed then ask (delete_rule r.id) m else m

unfoldable pub test : Mapping → Mapping
test m =
    if is_truthy (trim m.probe) then ask (preview_identity (trim m.probe) m.probe_groups) m else m

-- The callbacks of a call; a result of another kind is not one that the call resolves with.
unfoldable pub settle : String → Asked → Outcome Result → Mapping → Mapping
unfolding load
settle spell call (rejected e) m = record m { error = some (message spell e) }
settle spell list_rules (resolved (listed rules)) m = record m { rules = rules }
settle spell (add_rule s r) (resolved changed) m =
    load (record m { match_text = ""; replace = ""; preview = none })
settle spell (delete_rule id) (resolved changed) m = load (record m { preview = none })
settle spell (preview_identity p g) (resolved (previewed preview)) m = record m {
  preview = some preview;
}
settle spell _ _ m = m

-- What the user does.
pub data Action : Type 0 where
  set_match : String → Action
  set_replace : String → Action
  set_probe : String → Action
  set_probe_groups : String → Action
  adds : Action
  removes : Bool → IdentityRule → Action
  tests : Action

unfoldable pub act : Action → Mapping → Mapping
unfolding add remove test
act (set_match s) m = record m { match_text = s }
act (set_replace s) m = record m { replace = s }
act (set_probe s) m = record m { probe = s }
act (set_probe_groups s) m = record m { probe_groups = s }
act adds m = add m
act (removes confirmed r) m = remove confirmed r m
act tests m = test m

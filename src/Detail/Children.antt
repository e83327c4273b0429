-- ===== src/Detail/Children.antt =====
-- fs_ui/src/components/DetailPanel.tsx: the effect that loads a directory's children.
-- A request in flight carries the `cancelled` of the effect that sent it.
pub mod Fresh
use cuttlefish.Common.{
  remove_at, ℕ, zero, suc, Bool, true, false, ◌&&◌, String, List, [], ◌∷◌, Option, none, some, map,
  str_eq, get_elem?, if◌then◌else◌,
}
use cuttlefish.Common.Text.{is_truthy}
use cuttlefish.Types.{Entry}
use cuttlefish.Api.{Outcome, resolved, rejected}
use cuttlefish.Detail.Selection.{DetailSelection, is_dir, entry_path}

pub record Ask : Type 0 where
  pub path : String
  pub cancelled : Bool

pub record Panel : Type 0 where
  pub selected : Option DetailSelection
  pub children : Option (List Entry)
  pub asked : List Ask

-- The clean-up of an effect; the requests of older effects have been cancelled by theirs.
abbrev pub cancel : Ask → Ask
cancel a = record a { cancelled = true }

abbrev pub ask_for : Option String → Bool → List Ask → List Ask
ask_for (some path) true asked =
    if is_truthy path then record { path = path; cancelled = false } ∷ asked else asked
ask_for _ _ asked = asked

-- The effect, behind the clean-up of the one before it.
unfoldable pub load_children : Option DetailSelection → Panel → Panel
load_children selected s = record {
  selected = selected;
  children = none;
  asked = ask_for (entry_path selected) (is_dir selected) (map cancel s.asked);
}

unfoldable pub opened : Option DetailSelection → Panel
unfolding load_children
opened selected =
    load_children selected (record { selected = selected; children = none; asked = [] })

abbrev pub same_flag : Bool → Bool → Bool
same_flag true b = b
same_flag false true = false
same_flag false false = true

abbrev pub same_path : Option String → Option String → Bool
same_path none none = true
same_path (some a) (some b) = str_eq a b
same_path _ _ = false

-- The effect runs again when `isDir` or `entryPath` is another.
unfoldable pub same_deps : Option DetailSelection → Option DetailSelection → Bool
same_deps a b = same_flag (is_dir a) (is_dir b) && same_path (entry_path a) (entry_path b)

-- The page passes another selection.
unfoldable pub select : Option DetailSelection → Panel → Panel
unfolding same_deps load_children
select selected s =
    if same_deps s.selected selected
    then record s { selected = selected }
    else load_children selected s

abbrev pub rows_of : Outcome (List Entry) → List Entry
rows_of (resolved rows) = rows
rows_of (rejected e) = []

unfoldable pub settle : Ask → Outcome (List Entry) → Panel → Panel
settle a o s = if a.cancelled then s else record s { children = some (rows_of o) }

abbrev pub answered : ℕ → Option Ask → Outcome (List Entry) → Panel → Panel
answered i none o s = s
answered i (some a) o s = settle a o (record s { asked = remove_at i s.asked })

pub data Event : Type 0 where
  selects : Option DetailSelection → Event
  reply : ℕ → Outcome (List Entry) → Event
  unmount : Event

unfoldable pub step : Panel → Event → Panel
unfolding select settle
step s (selects selected) = select selected s
step s (reply i o) = answered i (get_elem? s.asked i) o s
step s unmount = record s { asked = map cancel s.asked }

unfoldable pub run : Panel → List Event → Panel
unfolding step
run s [] = s
run s (e ∷ es) = run (step s e) es

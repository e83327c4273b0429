-- ===== src/FileSystem.antt =====
-- fs_ui/src/hooks/useFileSystem.ts: the file browser's state, its requests and their replies.
-- Requests are answered in any order, so each one in flight stands in the state with the number of
-- its `AbortController` and whether that has been aborted. A callback that runs between two awaits
-- is one function; the part behind an `await` is run by `settle`.
pub mod Invariant
pub mod Order
pub mod Refinement
pub mod Rows
pub mod Stale
mod Tests
use cuttlefish.Common.{
  remove_at, ℕ, zero, suc, String, Bool, true, false, not, ◌&&◌, List, [], ◌∷◌, map, Option, none,
  some, ◌==◌, str_eq, if◌then◌else◌, get_elem?,
}
use cuttlefish.Common.Text.{◌<>◌}
use cuttlefish.Types.{Entry, SortConfig, path_key, asc}
use cuttlefish.Api.{Outcome, resolved, rejected, Failure, api_error, plain_error, no_error}

pub data Target : Type 0 where
  listing : Target
  details : Target

-- A request in flight, with what its callback holds on to.
pub record Flight : Type 0 where
  pub controller : ℕ
  pub aborted : Bool
  pub target : Target
  pub path : String

pub record FileSystem : Type 0 where
  pub current_path : String
  pub entries : List Entry
  pub selected_item : Option Entry
  pub is_loading : Bool
  pub error : Option String
  pub sort_config : SortConfig
  pub list_abort : Option ℕ
  pub detail_abort : Option ℕ
  pub flights : List Flight
  pub next_controller : ℕ

-- The message for a failed request: a path outside the index and one without access are told apart
-- from faults.
unfoldable pub describe : Failure → String → String → String
describe (api_error message status) path noun =
    if status == 404
    then path
      <> " is not in the index. It may have been added since the last scan, or never scanned."
    else if status == 403
    then "You don't have access to " <> path <> "."
    else message
describe (plain_error message) path noun = message
describe no_error path noun = "Could not load this " <> noun <> "."

-- `ref.current?.abort()`
abbrev pub abort_flight : Option ℕ → Flight → Flight
abort_flight none f = f
abort_flight (some k) f = if f.controller == k then record f { aborted = true } else f

unfoldable pub start : String → FileSystem
start initial_path = record {
  current_path = initial_path;
  entries = [];
  selected_item = none;
  is_loading = false;
  error = none;
  sort_config = record { key = some path_key; direction = asc };
  list_abort = none;
  detail_abort = none;
  flights = [];
  next_controller = 0;
}

-- `navigateTo`, up to its `await`
unfoldable pub navigate_to : String → FileSystem → FileSystem
navigate_to path s = record s {
  list_abort = some s.next_controller;
  next_controller = suc s.next_controller;
  current_path = path;
  selected_item = none;
  error = none;
  is_loading = true;
  flights =
      record { controller = s.next_controller; aborted = false; target = listing; path = path }
      ∷ map (abort_flight s.list_abort) s.flights;
}

-- `selectedPathRef.current === entry.path`
abbrev pub is_selected : Option Entry → String → Bool
is_selected none path = false
is_selected (some e) path = str_eq e.path path

-- `selectItem`, up to its `await`
unfoldable pub select_item : Entry → FileSystem → FileSystem
select_item entry s = if is_selected s.selected_item entry.path then s else record s {
  detail_abort = some s.next_controller;
  next_controller = suc s.next_controller;
  error = none;
  is_loading = true;
  flights =
      record {
        controller = s.next_controller;
        aborted = false;
        target = details;
        path = entry.path;
      }
      ∷ map (abort_flight s.detail_abort) s.flights;
}

-- The effect's clean-up when the page goes away.
unfoldable pub unmount : FileSystem → FileSystem
unmount s = record s {
  flights = map (abort_flight s.detail_abort) (map (abort_flight s.list_abort) s.flights);
}

-- The `finally` block.
abbrev pub finish : Bool → FileSystem → FileSystem
finish aborted s = if aborted then s else record s { is_loading = false }

-- The part of `navigateTo` behind its `await`; its signal and its path are what it closes over.
unfoldable pub list_settled : Bool → String → Outcome (List Entry) → FileSystem → FileSystem
list_settled aborted path (resolved xs) s = finish aborted (record s { entries = xs })
list_settled aborted path (rejected e) s =
    if aborted
    then s
    else finish aborted (record s { entries = []; error = some (describe e path "directory") })

-- The part of `selectItem` behind its `await`.
unfoldable pub detail_settled : Bool → String → Outcome Entry → FileSystem → FileSystem
detail_settled aborted path (resolved x) s = finish aborted (record s { selected_item = some x })
detail_settled aborted path (rejected e) s =
    if aborted
    then s
    else finish aborted (record s { selected_item = none; error = some (describe e path "entry") })

-- The reply to the i-th request in flight; a signal that was aborted makes `fetch` reject, so a
-- flight that was aborted is answered by a rejection whatever the server sent.
abbrev pub seen_through : {A : Type 0} → Bool → Outcome A → Outcome A
seen_through false o = o
seen_through true o = rejected no_error

abbrev pub same_target : Target → Target → Bool
same_target listing listing = true
same_target details details = true
same_target _ _ = false

-- The request is in flight no more; a reply of the other kind is none of its own.
abbrev pub landed : Target → Target → ℕ → FileSystem → FileSystem
landed t asked i s = if same_target t asked then record s { flights = remove_at i s.flights } else s

-- A listing lands, if the request asked for one.
unfoldable pub list_lands : Target → Flight → Outcome (List Entry) → FileSystem → FileSystem
unfolding list_settled
list_lands listing f o s = list_settled f.aborted f.path (seen_through f.aborted o) s
list_lands details f o s = s

unfoldable pub detail_lands : Target → Flight → Outcome Entry → FileSystem → FileSystem
unfolding detail_settled
detail_lands details f o s = detail_settled f.aborted f.path (seen_through f.aborted o) s
detail_lands listing f o s = s

-- What can happen between two renders.
pub data Event : Type 0 where
  navigate : String → Event
  select : Entry → Event
  list_reply : ℕ → Outcome (List Entry) → Event
  detail_reply : ℕ → Outcome Entry → Event
  close : Event
  sort : SortConfig → Event

unfoldable pub step : FileSystem → Event → FileSystem
unfolding navigate_to select_item list_lands detail_lands
step s (navigate path) = navigate_to path s
step s (select entry) = select_item entry s
step s (list_reply i o) = elim (get_elem? s.flights i) [
  | none ↦ s
  | some f ↦ list_lands f.target f o (landed f.target listing i s)
]
step s (detail_reply i o) = elim (get_elem? s.flights i) [
  | none ↦ s
  | some f ↦ detail_lands f.target f o (landed f.target details i s)
]
step s close = record s { selected_item = none }
step s (sort config) = record s { sort_config = config }

unfoldable pub run : FileSystem → List Event → FileSystem
unfolding step
run s [] = s
run s (e ∷ es) = run (step s e) es

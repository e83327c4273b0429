-- ===== src/Search/Page/Visit.antt =====
-- fs_ui/src/pages/SearchPage.tsx: what the controls and the replies do to the page.
use cuttlefish.Common.{
  remove_at, ℕ, ◌==◌, Bool, true, false, ◌&&◌, not, String, List, [], ◌∷◌, Option, none, some,
  length, str_eq, if◌then◌else◌, get_elem?,
}
use cuttlefish.Common.Int.{ℤ}
use cuttlefish.Types.{Entry, SearchRule, SearchOrder, ascending, descending}
use cuttlefish.Api.{Outcome}
use cuttlefish.Search.Fields.{offers, sort_options, clamp_limit}
use cuttlefish.Search.Columns.{toggle_column}
use cuttlefish.Search.Json.{Js}
use cuttlefish.Search.Rules.{Edit, remove, edit, can_choose}
use cuttlefish.Search.Page.{
  Pending, Page, is_ascending, execute_search, settle, echo, echo_if, run_search, sort_by_column,
  load_query_text, copy_notice,
}

pub data Event : Type 0 where
  change : Edit → Event
  choose_sort : String → Event
  choose_order : SearchOrder → Event
  choose_limit : Option ℤ → Event
  toggle_key : String → Event
  toggle_text : Event
  type_text : String → Event
  copy : Bool → Event
  load : Event
  run_button : Event
  enter_key : Event
  sort_header : String → Event
  select : String → Event
  close_panel : Event
  reply : ℕ → Outcome (List Entry) → Event

-- Whether `setRules` is given another array than it has: the last condition cannot be removed.
abbrev pub sets_rules : Edit → List SearchRule → Bool
sets_rules (remove i) rules = not (length rules == 1)
sets_rules _ rules = true

abbrev pub same_order : SearchOrder → SearchOrder → Bool
same_order ascending o = is_ascending o
same_order descending o = not (is_ascending o)

abbrev pub same_keys : List String → List String → Bool
same_keys [] [] = true
same_keys [] (k ∷ ks) = false
same_keys (j ∷ js) [] = false
same_keys (j ∷ js) (k ∷ ks) = str_eq j k && same_keys js ks

module _ (js : Js) (epoch : String → String) where
  abbrev pub replied : ℕ → ℕ → Option Pending → Outcome (List Entry) → Page → Page
  replied now i none o p = p
  replied now i (some asked) o p =
      settle js epoch now asked o (record p { pending = remove_at i p.pending })

  unfoldable pub step : ℕ → Event → Page → Page
  unfolding execute_search sort_by_column load_query_text settle echo
  step now (change e) p =
      echo_if js epoch (sets_rules e p.rules) (record p { rules = edit e p.rules })
  step now (choose_sort key) p =
      echo_if js epoch (not (str_eq key p.sort_by)) (record p { sort_by = key })
  step now (choose_order o) p =
      echo_if js epoch (not (same_order o p.order)) (record p { order = o })
  step now (choose_limit n) p =
      echo_if js epoch (not (clamp_limit n 1 == p.limit)) (record p { limit = clamp_limit n 1 })
  step now (toggle_key key) p =
      let columns = toggle_column js p.columns key in
      echo_if js epoch (not (same_keys columns.shown p.columns.shown))
        (record p { columns = columns })
  step now toggle_text p =
      echo js epoch (record p { show_text = not p.show_text; text_notice = none })
  step now (type_text t) p = record p { query_text = t; text_notice = none }
  step now (copy done) p = record p { text_notice = some (copy_notice js epoch done) }
  step now load p = load_query_text js epoch now p
  step now run_button p = if p.is_loading then p else run_search js epoch now p
  step now enter_key p = run_search js epoch now p
  step now (sort_header key) p = if p.is_loading then p else sort_by_column js epoch now key p
  step now (select path) p = record p { selected_path = some path }
  step now close_panel p = record p { selected_path = none }
  step now (reply i o) p = replied now i (get_elem? p.pending i) o p

-- What the controls offer at a page: an operator of the condition's field, a sort key of the list.
abbrev pub can_do : Event → Page → Bool
can_do (change e) p = can_choose e p.rules
can_do (choose_sort key) p = offers sort_options key
can_do (sort_header key) p = offers sort_options key
can_do _ p = true

-- A visit to the page: events, each with the time that it happens at.
pub record Timed : Type 0 where
  pub now : ℕ
  pub event : Event

module _ (js : Js) (epoch : String → String) where
  unfoldable pub visit : List Timed → Page → Page
  visit [] p = p
  visit (t ∷ ts) p = visit ts (step js epoch t.now t.event p)

  -- Whether each event is on offer when it happens.
  unfoldable pub can_visit : List Timed → Page → Bool
  can_visit [] p = true
  can_visit (t ∷ ts) p = can_do t.event p && can_visit ts (step js epoch t.now t.event p)

-- ===== src/Search/Page/Tests.antt =====
-- Visits to the search page at concrete events, and the theorems there.
use cuttlefish.Common.{length, ◌≤◌, ◌≡◌, refl, false, String, List, [], ◌∷◌, some, none}
use cuttlefish.Common.Int.{pos}
use cuttlefish.Common.Text.{includes, trim}
use cuttlefish.Types.{size_field, and_connector, ascending}
use cuttlefish.Api.Url.{encode_uri_component}
use cuttlefish.Search.Fields.{offers, clamp_limit, field_kind, default_operator}
use cuttlefish.Search.Columns.{toggle_column}
use cuttlefish.Search.Columns.Shown.{}
use cuttlefish.Search.Json.{null, Js}
use cuttlefish.Search.Saved.{SavedQuery, ok, parse_query, serialize_query, query_json}
use cuttlefish.Search.Rules.{set_field, edit, new_rule}
use cuttlefish.Search.Page.{Page, saved, blank, open_page, active_rules, open_in_browser}
use cuttlefish.Search.Page.Visit.{
  step, visit, can_visit, Timed, change, sort_header, toggle_key, enter_key, run_button,
  choose_limit,
}
use cuttlefish.Search.Page.Loadable.{parse-visit}
use cuttlefish.Search.Page.Single.{visit-one_pending}
use cuttlefish.Search.Tests.{js_of, rule_of, opening_columns, default_columns-IsShown, file_at}

-- Another sort key, another field, other columns, then Enter.
abbrev a_visit : List Timed
a_visit =
    record { now = 1; event = sort_header "mtime" }
    ∷ record { now = 2; event = change (set_field 0 size_field) }
    ∷ record { now = 3; event = toggle_key "uid" }
    ∷ record { now = 4; event = choose_limit (some (pos 20000)) }
    ∷ record { now = 5; event = enter_key }
    ∷ []

abbrev same_text : String → String
same_text s = s

abbrev page_after : Js → Page
page_after js = visit js same_text a_visit (open_page js same_text 0 none opening_columns)

abbrev its_query : SavedQuery
its_query = record {
  rules =
      record {
        field = size_field;
        operator = "equals";
        value = "";
        connector = and_connector;
        negate = some false;
      }
      ∷ [];
  sort_by = "mtime";
  order = ascending;
  limit = 10000;
  columns = (saved (page_after (js_of null))).columns;
}

visited : saved (page_after (js_of (query_json its_query))) ≡ its_query
unfolding visit open_page step active_rules edit toggle_column clamp_limit field_kind new_rule trim
    default_operator
visited = refl

parse-visit_example :
    parse_query (js_of (query_json its_query)) (
      serialize_query
        (js_of (query_json its_query))
        (saved (page_after (js_of (query_json its_query)))))
    ≡ ok (saved (page_after (js_of (query_json its_query))))
unfolding visit open_page step can_visit active_rules edit toggle_column clamp_limit offers
    field_kind new_rule trim default_operator
parse-visit_example =
    parse-visit (js_of (query_json its_query)) same_text opening_columns a_visit
      default_columns-IsShown refl refl

abbrev typed : Page
typed = record (blank (js_of null) same_text opening_columns) { rules = rule_of "a" ∷ [] }

-- Two presses of the button, and a column's header, while the first search is in flight.
abbrev pressed : List Timed
pressed =
    record { now = 1; event = run_button }
    ∷ record { now = 2; event = run_button }
    ∷ record { now = 3; event = sort_header "mtime" }
    ∷ []

visit-one_pending_example :
    length
      (visit
        (js_of null)
        same_text
        pressed
        (open_page (js_of null) same_text 0 (some "/etc") opening_columns)).pending
    ≤ 1
visit-one_pending_example =
    visit-one_pending (js_of null) same_text 0 (some "/etc") opening_columns pressed refl

open_parent : open_in_browser (file_at "/usr/lib/x") ≡ "/browser?path=%2Fusr%2Flib"
unfolding open_in_browser encode_uri_component includes
open_parent = refl

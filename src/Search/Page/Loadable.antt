-- ===== src/Search/Page/Loadable.antt =====
-- fs_ui/src/pages/SearchPage.tsx: the query of the page after any visit.
use cuttlefish.Common.{ℕ, true, String, List, [], ◌∷◌, ◌≡◌, refl, none, some, arith, and-eq-true}
use cuttlefish.Search.Fields.{offers}
use cuttlefish.Search.Columns.{Selection, toggle_column}
use cuttlefish.Search.Columns.Shown.{IsShown, toggle_column-Toggles}
use cuttlefish.Search.Json.{Js}
use cuttlefish.Search.Saved.{ok, parse_query, serialize_query, query_json}
use cuttlefish.Search.Saved.RoundTrip.{parse-serialize_query}
use cuttlefish.Search.Saved.Clamped.{parse_query-IsValid}
use cuttlefish.Search.Rules.Offered.{edit-IsRunnable, new_rule-IsValidRule}
use cuttlefish.Search.Page.{Page, saved, load_query_text, blank, open_page}
use cuttlefish.Search.Page.Visit.{
  Event, change, choose_sort, choose_order, choose_limit, toggle_key, toggle_text, type_text, copy,
  load, run_button, enter_key, sort_header, select, close_panel, reply, step, can_do, Timed, visit,
  can_visit,
}
use cuttlefish.Search.Page.Ready.{
  IsReady, Keeps-IsReady, sorted-IsReady, if-IsReady, limited-IsReady, echo_if-Keeps, echo-Keeps,
  IsShown-IsReady, load_result-IsReady, sort_by_column-IsReady, run_search-IsReady, replied-IsReady,
}

module _ (js : Js) (epoch : String → String) where
  step-IsReady :
      (now : ℕ) (e : Event) (p : Page)
      → can_do e p ≡ true
      → IsReady p
      → IsReady (step js epoch now e p)
  unfolding step
  step-IsReady now (change e) p can h = Keeps-IsReady (echo_if-Keeps js epoch _ _) (
      let r =
        edit-IsRunnable e p.rules can
          (record { some_rule = h.query.some_rule; valid = h.query.valid_rules }) in
      record {
        query = record {
          some_rule = r.some_rule;
          valid_rules = r.valid;
          sortable = h.query.sortable;
          at_least = h.query.at_least;
          at_most = h.query.at_most;
          ordered = h.query.ordered;
        };
        shown = h.shown;
      })
  step-IsReady now (choose_sort key) p can h =
      Keeps-IsReady (echo_if-Keeps js epoch _ _) (sorted-IsReady key p.order p can h)
  step-IsReady now (choose_order o) p can h =
      Keeps-IsReady (echo_if-Keeps js epoch _ _) (sorted-IsReady p.sort_by o p h.query.sortable h)
  step-IsReady now (choose_limit n) p can h =
      Keeps-IsReady (echo_if-Keeps js epoch _ _) (limited-IsReady n p h)
  step-IsReady now (toggle_key key) p can h = Keeps-IsReady (echo_if-Keeps js epoch _ _) (
      IsShown-IsReady js epoch (toggle_column js p.columns key) p h
        (toggle_column-Toggles js p.columns key
          (record { ordered = h.query.ordered; some_shown = h.shown })).0)
  step-IsReady now toggle_text p can h =
      Keeps-IsReady (echo-Keeps js epoch _) (record { query = h.query; shown = h.shown })
  step-IsReady now (type_text t) p can h = record { query = h.query; shown = h.shown }
  step-IsReady now (copy done) p can h = record { query = h.query; shown = h.shown }
  step-IsReady now load p can h = loaded
    where
      loaded : IsReady (load_query_text js epoch now p)
      loaded = load_result-IsReady js epoch now _ p (λ q e. parse_query-IsValid js p.query_text e) h
  step-IsReady now run_button p can h =
      if-IsReady p.is_loading h (run_search-IsReady js epoch now p h)
  step-IsReady now enter_key p can h = run_search-IsReady js epoch now p h
  step-IsReady now (sort_header key) p can h =
      if-IsReady p.is_loading h (sort_by_column-IsReady js epoch now key p can h)
  step-IsReady now (select path) p can h = record { query = h.query; shown = h.shown }
  step-IsReady now close_panel p can h = record { query = h.query; shown = h.shown }
  step-IsReady now (reply i o) p can h = replied-IsReady js epoch now i _ o p h

  visit-IsReady :
      (ts : List Timed) (p : Page)
      → can_visit js epoch ts p ≡ true
      → IsReady p
      → IsReady (visit js epoch ts p)
  unfolding visit can_visit
  visit-IsReady [] p can h = h
  visit-IsReady (t ∷ ts) p can h =
      let both = and-eq-true _ _ can in
      visit-IsReady ts _ both.1 (step-IsReady t.now t.event p both.0 h)

  blank-IsReady : (s : Selection) → IsShown s.shown → IsReady (blank js epoch s)
  unfolding offers
  blank-IsReady s h = record {
    query = record {
      some_rule = λ e. cc;
      valid_rules = (new_rule-IsValidRule, tt);
      sortable = refl;
      at_least = omega arith;
      at_most = omega arith;
      ordered = h.ordered;
    };
    shown = h.some_shown;
  }

-- After any visit that starts without a link's path, the text that is written for the page's query
-- loads back as that query. The columns start in the table's order with at least one of them, each
-- event is one that the controls offer when it happens, in any order with the replies, and
-- `JSON.parse` undoes `JSON.stringify` on the query.
pub parse-visit :
    (js : Js) (epoch : String → String) (s : Selection) (ts : List Timed)
    → IsShown s.shown
    → can_visit js epoch ts (open_page js epoch 0 none s) ≡ true
    → js.parse (js.stringify (query_json (saved (visit js epoch ts (open_page js epoch 0 none s)))))
      ≡ some (query_json (saved (visit js epoch ts (open_page js epoch 0 none s))))
    → parse_query js (serialize_query js (saved (visit js epoch ts (open_page js epoch 0 none s))))
      ≡ ok (saved (visit js epoch ts (open_page js epoch 0 none s)))
unfolding open_page
parse-visit js epoch s ts shown can back =
    parse-serialize_query js _
      (visit-IsReady js epoch ts (blank js epoch s) can (blank-IsReady js epoch s shown)).query back

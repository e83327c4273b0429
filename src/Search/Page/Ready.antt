-- ===== src/Search/Page/Ready.antt =====
-- fs_ui/src/pages/SearchPage.tsx: which pages hold a query that can be written and loaded, and the
-- operations on a page's state that keep it one.
use mathlib.Core.Path.{subst}
use cuttlefish.Common.{
  ℕ, ◌≤◌, Bool, true, false, String, List, [], ◌∷◌, ◌≡◌, refl, ◌≢◌, sym, Option, none, some, arith,
  Bool-cases, inl, inr, if◌then◌else◌,
}
use cuttlefish.Common.Int.{ℤ, pos, negsuc}
use cuttlefish.Types.{SearchRule, SearchOrder}
use cuttlefish.Api.{Outcome, resolved, rejected}
use cuttlefish.Types.{Entry}
use cuttlefish.Search.Fields.{offers, sort_options, clamp_limit, max_limit}
use cuttlefish.Search.Columns.{Selection, apply_column_keys, order_columns, show_columns}
use cuttlefish.Search.Columns.Shown.{IsShown, order_columns_idem}
use cuttlefish.Search.Json.{Js}
use cuttlefish.Search.Saved.{SavedQuery, Result, ok, err}
use cuttlefish.Search.Saved.RoundTrip.{IsValid}
use cuttlefish.Search.Page.{
  Page, Pending, saved, send_rules, execute_search, settle, echo, echo_if, sort_by_column,
  loaded_columns, load_result, active_rules, run_search,
}
use cuttlefish.Search.Page.Visit.{replied}

-- The page's query is one that its text can hold, and some column is shown.
pub record IsReady (p : Page) : Type 0 where
  pub query : IsValid (saved p)
  pub shown : p.columns.shown ≢ []

-- A page with the same query and columns.
pub record Keeps (p p' : Page) : Type 0 where
  query : saved p' ≡ saved p
  columns : p'.columns ≡ p.columns

pub Keeps-IsReady : {p p' : Page} → Keeps p p' → IsReady p → IsReady p'
Keeps-IsReady k h = record {
  query = subst IsValid (sym k.query) h.query;
  shown = subst (λ (s : Selection). s.shown ≢ []) (sym k.columns) h.shown;
}

pub sorted-IsReady :
    (key : String) (o : SearchOrder) (p : Page)
    → offers sort_options key ≡ true
    → IsReady p
    → IsReady (record p { sort_by = key; order = o })
sorted-IsReady key o p offered h = record {
  query = record {
    some_rule = h.query.some_rule;
    valid_rules = h.query.valid_rules;
    sortable = offered;
    at_least = h.query.at_least;
    at_most = h.query.at_most;
    ordered = h.query.ordered;
  };
  shown = h.shown;
}

pub if-IsReady : (b : Bool) {p q : Page} → IsReady p → IsReady q → IsReady (if b then p else q)
if-IsReady true h k = h
if-IsReady false h k = k

clamp_limit-one : (n : Option ℤ) → (1 ≤ clamp_limit n 1) × (clamp_limit n 1 ≤ max_limit)
unfolding clamp_limit
clamp_limit-one none = (omega arith, omega arith)
clamp_limit-one (some (negsuc n)) = (omega arith, omega arith)
clamp_limit-one (some (pos n)) = ground arith

pub limited-IsReady :
    (n : Option ℤ) (p : Page) → IsReady p → IsReady (record p { limit = clamp_limit n 1 })
limited-IsReady n p h = record {
  query = record {
    some_rule = h.query.some_rule;
    valid_rules = h.query.valid_rules;
    sortable = h.query.sortable;
    at_least = (clamp_limit-one n).0;
    at_most = (clamp_limit-one n).1;
    ordered = h.query.ordered;
  };
  shown = h.shown;
}

module _ (js : Js) (epoch : String → String) where
  pub echo-Keeps : (p : Page) → Keeps p (echo js epoch p)
  unfolding echo
  echo-Keeps p = elim (Bool-cases p.show_text) [
    | inl e ↦ rw e (record { query = refl; columns = refl })
    | inr e ↦ rw e (record { query = refl; columns = refl })
  ]

  pub echo_if-Keeps : (b : Bool) (p : Page) → Keeps p (echo_if js epoch b p)
  echo_if-Keeps true p = echo-Keeps p
  echo_if-Keeps false p = record { query = refl; columns = refl }

  send_rules-Keeps :
      (now : ℕ) (key : String) (o : SearchOrder) (l : ℕ) (active : List SearchRule) (p : Page)
      → Keeps p (send_rules js epoch now key o l active p)
  send_rules-Keeps now key o l [] p = record { query = refl; columns = refl }
  send_rules-Keeps now key o l (r ∷ rules) p = record { query = refl; columns = refl }

  execute_search-Keeps :
      (now : ℕ) (rules : List SearchRule) (key : String) (o : SearchOrder) (l : ℕ) (p : Page)
      → Keeps p (execute_search js epoch now rules key o l p)
  unfolding execute_search
  execute_search-Keeps now rules key o l p =
      send_rules-Keeps now key o l (active_rules js epoch rules) p

  settle-Keeps :
      (now : ℕ) (asked : Pending) (out : Outcome (List Entry)) (p : Page)
      → Keeps p (settle js epoch now asked out p)
  unfolding settle
  settle-Keeps now asked (resolved found) p = record { query = refl; columns = refl }
  settle-Keeps now asked (rejected e) p = record { query = refl; columns = refl }

  pub IsShown-IsReady :
      (s : Selection) (p : Page) → IsReady p → IsShown s.shown → IsReady (record p { columns = s })
  IsShown-IsReady s p h shown = record {
    query = record {
      some_rule = h.query.some_rule;
      valid_rules = h.query.valid_rules;
      sortable = h.query.sortable;
      at_least = h.query.at_least;
      at_most = h.query.at_most;
      ordered = shown.ordered;
    };
    shown = shown.some_shown;
  }

  show_columns-IsShown :
      (s : Selection) (keys : List String)
      → order_columns keys ≡ keys
      → IsShown s.shown
      → IsShown (show_columns js s keys).shown
  show_columns-IsShown s [] e h = h
  show_columns-IsShown s (k ∷ ks) e h = record { ordered = e; some_shown = λ n. cc }

  loaded_columns-IsShown :
      (keys : List String) (s : Selection)
      → IsShown s.shown
      → IsShown (loaded_columns js epoch keys s).shown
  unfolding apply_column_keys
  loaded_columns-IsShown [] s h = h
  loaded_columns-IsShown (k ∷ ks) s h =
      show_columns-IsShown s (order_columns (k ∷ ks)) (order_columns_idem (k ∷ ks)) h

  pub load_result-IsReady :
      (now : ℕ) (r : Result SavedQuery) (p : Page)
      → ((q : SavedQuery) → r ≡ ok q → IsValid q)
      → IsReady p
      → IsReady (load_result js epoch now r p)
  load_result-IsReady now (err m) p valid h = record { query = h.query; shown = h.shown }
  load_result-IsReady now (ok q) p valid h =
      let v = valid q refl in
      let shown =
        loaded_columns-IsShown q.columns p.columns
          (record { ordered = h.query.ordered; some_shown = h.shown }) in
      Keeps-IsReady (execute_search-Keeps now _ _ _ _ _) (
        Keeps-IsReady (echo-Keeps _) (record {
          query = record {
            some_rule = v.some_rule;
            valid_rules = v.valid_rules;
            sortable = v.sortable;
            at_least = v.at_least;
            at_most = v.at_most;
            ordered = shown.ordered;
          };
          shown = shown.some_shown;
        }))

  pub sort_by_column-IsReady :
      (now : ℕ) (key : String) (p : Page)
      → offers sort_options key ≡ true
      → IsReady p
      → IsReady (sort_by_column js epoch now key p)
  unfolding sort_by_column
  sort_by_column-IsReady now key p offered h =
      Keeps-IsReady (execute_search-Keeps now _ _ _ _ _)
        (Keeps-IsReady (echo-Keeps _) (sorted-IsReady key _ p offered h))

  pub run_search-IsReady : (now : ℕ) (p : Page) → IsReady p → IsReady (run_search js epoch now p)
  run_search-IsReady now p h = Keeps-IsReady (execute_search-Keeps now _ _ _ _ _) h

  pub replied-IsReady :
      (now i : ℕ) (asked : Option Pending) (o : Outcome (List Entry)) (p : Page)
      → IsReady p
      → IsReady (replied js epoch now i asked o p)
  replied-IsReady now i none o p h = h
  replied-IsReady now i (some asked) o p h =
      Keeps-IsReady (settle-Keeps now asked o _) (record { query = h.query; shown = h.shown })

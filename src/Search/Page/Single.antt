-- ===== src/Search/Page/Single.antt =====
-- fs_ui/src/pages/SearchPage.tsx: searches from the button and the column headers.
use cuttlefish.Common.{
  remove_at, ℕ, zero, suc, ◌≤◌, Bool, true, false, String, List, [], ◌∷◌, ◌++◌, ◌≡◌, refl, ap, ◌∙◌,
  ◌⊎◌, inl, inr, Option, none, some, Bool-cases, if◌then◌else◌, get_elem?, length, all, arith,
  and-eq-true,
}
use cuttlefish.Types.{Entry, SearchRule, SearchOrder, ascending}
use cuttlefish.Api.{Outcome, resolved, rejected}
use cuttlefish.Search.Fields.{default_limit}
use cuttlefish.Search.Columns.{Selection}
use cuttlefish.Search.Json.{Js}
use cuttlefish.Search.Page.{
  Page, Pending, send_rules, execute_search, settle, echo, echo_if, sort_by_column, active_rules,
  open_page, blank, path_rule,
}
use cuttlefish.Search.Page.Visit.{
  Event, change, choose_sort, choose_order, choose_limit, toggle_key, toggle_text, type_text, copy,
  load, run_button, enter_key, sort_header, select, close_panel, reply, replied, replied, step,
  Timed, visit,
}
use cuttlefish.Common.Text.{is_truthy}

-- No search is in flight, or one is and the page says so.
abbrev Single : Page → Type 0
Single p = (p.pending ≡ []) ⊎ ((a : Pending) × (p.pending ≡ a ∷ []) × (p.is_loading ≡ true))

-- The events other than the Enter key and Load.
abbrev pub is_guarded : Event → Bool
is_guarded enter_key = false
is_guarded load = false
is_guarded _ = true

record Same (p p' : Page) : Type 0 where
  pending : p'.pending ≡ p.pending
  loading : p'.is_loading ≡ p.is_loading

Same-Single : {p p' : Page} → Same p p' → Single p → Single p'
Same-Single s (inl none_pending) = inl (s.pending ∙ none_pending)
Same-Single s (inr (a, one, says)) = inr (a, s.pending ∙ one, s.loading ∙ says)

removed-nil :
    (i : ℕ) (fs : List Pending) (asked : Pending)
    → (fs ≡ []) ⊎ ((a : Pending) × (fs ≡ a ∷ []))
    → get_elem? fs i ≡ some asked
    → remove_at i fs ≡ []
removed-nil i [] asked h e = refl
removed-nil zero (f ∷ []) asked h e = refl
removed-nil (suc i) (f ∷ []) asked h e = cc
removed-nil i (f ∷ g ∷ fs) asked (inl h) e = cc
removed-nil i (f ∷ g ∷ fs) asked (inr (a, h)) e = cc

at_most_one : (p : Page) → Single p → (p.pending ≡ []) ⊎ ((a : Pending) × (p.pending ≡ a ∷ []))
at_most_one p (inl e) = inl e
at_most_one p (inr (a, e, l)) = inr (a, e)

module _ (js : Js) (epoch : String → String) where
  echo-Same : (p : Page) → Same p (echo js epoch p)
  unfolding echo
  echo-Same p = elim (Bool-cases p.show_text) [
    | inl e ↦ rw e (record { pending = refl; loading = refl })
    | inr e ↦ rw e (record { pending = refl; loading = refl })
  ]

  echo_if-Same : (b : Bool) (p : Page) → Same p (echo_if js epoch b p)
  echo_if-Same true p = echo-Same p
  echo_if-Same false p = record { pending = refl; loading = refl }

  send_rules-Single :
      (now : ℕ) (key : String) (o : SearchOrder) (l : ℕ) (active : List SearchRule) (p : Page)
      → p.is_loading ≡ false
      → Single p
      → Single (send_rules js epoch now key o l active p)
  send_rules-Single now key o l [] p idle h = h
  send_rules-Single now key o l (r ∷ rules) p idle (inl e) =
      let a : Pending = record {
        begun_at = now;
        request = record { rules = r ∷ rules; sort_by = key; order = o; limit = l; offset = 0 };
      } in
      inr (a, ap (λ fs. fs ++ a ∷ []) e, refl)
  send_rules-Single now key o l (r ∷ rules) p idle (inr (a, e, says)) = cc

  execute_search-Single :
      (now : ℕ) (rules : List SearchRule) (key : String) (o : SearchOrder) (l : ℕ) (p : Page)
      → p.is_loading ≡ false
      → Single p
      → Single (execute_search js epoch now rules key o l p)
  unfolding execute_search
  execute_search-Single now rules key o l p idle h =
      send_rules-Single now key o l (active_rules js epoch rules) p idle h

  sort_by_column-Single :
      (now : ℕ) (key : String) (p : Page)
      → p.is_loading ≡ false
      → Single p
      → Single (sort_by_column js epoch now key p)
  unfolding sort_by_column
  sort_by_column-Single now key p idle h =
      let s = echo-Same _ in
      execute_search-Single now _ _ _ _ _ (s.loading ∙ idle) (Same-Single s h)

  guarded :
      (b : Bool) (p q : Page) → Single p → (b ≡ false → Single q) → Single (if b then p else q)
  guarded true p q h next = h
  guarded false p q h next = next refl

  settle-Single :
      (now : ℕ) (asked : Pending) (o : Outcome (List Entry)) (p : Page)
      → p.pending ≡ []
      → Single (settle js epoch now asked o p)
  unfolding settle
  settle-Single now asked (resolved found) p e = inl e
  settle-Single now asked (rejected f) p e = inl e

  replied-Single :
      (now i : ℕ) (asked : Option Pending) (o : Outcome (List Entry)) (p : Page)
      → get_elem? p.pending i ≡ asked
      → Single p
      → Single (replied js epoch now i asked o p)
  replied-Single now i none o p e h = h
  replied-Single now i (some asked) o p e h =
      settle-Single now asked o _ (removed-nil i p.pending asked (at_most_one p h) e)

  step-Single :
      (now : ℕ) (e : Event) (p : Page)
      → is_guarded e ≡ true
      → Single p
      → Single (step js epoch now e p)
  unfolding step
  step-Single now (change e) p g h = Same-Single (echo_if-Same _ _) h
  step-Single now (choose_sort key) p g h = Same-Single (echo_if-Same _ _) h
  step-Single now (choose_order o) p g h = Same-Single (echo_if-Same _ _) h
  step-Single now (choose_limit n) p g h = Same-Single (echo_if-Same _ _) h
  step-Single now (toggle_key key) p g h = Same-Single (echo_if-Same _ _) h
  step-Single now toggle_text p g h = Same-Single (echo-Same _) h
  step-Single now (type_text t) p g h = h
  step-Single now (copy done) p g h = h
  step-Single now load p g h = cc
  step-Single now enter_key p g h = cc
  step-Single now run_button p g h =
      guarded p.is_loading p _ h (λ idle. execute_search-Single now _ _ _ _ p idle h)
  step-Single now (sort_header key) p g h =
      guarded p.is_loading p _ h (λ idle. sort_by_column-Single now key p idle h)
  step-Single now (select path) p g h = h
  step-Single now close_panel p g h = h
  step-Single now (reply i o) p g h = replied-Single now i _ o p refl h

  visit-Single :
      (ts : List Timed) (p : Page)
      → all (λ (t : Timed). is_guarded t.event) ts ≡ true
      → Single p
      → Single (visit js epoch ts p)
  unfolding visit
  visit-Single [] p g h = h
  visit-Single (t ∷ ts) p g h =
      let both = and-eq-true _ _ g in
      visit-Single ts _ both.1 (step-Single t.now t.event p both.0 h)

  open_page-Single :
      (now : ℕ) (path : Option String) (s : Selection) → Single (open_page js epoch now path s)
  unfolding open_page
  open_page-Single now none s = inl refl
  open_page-Single now (some path) s =
      let rules = path_rule js epoch path ∷ [] in
      let seeded : Page = record (blank js epoch s) { rules = rules } in
      guarded (is_truthy path)
        (execute_search js epoch now rules "path" ascending default_limit seeded) (blank js epoch s)
        (execute_search-Single now rules "path" ascending default_limit seeded refl (inl refl))
        (λ e. inl refl)

Single-length : (p : Page) → Single p → length p.pending ≤ 1
Single-length p (inl e) = rw e (omega arith)
Single-length p (inr (a, e, says)) = rw e (omega arith)

-- On a page that is used without the Enter key in a value and without Load, at most one search is
-- in flight after any of its events, also if a link's path has started one.
pub visit-one_pending :
    (js : Js) (epoch : String → String) (now : ℕ) (path : Option String) (s : Selection)
    (ts : List Timed)
    → all (λ (t : Timed). is_guarded t.event) ts ≡ true
    → length (visit js epoch ts (open_page js epoch now path s)).pending ≤ 1
visit-one_pending js epoch now path s ts g =
    let opened = open_page js epoch now path s in
    Single-length (visit js epoch ts opened)
      (visit-Single js epoch ts opened g (open_page-Single js epoch now path s))

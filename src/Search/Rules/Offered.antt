-- ===== src/Search/Rules/Offered.antt =====
-- fs_ui/src/pages/SearchPage.tsx: the list of conditions after an edit.
use cuttlefish.Common.{
  All-remove_at, remove_at, ℕ, zero, suc, ◌==◌, true, false, List, [], ◌∷◌, ◌++◌, some, ◌≡◌, refl,
  ◌≢◌, ap, sym, ◌∙◌, get_elem?, length, All, All-append, Bool-cases, inl, inr,
}
use cuttlefish.Types.{SearchField, path_field, SearchRule, and_connector}
use cuttlefish.Search.Fields.{offers, operators_for, default_operator}
use cuttlefish.Search.Saved.RoundTrip.{IsValidRule}
use cuttlefish.Search.Rules.{
  merge, update_at, update_rule, change_field, add_rule, remove_rule, Edit, set_connector,
  set_field, set_negate, set_operator, set_value, add, remove, edit, can_choose, offers_at,
  new_rule,
}

-- At least one condition, each with an operator of its own field and the negation stated.
pub record IsRunnable (rules : List SearchRule) : Type 0 where
  pub some_rule : rules ≢ []
  pub valid : All IsValidRule rules

default_operator-offered :
    (field : SearchField) → offers (operators_for field) (default_operator field) ≡ true
unfolding offers operators_for default_operator
default_operator-offered path_field = refl
default_operator-offered _ = refl

pub new_rule-IsValidRule : IsValidRule (new_rule and_connector)
unfolding new_rule offers operators_for
new_rule-IsValidRule = record { offered = refl; stated = λ e. cc }

All-update_at :
    (f : SearchRule → SearchRule) (i : ℕ) (rules : List SearchRule)
    → ((r : SearchRule) → get_elem? rules i ≡ some r → IsValidRule r → IsValidRule (f r))
    → All IsValidRule rules
    → All IsValidRule (update_at i f rules)
All-update_at f i [] keep h = tt
All-update_at f zero (r ∷ rules) keep h = (keep r refl h.0, h.1)
All-update_at f (suc i) (r ∷ rules) keep h = (h.0, All-update_at f i rules keep h.1)

update_at-ne :
    (f : SearchRule → SearchRule) (i : ℕ) (rules : List SearchRule)
    → rules ≢ []
    → update_at i f rules ≢ []
update_at-ne f i [] h = λ e. h e
update_at-ne f zero (r ∷ rules) h = λ e. cc
update_at-ne f (suc i) (r ∷ rules) h = λ e. cc

remove_at-ne :
    (i : ℕ) (rules : List SearchRule)
    → rules ≢ []
    → (length rules == 1) ≡ false
    → remove_at i rules ≢ []
remove_at-ne i [] h k = λ e. h e
remove_at-ne zero (r ∷ []) h k = λ e. cc
remove_at-ne zero (r ∷ s ∷ rules) h k = λ e. cc
remove_at-ne (suc i) (r ∷ rules) h k = λ e. cc

append-ne : (r : SearchRule) (rules : List SearchRule) → rules ++ r ∷ [] ≢ []
append-ne r [] = λ e. cc
append-ne r (s ∷ rules) = λ e. cc

update-IsRunnable :
    (f : SearchRule → SearchRule) (i : ℕ) (rules : List SearchRule)
    → ((r : SearchRule) → get_elem? rules i ≡ some r → IsValidRule r → IsValidRule (f r))
    → IsRunnable rules
    → IsRunnable (update_at i f rules)
update-IsRunnable f i rules keep h = record {
  some_rule = update_at-ne f i rules h.some_rule;
  valid = All-update_at f i rules keep h.valid;
}

-- An edit of the conditions leaves at least one of them, each with an operator that its field
-- offers and with its negation stated, if that held and an operator is chosen from those on offer.
pub edit-IsRunnable :
    (e : Edit) (rules : List SearchRule)
    → can_choose e rules ≡ true
    → IsRunnable rules
    → IsRunnable (edit e rules)
unfolding edit update_rule change_field add_rule remove_rule merge
edit-IsRunnable (set_connector i c) rules can h =
    update-IsRunnable _ i rules (λ r at v. record { offered = v.offered; stated = v.stated }) h
edit-IsRunnable (set_field i field) rules can h =
    update-IsRunnable _ i rules
      (λ r at v. record { offered = default_operator-offered field; stated = v.stated }) h
edit-IsRunnable (set_negate i b) rules can h =
    update-IsRunnable _ i rules (λ r at v. record { offered = v.offered; stated = λ e. cc }) h
edit-IsRunnable (set_operator i o) rules can h =
    update-IsRunnable _ i rules
      (λ r at v. record { offered = ap (λ m. offers_at m o) (sym at) ∙ can; stated = v.stated }) h
edit-IsRunnable (set_value i s) rules can h =
    update-IsRunnable _ i rules (λ r at v. record { offered = v.offered; stated = v.stated }) h
edit-IsRunnable add rules can h = record {
  some_rule = append-ne _ rules;
  valid = All-append IsValidRule rules _ h.valid (new_rule-IsValidRule, tt);
}
edit-IsRunnable (remove i) rules can h = elim (Bool-cases (length rules == 1)) [
  | inl e ↦ rw e h
  | inr e ↦ rw e (record {
    some_rule = remove_at-ne i rules h.some_rule e;
    valid = All-remove_at IsValidRule i rules h.valid;
  })
]

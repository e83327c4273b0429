-- ===== src/Search/Page/Races.antt =====
-- fs_ui/src/pages/SearchPage.tsx: two searches in flight at once.
use mathlib.Core.Path.{subst}
use cuttlefish.Common.{
  ℕ, Bool, true, false, String, List, [], ◌∷◌, ◌++◌, ◌≡◌, refl, ◌≢◌, ap, sym, ◌∙◌, Bool-cases, inl,
  inr,
}
use cuttlefish.Types.{Entry, SearchRule, SearchOrder}
use cuttlefish.Api.{resolved}
use cuttlefish.Search.Json.{Js}
use cuttlefish.Search.Rules.{Edit, edit}
use cuttlefish.Search.Page.{
  Page, Pending, send_rules, execute_search, settle, echo, echo_if, active_rules,
}
use cuttlefish.Search.Page.Visit.{change, enter_key, reply, step}

module _ (js : Js) (epoch : String → String) where
  echo_if-pending : (b : Bool) (p : Page) → (echo_if js epoch b p).pending ≡ p.pending
  unfolding echo
  echo_if-pending true p = elim (Bool-cases p.show_text) [ inl e ↦ rw e refl | inr e ↦ rw e refl ]
  echo_if-pending false p = refl

  echo_if-rules : (b : Bool) (p : Page) → (echo_if js epoch b p).rules ≡ p.rules
  unfolding echo
  echo_if-rules true p = elim (Bool-cases p.show_text) [ inl e ↦ rw e refl | inr e ↦ rw e refl ]
  echo_if-rules false p = refl

  send_rules-pending :
      (now : ℕ) (key : String) (o : SearchOrder) (l : ℕ) (active : List SearchRule) (p : Page)
      → active ≢ []
      → (a : Pending) × ((send_rules js epoch now key o l active p).pending ≡ p.pending ++ a ∷ [])
        × ((send_rules js epoch now key o l active p).rules ≡ p.rules)
  send_rules-pending now key o l [] p h = absurd (h refl)
  send_rules-pending now key o l (r ∷ rules) p h = (_, refl, refl)

  enter_key-pending :
      (now : ℕ) (p : Page)
      → active_rules js epoch p.rules ≢ []
      → (a : Pending) × ((step js epoch now enter_key p).pending ≡ p.pending ++ a ∷ [])
        × ((step js epoch now enter_key p).rules ≡ p.rules)
  unfolding step execute_search
  enter_key-pending now p h = send_rules-pending now p.sort_by p.order p.limit _ p h

  change-pending :
      (now : ℕ) (e : Edit) (p : Page)
      → ((step js epoch now (change e) p).pending ≡ p.pending)
        × ((step js epoch now (change e) p).rules ≡ edit e p.rules)
  unfolding step
  change-pending now e p = (echo_if-pending _ _, echo_if-rules _ _)

  -- What the page shows when both replies have come, the second search's first.
  both_replies :
      (t u : ℕ) (x y : List Entry) (a b : Pending) (p : Page)
      → p.pending ≡ a ∷ b ∷ []
      → ((step js epoch u (reply 0 (resolved x)) (step js epoch t (reply 1 (resolved y)) p)).results
          ≡ x)
        × ((step js epoch t (reply 1 (resolved y)) p).is_loading ≡ false)
  unfolding step settle
  both_replies t u x y a b p e = rw e (refl, refl)

-- A search by the Enter key is sent while another is in flight, and the reply that comes last is
-- shown, also if it answers the older conditions; and once either has come the page no longer says
-- that it is searching. Here Enter, an edit and Enter on a page with no search in flight are
-- followed by the replies, the newer first; both lists of conditions have one to send.
enter_key-older_reply :
    (js : Js) (epoch : String → String) (p : Page) (e : Edit) (r s t u v : ℕ) (x y : List Entry)
    → p.pending ≡ []
    → active_rules js epoch p.rules ≢ []
    → active_rules js epoch (edit e p.rules) ≢ []
    → let sent =
        step js epoch t enter_key (step js epoch s (change e) (step js epoch r enter_key p)) in
      let newer = step js epoch u (reply 1 (resolved y)) sent in
      (newer.is_loading ≡ false) × ((step js epoch v (reply 0 (resolved x)) newer).results ≡ x)
enter_key-older_reply js epoch p e r s t u v x y none_pending first second =
    let (a, one, kept) = enter_key-pending js epoch r p first in
    let (same, edited) = change-pending js epoch s e (step js epoch r enter_key p) in
    let (b, two, _) =
      enter_key-pending js epoch t (step js epoch s (change e) (step js epoch r enter_key p)) (
        subst (λ rules. active_rules js epoch rules ≢ []) (sym (edited ∙ ap (edit e) kept))
          second) in
    let all = two ∙ ap (λ l. l ++ b ∷ []) (same ∙ one ∙ ap (λ l. l ++ a ∷ []) none_pending) in
    let (shown, idle) = both_replies js epoch u v x y a b _ all in (idle, shown)

-- ===== src/Server/Sessions/Ended.antt =====
-- A session that has ended, by a sign-out, a failed re-check or its time, stays so.
use mathlib.Core.Path.{subst}
use text.Mathlib.TextPositions.{eq_refl}
use cuttlefish.Common.{
  ℕ, ◌+◌, ◌≤◌, Bool, true, false, not, String, List, [], ◌∷◌, Option, none, some, ltb, str_eq, ◌≡◌,
  refl, ap, sym, ◌∙◌, arith, All, Bool-cases, inl, inr, eq_iff, get_elem?, remove_at,
}
use cuttlefish.Server.Claims.{OidcConfig}
use cuttlefish.Server.Sessions.{
  Session, Sessions, put, Refreshed, Mode, unexpired, insert, issue_session, LookedUp, Asked,
  Progress, looked_up, asked, State, refused, live, found, load_session, Claim, not_due, due,
  claim_row, claimed, claim_at, claim, verdict, renew, settle, answer_at, answer, logout, Event,
  issue, looks_up, claims, answers, log_out, step, run,
}

abbrev is_live : ℕ → Option Session → Bool
is_live now none = false
is_live now (some s) = ltb now s.expires_at

abbrev IsEnded : ℕ → String → Sessions → Type 0
IsEnded now h t = is_live now (t h) ≡ false

put-IsEnded :
    (now : ℕ) (h g : String) (r : Option Session) (t : Sessions)
    → (is_live now (t g) ≡ false → is_live now r ≡ false)
    → IsEnded now h t
    → IsEnded now h (put g r t)
put-IsEnded now h g r t keeps ended = elim (Bool-cases (str_eq h g)) [
  | inl e ↦ rw e (keeps (ap (λ q. is_live now (t q)) (sym ((eq_iff h g).0 e)) ∙ ended))
  | inr e ↦ rw e ended
]

put-IsEnded_own :
    (now : ℕ) (h : String) (r : Option Session) (t : Sessions)
    → is_live now r ≡ false
    → IsEnded now h (put h r t)
put-IsEnded_own now h r t ended = rw (eq_refl h) ended

unexpired-end :
    (now at : ℕ) (r : Option Session) → is_live now r ≡ false → is_live now (unexpired at r) ≡ false
unexpired-end now at none ended = refl
unexpired-end now at (some s) ended = elim (Bool-cases (ltb s.expires_at at)) [
  | inl e ↦ rw e refl
  | inr e ↦ rw e ended
]

insert-IsEnded :
    (now : ℕ) (h g : String) (s : Session) (taken : Option Session) (t : Sessions)
    → str_eq h g ≡ false
    → IsEnded now h t
    → IsEnded now h (insert g s taken t).0
insert-IsEnded now h g s none t other ended = rw other ended
insert-IsEnded now h g s (some r) t other ended = ended

pub found-same :
    (mode : Mode) (now : ℕ) (h : String) (s : Option Session) (st : State)
    → (found mode now h s st).0.sessions ≡ st.sessions
found-same mode now h none st = refl
found-same none now h (some s) st = refl
found-same (some config) now h (some s) st = refl

pub claimed-same :
    (q : LookedUp) (c : Claim) (st : State) → (claimed q c st).0.sessions ≡ st.sessions
claimed-same q not_due st = refl
claimed-same q (due none) st = refl
claimed-same q (due (some token)) st = refl

claim_row-end :
    (config : OidcConfig) (now at : ℕ) (r : Option Session)
    → is_live now r ≡ false
    → is_live now (claim_row config at r).0 ≡ false
unfolding claim_row
claim_row-end config now at none ended = refl
claim_row-end config now at (some s) ended =
    elim (Bool-cases (ltb (s.checked_at + config.recheck_interval) at)) [
      | inl e ↦ rw e ended
      | inr e ↦ rw e ended
    ]

claim_at-IsEnded :
    (config : OidcConfig) (now at i : ℕ) (h : String) (q : Option Progress) (st : State)
    → IsEnded now h st.sessions
    → IsEnded now h (claim_at config at i q st).0.sessions
claim_at-IsEnded config now at i h none st ended = ended
claim_at-IsEnded config now at i h (some (asked a)) st ended = ended
claim_at-IsEnded config now at i h (some (looked_up q)) st ended =
    let row = (claim_row config at (st.sessions q.hash)).0 in
    let st' : State = record st {
      sessions = put q.hash row st.sessions;
      requests = remove_at i st.requests;
    } in
    subst (IsEnded now h) (sym (claimed-same q (claim_row config at (st.sessions q.hash)).1 st')) (
      put-IsEnded now h q.hash row st.sessions (claim_row-end config now at (st.sessions q.hash))
        ended)

renew-end :
    (now : ℕ) (groups : List String) (token : String) (r : Option Session)
    → is_live now r ≡ false
    → is_live now (renew groups token r) ≡ false
renew-end now groups token none ended = refl
renew-end now groups token (some s) ended = ended

settle-IsEnded :
    (now : ℕ) (h : String) (a : Asked) (v : Option (List String × String)) (st : State)
    → IsEnded now h st.sessions
    → IsEnded now h (settle a v st).0.sessions
settle-IsEnded now h a none st ended = put-IsEnded now h a.hash none st.sessions (λ e. refl) ended
settle-IsEnded now h a (some (groups, token)) st ended =
    put-IsEnded now h a.hash _ st.sessions (renew-end now groups token (st.sessions a.hash)) ended

answer_at-IsEnded :
    (config : OidcConfig) (refresh : String → Option Refreshed) (now i : ℕ) (h : String)
    (q : Option Progress) (st : State)
    → IsEnded now h st.sessions
    → IsEnded now h (answer_at config refresh i q st).0.sessions
answer_at-IsEnded config refresh now i h none st ended = ended
answer_at-IsEnded config refresh now i h (some (looked_up q)) st ended = ended
answer_at-IsEnded config refresh now i h (some (asked a)) st ended =
    settle-IsEnded now h a (verdict config a (refresh a.token)) _ ended

-- The event does not issue a session whose token has the hash `h`.
abbrev pub issues_other : String → Event → Bool
issues_other h (issue g user groups token) = not (str_eq h g)
issues_other h (looks_up g) = true
issues_other h (claims i) = true
issues_other h (answers i refresh) = true
issues_other h (log_out g) = true

step-IsEnded :
    (mode : Mode) (now at : ℕ) (h : String) (e : Event) (st : State)
    → issues_other h e ≡ true
    → IsEnded now h st.sessions
    → IsEnded now h (step mode at e st).0.sessions
unfolding step issue_session load_session claim answer logout
step-IsEnded mode now at h (issue g user groups token) st other ended =
    insert-IsEnded now h g _ (unexpired at (st.sessions g)) (λ q. unexpired at (st.sessions q))
      (ground arith) (unexpired-end now at (st.sessions h) ended)
step-IsEnded mode now at h (looks_up g) st other ended =
    subst (IsEnded now h) (sym (found-same mode at g (live at (st.sessions g)) st)) ended
step-IsEnded none now at h (claims i) st other ended = ended
step-IsEnded (some config) now at h (claims i) st other ended =
    claim_at-IsEnded config now at i h (get_elem? st.requests i) st ended
step-IsEnded none now at h (answers i refresh) st other ended = ended
step-IsEnded (some config) now at h (answers i refresh) st other ended =
    answer_at-IsEnded config refresh now i h (get_elem? st.requests i) st ended
step-IsEnded mode now at h (log_out g) st other ended =
    put-IsEnded now h g none st.sessions (λ e. refl) ended

run-IsEnded :
    (mode : Mode) (now : ℕ) (h : String) (es : List (ℕ × Event)) (st : State)
    → All (λ (e : ℕ × Event). issues_other h e.1 ≡ true) es
    → IsEnded now h st.sessions
    → IsEnded now h (run mode es st).sessions
unfolding run
run-IsEnded mode now h [] st others ended = ended
run-IsEnded mode now h ((at, e) ∷ es) st (other, others) ended =
    run-IsEnded mode now h es (step mode at e st).0 others
      (step-IsEnded mode now at h e st other ended)

found-refused :
    (mode : Mode) (now : ℕ) (g h : String) (r : Option Session) (st : State)
    → (found mode now g r st).1 ≡ refused h
    → (r ≡ none) × (g ≡ h)
found-refused mode now g h none st e = (refl, cc)
found-refused none now g h (some s) st e = absurd cc
found-refused (some config) now g h (some s) st e = absurd cc

live-end : (now : ℕ) (r : Option Session) → live now r ≡ none → is_live now r ≡ false
live-end now none e = refl
live-end now (some s) e = elim (Bool-cases (ltb now s.expires_at)) [
  | inl d ↦ absurd (ground arith)
  | inr d ↦ d
]

claimed-replies :
    (q : LookedUp) (c : Claim) (st : State) (h : String) → (claimed q c st).1 ≡ refused h → ⊥
claimed-replies q not_due st h e = cc
claimed-replies q (due none) st h e = cc
claimed-replies q (due (some token)) st h e = cc

claim_at-replies :
    (config : OidcConfig) (now i : ℕ) (q : Option Progress) (st : State) (h : String)
    → (claim_at config now i q st).1 ≡ refused h
    → ⊥
claim_at-replies config now i none st h e = cc
claim_at-replies config now i (some (asked a)) st h e = cc
claim_at-replies config now i (some (looked_up q)) st h e = claimed-replies q _ _ h e

settle-refused :
    (now : ℕ) (a : Asked) (v : Option (List String × String)) (st : State) (h : String)
    → (settle a v st).1 ≡ refused h
    → IsEnded now h (settle a v st).0.sessions
settle-refused now a none st h e =
    let same : a.hash ≡ h = cc in
    subst (λ q. IsEnded now q (put a.hash none st.sessions)) same
      (put-IsEnded_own now a.hash none st.sessions refl)
settle-refused now a (some (groups, token)) st h e = absurd cc

answer_at-refused :
    (config : OidcConfig) (refresh : String → Option Refreshed) (now i : ℕ) (q : Option Progress)
    (st : State) (h : String)
    → (answer_at config refresh i q st).1 ≡ refused h
    → IsEnded now h (answer_at config refresh i q st).0.sessions
answer_at-refused config refresh now i none st h e = absurd cc
answer_at-refused config refresh now i (some (looked_up q)) st h e = absurd cc
answer_at-refused config refresh now i (some (asked a)) st h e =
    settle-refused now a (verdict config a (refresh a.token)) _ h e

step-refused :
    (mode : Mode) (now : ℕ) (e : Event) (st : State) (h : String)
    → (step mode now e st).1 ≡ refused h
    → IsEnded now h (step mode now e st).0.sessions
unfolding step load_session claim answer
step-refused mode now (issue g user groups token) st h e = absurd cc
step-refused mode now (looks_up g) st h e =
    let (gone, same) = found-refused mode now g h (live now (st.sessions g)) st e in
    subst (IsEnded now h) (sym (found-same mode now g (live now (st.sessions g)) st))
      (subst (λ q. IsEnded now q st.sessions) same (live-end now (st.sessions g) gone))
step-refused none now (claims i) st h e = absurd cc
step-refused (some config) now (claims i) st h e = absurd (claim_at-replies config now i _ st h e)
step-refused none now (answers i refresh) st h e = absurd cc
step-refused (some config) now (answers i refresh) st h e =
    answer_at-refused config refresh now i (get_elem? st.requests i) st h e
step-refused mode now (log_out g) st h e = absurd cc

ended-live :
    (now later : ℕ) (r : Option Session) → now ≤ later → is_live now r ≡ false → live later r ≡ none
ended-live now later none le ended = refl
ended-live now later (some s) le ended =
    let past : ltb later s.expires_at ≡ false = ground arith in rw past refl

ended-refused :
    (mode : Mode) (now later : ℕ) (h : String) (st : State)
    → now ≤ later
    → IsEnded now h st.sessions
    → (step mode later (looks_up h) st).1 ≡ refused h
unfolding step load_session
ended-refused mode now later h st le ended =
    ap (λ r. (found mode later h r st).1) (ended-live now later (st.sessions h) le ended)

logged_out :
    (mode : Mode) (now : ℕ) (h : String) (st : State)
    → IsEnded now h (step mode now (log_out h) st).0.sessions
unfolding step logout
logged_out mode now h st = put-IsEnded_own now h none st.sessions refl

-- A cookie that was refused once, for whatever reason, or that was signed out, is refused for ever: a
-- request that comes later with it is refused at once, whatever signs in, goes on or signs out in
-- between, requests with the cookie that were under way included, unless a session is issued whose
-- token has the same hash. So it is after a sign-out, a re-check that the provider did not affirm, and
-- the session's end.
pub run-refused :
    (mode : Mode) (e : Event) (now later : ℕ) (h : String) (es : List (ℕ × Event))
    (st other : State)
    → All (λ (e : ℕ × Event). issues_other h e.1 ≡ true) es
    → now ≤ later
    → (step mode now e st).1 ≡ refused h
    → ((step mode later (looks_up h) (run mode es (step mode now e st).0)).1 ≡ refused h)
      × ((step mode later (looks_up h) (run mode es (step mode now (log_out h) other).0)).1
          ≡ refused h)
run-refused mode e now later h es st other others le refusal =
    let st' = (step mode now e st).0 in
    let other' = (step mode now (log_out h) other).0 in
    (
      ended-refused mode now later h (run mode es st') le
          (run-IsEnded mode now h es st' others (step-refused mode now e st h refusal)),
      ended-refused mode now later h (run mode es other') le
          (run-IsEnded mode now h es other' others (logged_out mode now h other)),
    )

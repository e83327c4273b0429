-- ===== src/Server/Sessions/Kept.antt =====
-- What every step keeps of a session's row and of its requests, and what a step that serves owes.
use mathlib.Core.Path.{subst}
use mathlib.Core.List.{append_assoc, append-nil}
use text.Mathlib.TextPositions.{eq_refl}
use cuttlefish.Common.{
  All-imp, ℕ, ◌≤◌, ◌++◌, true, false, String, List, [], ◌∷◌, Option, none, some, ltb, str_eq, ◌≡◌,
  refl, ap, sym, ◌∙◌, arith, All, All-append, All-remove_at, All-get_elem?, Bool-cases, inl, inr,
  eq_iff, get_elem?, remove_at,
}
use cuttlefish.Server.Sessions.{
  Session, Sessions, put, Refreshed, Mode, unexpired, insert, issue_session, LookedUp, Asked,
  Progress, looked_up, asked, State, waiting, live, found, load_session, Claim, not_due, due,
  claim_row, claimed, claim_at, claim, verdict, renew, settle, answer_at, answer, logout, Event,
  issue, looks_up, claims, answers, log_out, step, run,
}
use cuttlefish.Server.Sessions.Ended.{issues_other, found-same}
use cuttlefish.Server.Sessions.Affirmed.{
  History, Claimed, Origin, IsBacked, AreRow, IsReading, AskedFrom, IsKnown, AreRow-later,
  IsKnown-later,
}
use cuttlefish.Server.Sessions.Settled.{found-Sound, claim-Sound, renew-AreRow, answered-WasTold}

run-append :
    (mode : Mode) (es more : History) (st : State)
    → run mode (es ++ more) st ≡ run mode more (run mode es st)
unfolding run
run-append mode [] more st = refl
run-append mode ((now, e) ∷ es) more st = run-append mode es more (step mode now e st).0

module _ (signin : Origin) where
  put-AreRow :
      (es : History) (g : String) (r : Option Session) (t : Sessions)
      → (signin.hash ≡ g → AreRow signin es r)
      → AreRow signin es (t signin.hash)
      → AreRow signin es (put g r t signin.hash)
  put-AreRow es g r t own other = elim (Bool-cases (str_eq signin.hash g)) [
    | inl e ↦ rw e (own ((eq_iff signin.hash g).0 e))
    | inr e ↦ rw e other
  ]

  -- What a state keeps, after the events `es`.
  pub record Keeps (es : History) (st : State) : Type 0 where
    pub row : AreRow signin es (st.sessions signin.hash)
    pub known : All (IsKnown signin es) st.requests

  Keeps-later : (es more : History) (st : State) → Keeps es st → Keeps (es ++ more) st
  Keeps-later es more st k = record {
    row = AreRow-later signin es more (st.sessions signin.hash) k.row;
    known = All-imp (IsKnown signin es) _ st.requests (IsKnown-later signin es more) k.known;
  }

  -- The row of `g` changes, and one of the requests goes on.
  Keeps-put :
      (es : History) (e : ℕ × Event) (g : String) (r : Option Session) (i : ℕ) (st : State)
      → Keeps es st
      → (signin.hash ≡ g → AreRow signin (es ++ e ∷ []) r)
      → Keeps
          (es ++ e ∷ [])
          (record { sessions = put g r st.sessions; requests = remove_at i st.requests })
  Keeps-put es e g r i st k own =
      let later = Keeps-later es (e ∷ []) st k in
      record {
        row = put-AreRow (es ++ e ∷ []) g r st.sessions own later.row;
        known = All-remove_at _ i st.requests later.known;
      }

  Keeps-asked :
      (es : History) (q : LookedUp) (c : Claim) (st : State)
      → Keeps es st
      → ((t : String)
          → c ≡ due (some t)
          → q.hash ≡ signin.hash
          → (q.username ≡ signin.user) × AskedFrom signin es t)
      → Keeps es (claimed q c st).0
  Keeps-asked es q not_due st k own = k
  Keeps-asked es q (due none) st k own = k
  Keeps-asked es q (due (some t)) st k own = record {
    row = k.row;
    known = All-append _ st.requests _ k.known (own t refl, tt);
  }

  foreign :
      (es : History) (q : LookedUp) (c : Claim) (now : ℕ) (st : State)
      → (q.hash ≡ signin.hash → ⊥)
      → IsBacked signin es now (claimed q c st)
  foreign es q not_due now st other = λ own. absurd (other own)
  foreign es q (due none) now st other = λ own. absurd (other own)
  foreign es q (due (some t)) now st other = tt

  settle-Keeps :
      (es : History) (now i : ℕ) (a : Asked) (refresh : String → Option Refreshed) (st : State)
      (v : Option (List String × String))
      → signin.at ≤ now
      → Keeps es st
      → get_elem? (run (some signin.config) es signin.start).requests i ≡ some (asked a)
      → (a.hash ≡ signin.hash → (a.username ≡ signin.user) × AskedFrom signin es a.token)
      → verdict signin.config a (refresh a.token) ≡ v
      → Keeps
          (es ++ (now, answers i refresh) ∷ [])
          (settle a v (record st { requests = remove_at i st.requests })).0
        × IsBacked signin
            (es ++ (now, answers i refresh) ∷ [])
            now
            (settle a v (record st { requests = remove_at i st.requests }))
  settle-Keeps es now i a refresh st none le k place same e =
      (Keeps-put es (now, answers i refresh) a.hash none i st k (λ own. tt), tt)
  settle-Keeps es now i a refresh st (some (groups, t)) le k place same e =
      let told = λ (own : a.hash ≡ signin.hash).
        answered-WasTold signin es now st le i a refresh (refresh a.token) groups t place own
          (same own) refl e in
      (
        Keeps-put es (now, answers i refresh) a.hash (renew groups t (st.sessions a.hash)) i st k
            (λ own.
              renew-AreRow signin es now st le ((now, answers i refresh) ∷ []) (st.sessions a.hash)
                groups t (subst (λ g. AreRow signin es (st.sessions g)) own k.row)
                (now, le, told (sym own))),
        λ own. ((same own).0, (now, told own, inl (omega arith))),
      )

  live-alive :
      (now : ℕ) (r : Option Session) (s : Session)
      → live now r ≡ some s
      → ltb now s.expires_at ≡ true
  live-alive now none s e = absurd cc
  live-alive now (some r) s e = elim (Bool-cases (ltb now r.expires_at)) [
    | inl d ↦
        let same : r ≡ s = ground arith in
        subst (λ (x : Session). ltb now x.expires_at ≡ true) same d
    | inr d ↦ absurd (ground arith)
  ]

  live-AreRow :
      (es : History) (now : ℕ) (r : Option Session)
      → AreRow signin es r
      → AreRow signin es (live now r)
  live-AreRow es now none k = tt
  live-AreRow es now (some s) k = elim (Bool-cases (ltb now s.expires_at)) [
    | inl d ↦ rw d k
    | inr d ↦ rw d tt
  ]

  looks_up-Keeps :
      (es : History) (now : ℕ) (g : String) (st : State)
      → signin.at ≤ now
      → Keeps es st
      → Keeps
          (es ++ (now, looks_up g) ∷ [])
          (found (some signin.config) now g (live now (st.sessions g)) st).0
        × IsBacked signin
            (es ++ (now, looks_up g) ∷ [])
            now
            (found (some signin.config) now g (live now (st.sessions g)) st)
  looks_up-Keeps es now g st le k =
      let later = Keeps-later es ((now, looks_up g) ∷ []) st k in
      let r = live now (st.sessions g) in
      let (known, vouched) =
        found-Sound signin es now st le g r
          (λ own.
            live-AreRow es now (st.sessions g)
              (subst (λ x. AreRow signin es (st.sessions x)) (sym own) k.row))
          (live-alive now (st.sessions g)) later.known in
      (
        record {
          row =
              subst (λ t. AreRow signin (es ++ (now, looks_up g) ∷ []) (t signin.hash))
                (sym (found-same (some signin.config) now g r st)) later.row;
          known = known;
        },
        vouched,
      )

  insert-AreRow :
      (es : History) (g : String) (s : Session) (taken : Option Session) (t : Sessions)
      → str_eq signin.hash g ≡ false
      → AreRow signin es (t signin.hash)
      → AreRow signin es ((insert g s taken t).0 signin.hash)
  insert-AreRow es g s none t other k = rw other k
  insert-AreRow es g s (some r) t other k = k

  unexpired-AreRow :
      (es : History) (now : ℕ) (r : Option Session)
      → AreRow signin es r
      → AreRow signin es (unexpired now r)
  unexpired-AreRow es now none k = tt
  unexpired-AreRow es now (some s) k = elim (Bool-cases (ltb s.expires_at now)) [
    | inl d ↦ rw d tt
    | inr d ↦ rw d k
  ]

  -- The claim of a request of another session, and of one of this session.
  claims_other-Keeps :
      (es : History) (now i : ℕ) (q : LookedUp) (st : State)
      → Keeps es st
      → (q.hash ≡ signin.hash → ⊥)
      → Keeps (es ++ (now, claims i) ∷ []) (claim_at signin.config now i (some (looked_up q)) st).0
        × IsBacked signin
            (es ++ (now, claims i) ∷ [])
            now
            (claim_at signin.config now i (some (looked_up q)) st)
  claims_other-Keeps es now i q st k other =
      let c = claim_row signin.config now (st.sessions q.hash) in
      let st' : State = record {
        sessions = put q.hash c.0 st.sessions;
        requests = remove_at i st.requests;
      } in
      let kept = Keeps-put es (now, claims i) q.hash c.0 i st k (λ own. absurd (other (sym own))) in
      (Keeps-asked _ q c.1 st' kept (λ t e own. absurd (other own)), foreign _ q c.1 now st' other)

  put-same :
      (g : String) (r : Option Session) (t : Sessions) → signin.hash ≡ g → put g r t signin.hash ≡ r
  put-same g r t own = rw own (rw (eq_refl g) refl)

  step-won :
      (now i : ℕ) (q : LookedUp) (t : String) (st : State)
      → get_elem? st.requests i ≡ some (looked_up q)
      → (claim_row signin.config now (st.sessions q.hash)).1 ≡ due (some t)
      → (step (some signin.config) now (claims i) st).1 ≡ waiting
  unfolding step claim
  step-won now i q t st place e =
      let st' : State = record {
        sessions = put q.hash (claim_row signin.config now (st.sessions q.hash)).0 st.sessions;
        requests = remove_at i st.requests;
      } in
      ap (λ o. (claim_at signin.config now i o st).1) place ∙ ap (λ c. (claimed q c st').1) e

  claims_own-Keeps :
      (es : History) (now i : ℕ) (q : LookedUp)
      → signin.at ≤ now
      → Keeps es (run (some signin.config) es signin.start)
      → get_elem? (run (some signin.config) es signin.start).requests i ≡ some (looked_up q)
      → q.hash ≡ signin.hash
      → Keeps
          (es ++ (now, claims i) ∷ [])
          (claim_at signin.config now i
            (some (looked_up q))
            (run (some signin.config) es signin.start)).0
        × IsBacked signin (es ++ (now, claims i) ∷ []) now (
            claim_at signin.config now i
              (some (looked_up q))
              (run (some signin.config) es signin.start))
  claims_own-Keeps es now i q le k place own =
      let st = run (some signin.config) es signin.start in
      let c = claim_row signin.config now (st.sessions q.hash) in
      let st' : State = record {
        sessions = put q.hash c.0 st.sessions;
        requests = remove_at i st.requests;
      } in
      let reading : IsReading signin es q =
        All-get_elem? (IsKnown signin es) i st.requests k.known place own in
      let row = subst (λ g. AreRow signin es (st.sessions g)) (sym own) k.row in
      let wins : (t : String)
          → c.1 ≡ due (some t)
          → Claimed signin.config signin.start signin.hash now (es ++ (now, claims i) ∷ []) =
        λ t e. record {
          before = es;
          place = i;
          rest = [];
          split = refl;
          request = q;
          under_way = place;
          own = own;
          token = t;
          is_due = ap (λ g. (claim_row signin.config now (st.sessions g)).1) (sym own) ∙ e;
          won = step-won now i q t st place e;
        } in
      let (kept, vouched) =
        claim-Sound signin es now st le i q (st.sessions q.hash) st' reading row wins
          (put-same q.hash c.0 st.sessions (sym own)) in
      (
        Keeps-asked _ q c.1 st' (Keeps-put es (now, claims i) q.hash c.0 i st k (λ e. kept))
            (λ t e own. (reading.same, (now, wins t e, refl))),
        vouched,
      )

  claims-Keeps :
      (es : History) (now i : ℕ) (o : Option Progress)
      → signin.at ≤ now
      → Keeps es (run (some signin.config) es signin.start)
      → get_elem? (run (some signin.config) es signin.start).requests i ≡ o
      → Keeps
          (es ++ (now, claims i) ∷ [])
          (claim_at signin.config now i o (run (some signin.config) es signin.start)).0
        × IsBacked signin
            (es ++ (now, claims i) ∷ [])
            now
            (claim_at signin.config now i o (run (some signin.config) es signin.start))
  claims-Keeps es now i none le k place = (Keeps-later es _ _ k, tt)
  claims-Keeps es now i (some (asked a)) le k place = (Keeps-later es _ _ k, tt)
  claims-Keeps es now i (some (looked_up q)) le k place =
      elim (Bool-cases (str_eq q.hash signin.hash)) [
        | inl e ↦ claims_own-Keeps es now i q le k place ((eq_iff q.hash signin.hash).0 e)
        | inr e ↦ claims_other-Keeps es now i q _ k (λ own.
            absurd (ground (arith, e, ap (λ x. str_eq x signin.hash) own, eq_refl signin.hash)))
      ]

  answers-Keeps :
      (es : History) (now i : ℕ) (refresh : String → Option Refreshed) (o : Option Progress)
      → signin.at ≤ now
      → Keeps es (run (some signin.config) es signin.start)
      → get_elem? (run (some signin.config) es signin.start).requests i ≡ o
      → Keeps
          (es ++ (now, answers i refresh) ∷ [])
          (answer_at signin.config refresh i o (run (some signin.config) es signin.start)).0
        × IsBacked signin
            (es ++ (now, answers i refresh) ∷ [])
            now
            (answer_at signin.config refresh i o (run (some signin.config) es signin.start))
  answers-Keeps es now i refresh none le k place = (Keeps-later es _ _ k, tt)
  answers-Keeps es now i refresh (some (looked_up q)) le k place = (Keeps-later es _ _ k, tt)
  answers-Keeps es now i refresh (some (asked a)) le k place =
      let st = run (some signin.config) es signin.start in
      settle-Keeps es now i a refresh st (verdict signin.config a (refresh a.token)) le k place
        (All-get_elem? (IsKnown signin es) i st.requests k.known place) refl

  pub step-Keeps :
      (es : History) (now : ℕ) (e : Event)
      → signin.at ≤ now
      → issues_other signin.hash e ≡ true
      → Keeps es (run (some signin.config) es signin.start)
      → Keeps
          (es ++ (now, e) ∷ [])
          (step (some signin.config) now e (run (some signin.config) es signin.start)).0
        × IsBacked signin
            (es ++ (now, e) ∷ [])
            now
            (step (some signin.config) now e (run (some signin.config) es signin.start))
  unfolding step issue_session load_session claim answer logout
  step-Keeps es now (issue g u groups t) le other k =
      let st = run (some signin.config) es signin.start in
      let later = Keeps-later es ((now, issue g u groups t) ∷ []) st k in
      let kept : Sessions = λ x. unexpired now (st.sessions x) in
      (
        record {
          row =
              insert-AreRow _ g _ (kept g) kept (ground arith)
                (unexpired-AreRow _ now (st.sessions signin.hash) later.row);
          known = later.known;
        },
        tt,
      )
  step-Keeps es now (looks_up g) le other k = looks_up-Keeps es now g _ le k
  step-Keeps es now (claims i) le other k = claims-Keeps es now i _ le k refl
  step-Keeps es now (answers i refresh) le other k = answers-Keeps es now i refresh _ le k refl
  step-Keeps es now (log_out g) le other k =
      let st = run (some signin.config) es signin.start in
      let later = Keeps-later es ((now, log_out g) ∷ []) st k in
      (
        record { row = put-AreRow _ g none st.sessions (λ own. tt) later.row; known = later.known },
        tt,
      )

  pub run-Keeps :
      (before es : History)
      → All (λ (e : ℕ × Event). (signin.at ≤ e.0) × (issues_other signin.hash e.1 ≡ true)) es
      → Keeps before (run (some signin.config) before signin.start)
      → Keeps (before ++ es) (run (some signin.config) (before ++ es) signin.start)
  unfolding run
  run-Keeps before [] others k =
      subst (λ l. Keeps l (run (some signin.config) l signin.start)) (sym (append-nil before)) k
  run-Keeps before ((now, e) ∷ es) ((le, other), others) k =
      let (kept, vouched) = step-Keeps before now e le other k in
      let next : History = before ++ (now, e) ∷ [] in
      subst (λ l. Keeps l (run (some signin.config) l signin.start))
        (append_assoc before ((now, e) ∷ []) es)
        (run-Keeps next es others (
          subst (Keeps next)
            (sym (run-append (some signin.config) before ((now, e) ∷ []) signin.start)) kept))

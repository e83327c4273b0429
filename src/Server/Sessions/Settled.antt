-- ===== src/Server/Sessions/Settled.antt =====
-- What each step of a request of a session keeps: the look-up, the claim of a re-check, and the answer.
use cuttlefish.Common.{
  ℕ, ◌+◌, ◌≤◌, ◌++◌, true, String, List, [], ◌∷◌, Option, none, some, ltb, str_eq, ◌≡◌, refl, ap,
  sym, ◌∙◌, arith, All, All-append, Bool-cases, ◌⊎◌, inl, inr, eq_iff, get_elem?,
}
use cuttlefish.Server.Claims.{identity_from_claims, identity_allowed}
use cuttlefish.Server.Sessions.{
  Session, Refreshed, LookedUp, Asked, asked, State, found, due, claim_row, claimed, verdict, renew,
  looks_up, claims, answers, run,
}
use cuttlefish.Server.Sessions.Affirmed.{
  History, Claimed, Origin, Affirmed, IsBacked, tokenless, ends_by, WasTold, IsRow, AreRow,
  IsReading, AskedFrom, IsKnown, WasTold-later, clock-later, AreRow-later, IsReading-later, early,
  in_time, row_token,
}

module _ (signin : Origin) where
  module _ (es : History) (now : ℕ) (st : State) (since_issue : signin.at ≤ now) where
    pub found-Sound :
        (g : String) (o : Option Session)
        → (g ≡ signin.hash → AreRow signin es o)
        → ((s : Session) → o ≡ some s → ltb now s.expires_at ≡ true)
        → All (IsKnown signin (es ++ (now, looks_up g) ∷ [])) st.requests
        → All
            (IsKnown signin (es ++ (now, looks_up g) ∷ []))
            (found (some signin.config) now g o st).0.requests
          × IsBacked signin
              (es ++ (now, looks_up g) ∷ [])
              now
              (found (some signin.config) now g o st)
    found-Sound g none k lives known = (known, tt)
    found-Sound g (some s) k lives known = (All-append _ st.requests _ known (read, tt), tt)
      where
        read :
            g ≡ signin.hash
            → IsReading signin
                (es ++ (now, looks_up g) ∷ [])
                (record { hash = g; username = s.username; groups = s.groups; since = now })
        read own =
            let row : IsRow signin es s = k own in
            let alive : ltb now s.expires_at ≡ true = lives s refl in
            let short : ends_by signin s.expires_at ≡ true = row.short in
            record {
              same = row.same;
              told = WasTold-later signin es _ s.groups row.told;
              short = ground (arith, short, alive);
            }

    pub reclaimed :
        (more : History) (s : Session)
        → IsRow signin es s
        → Claimed signin.config signin.start signin.hash now (es ++ more)
          ⊎ (tokenless signin ≡ true)
        → IsRow signin (es ++ more) (record s { checked_at = now })
    reclaimed more s row c = record {
      same = row.same;
      told = WasTold-later signin es more s.groups row.told;
      clock = inr c;
      keeps = row.keeps;
      short = row.short;
    }

    -- The request at the place `i` tries the claim.
    module _ (i : ℕ) (q : LookedUp) where
      abbrev tried : History
      tried = es ++ (now, claims i) ∷ []

      due-Sound :
          (s : Session) (o : Option String) (st' : State)
          → s.refresh_token ≡ o
          → IsReading signin es q
          → IsRow signin es s
          → ((t : String) → o ≡ some t → Claimed signin.config signin.start signin.hash now tried)
          → IsRow signin tried (record s { checked_at = now })
            × IsBacked signin tried now (claimed q (due o) st')
      due-Sound s none st' e k row won =
          let bare = row_token signin es s e row in
          (
            reclaimed _ s row (inr bare),
            (λ own. (k.same, early signin tried q now st' bare (IsReading-later signin es _ q k))),
          )
      due-Sound s (some t) st' e k row won = (reclaimed _ s row (inl (won t refl)), tt)

      pub claim-Sound :
          (r : Option Session) (st' : State)
          → IsReading signin es q
          → AreRow signin es r
          → ((t : String)
              → (claim_row signin.config now r).1 ≡ due (some t)
              → Claimed signin.config signin.start signin.hash now tried)
          → st'.sessions signin.hash ≡ (claim_row signin.config now r).0
          → AreRow signin tried (claim_row signin.config now r).0
            × IsBacked signin tried now (claimed q (claim_row signin.config now r).1 st')
      unfolding claim_row
      claim-Sound none st' k row won e =
          let (when, le, told) = WasTold-later signin es _ q.groups k.told in
          (tt, (λ own. (k.same, (when, told, inr (inr (inr e))))))
      claim-Sound (some s) st' k row won e =
          elim (Bool-cases (ltb (s.checked_at + signin.config.recheck_interval) now)) [
            | inr fresh ↦
                let le : now ≤ s.checked_at + signin.config.recheck_interval = ground arith in
                rw fresh (
                  AreRow-later signin es _ (some s) row,
                  λ own. (
                    k.same,
                    in_time signin tried q s.checked_at now st'
                        (clock-later signin es _ s.checked_at row.clock)
                        (IsReading-later signin es _ q k) le,
                  ),
                )
            | inl late ↦
                let wins =
                  λ (t : String) (has : s.refresh_token ≡ some t). won t (rw late (ap due has)) in
                rw late (due-Sound s s.refresh_token st' refl k row wins)
          ]

    settled-IsRow :
        (more : History) (s : Session) (groups : List String) (t : String)
        → IsRow signin es s
        → WasTold signin (es ++ more) groups
        → IsRow signin (es ++ more) (record s { groups = groups; refresh_token = some t })
    settled-IsRow more s groups t row told = record {
      same = row.same;
      told = told;
      clock = clock-later signin es more s.checked_at row.clock;
      keeps = ground arith;
      short = row.short;
    }

    pub renew-AreRow :
        (more : History) (r : Option Session) (groups : List String) (t : String)
        → AreRow signin es r
        → WasTold signin (es ++ more) groups
        → AreRow signin (es ++ more) (renew groups t r)
    renew-AreRow more none groups t row told = tt
    renew-AreRow more (some s) groups t row told = settled-IsRow more s groups t row told

    -- The request at the place `i` gets the provider's answer.
    module _ (i : ℕ) (a : Asked) (refresh : String → Option Refreshed) where
      abbrev heard : History
      heard = es ++ (now, answers i refresh) ∷ []

      pub answered-WasTold :
          (o : Option Refreshed) (groups : List String) (t : String)
          → get_elem? (run (some signin.config) es signin.start).requests i ≡ some (asked a)
          → a.hash ≡ signin.hash
          → (a.username ≡ signin.user) × AskedFrom signin es a.token
          → refresh a.token ≡ o
          → verdict signin.config a o ≡ some (groups, t)
          → Affirmed signin heard groups now
      unfolding verdict
      answered-WasTold none groups t place own (same, from) said e = absurd (ground arith)
      answered-WasTold (some r) groups t place own (same, (c, from, token)) said e =
          let email = (identity_from_claims signin.config r.claims).email in
          let says = (identity_from_claims signin.config r.claims).user in
          let is_same : str_eq says a.username ≡ true = ground arith in
          let is_user : says ≡ a.username = (eq_iff says a.username).0 is_same in
          let may : identity_allowed signin.config says email ≡ true = ground arith in
          inr (record {
            before = es;
            place = i;
            refresh = refresh;
            rest = [];
            split = refl;
            request = a;
            under_way = place;
            own = own;
            asked_at = c;
            claim = from;
            own_token = token;
            said = r;
            answer = said;
            same_user = is_user ∙ same;
            same_groups = ground arith;
            is_allowed =
                ap (λ n. identity_allowed signin.config n email) (sym (is_user ∙ same)) ∙ may;
          })

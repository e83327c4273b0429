-- ===== src/Server/Sessions/Affirmed.antt =====
-- What the identity provider has said of the user of a session, and when.
use mathlib.Core.List.{append_assoc}
use cuttlefish.Common.{
  ℕ, ◌+◌, ◌≤◌, ◌++◌, ◌||◌, Bool, true, false, not, String, List, ◌∷◌, Option, none, some, leb,
  str_eq, ◌≡◌, refl, ap, ◌∙◌, arith, ◌⊎◌, inl, inr, get_elem?,
}
use cuttlefish.Server.Claims.{OidcConfig, identity_from_claims, identity_allowed}
use cuttlefish.Server.Sessions.{
  Session, Refreshed, LookedUp, Asked, Progress, looked_up, asked, State, Reply, served, refused,
  waiting, done, due, claim_row, Event, claims, answers, step, run,
}

abbrev pub History : Type 0
History = List (ℕ × Event)

-- At the time `when` a request of the session won the claim of its re-check: the session's
-- row was due, and the claim gave the row's refresh token, with which the request went on to ask.
pub record Claimed (config : OidcConfig) (start : State) (h : String) (when : ℕ) (es : History)
    : Type 0 where
  pub before : History
  pub place : ℕ
  pub rest : History
  pub split : es ≡ before ++ (when, claims place) ∷ rest
  pub request : LookedUp
  pub under_way :
      get_elem? (run (some config) before start).requests place ≡ some (looked_up request)
  pub own : request.hash ≡ h
  pub token : String
  pub is_due :
      (claim_row config when ((run (some config) before start).sessions h)).1 ≡ due (some token)
  pub won : (step (some config) when (claims place) (run (some config) before start)).1 ≡ waiting

-- At the time `when` an answer of the provider reached a request of the session, which had asked with
-- the refresh token that an earlier claim found in the session's row: the user and the groups that it says,
-- and who may sign in.
pub record Answered (config : OidcConfig) (start : State) (h user : String) (groups : List String)
    (when : ℕ) (es : History) : Type 0 where
  pub before : History
  pub place : ℕ
  pub refresh : String → Option Refreshed
  pub rest : History
  pub split : es ≡ before ++ (when, answers place refresh) ∷ rest
  pub request : Asked
  pub under_way : get_elem? (run (some config) before start).requests place ≡ some (asked request)
  pub own : request.hash ≡ h
  pub asked_at : ℕ
  pub claim : Claimed config start h asked_at before
  pub own_token : claim.token ≡ request.token
  pub said : Refreshed
  pub answer : refresh request.token ≡ some said
  pub same_user : (identity_from_claims config said.claims).user ≡ user
  pub same_groups : (identity_from_claims config said.claims).groups ≡ groups
  pub is_allowed :
      identity_allowed config user (identity_from_claims config said.claims).email ≡ true

abbrev pub has_token : Option String → Bool
has_token none = false
has_token (some token) = true

-- The session of the hash `hash` as it was issued, at `at`, to `user` with the groups `issued`, in the
-- state `start`; the events that are spoken of came after.
pub record Origin : Type 0 where
  pub config : OidcConfig
  pub start : State
  pub hash : String
  pub user : String
  pub token : String
  pub issued : List String
  pub at : ℕ

module _ (signin : Origin) where
  -- The provider said so at its sign-in or in a re-check.
  abbrev pub Affirmed : History → List String → ℕ → Type 0
  Affirmed es groups when =
      ((when ≡ signin.at) × (groups ≡ signin.issued))
      ⊎ Answered signin.config signin.start signin.hash signin.user groups when es

  -- The groups were affirmed at some time: at most one interval before the request came or is served, or
  -- else another claim of the re-check was made at most one interval before, or the session ended.
  abbrev pub Backed : History → ℕ → ℕ → State → List String → Type 0
  Backed es since now st groups =
      (when : ℕ) × Affirmed es groups when
      × ((now ≤ when + signin.config.recheck_interval)
          ⊎ (since ≤ when + signin.config.recheck_interval)
          ⊎ ((c : ℕ) × (now ≤ c + signin.config.recheck_interval)
              × Claimed signin.config signin.start signin.hash c es)
          ⊎ (st.sessions signin.hash ≡ none))

  abbrev pub IsBacked : History → ℕ → State × Reply → Type 0
  IsBacked es now (st, served g u groups since) =
      g ≡ signin.hash → (u ≡ signin.user) × Backed es since now st groups
  IsBacked es now (st, refused g) = Unit
  IsBacked es now (st, waiting) = Unit
  IsBacked es now (st, done) = Unit

  abbrev pub tokenless : Bool
  tokenless = str_eq signin.token ""

  abbrev pub ends_by : ℕ → Bool
  ends_by t = not tokenless || leb t (signin.at + signin.config.recheck_interval)

  abbrev pub WasTold : History → List String → Type 0
  WasTold es groups = (when : ℕ) × (signin.at ≤ when) × Affirmed es groups when

  pub record IsRow (es : History) (s : Session) : Type 0 where
    pub same : s.username ≡ signin.user
    pub told : WasTold es s.groups
    pub clock :
        (s.checked_at ≡ signin.at)
        ⊎ Claimed signin.config signin.start signin.hash s.checked_at es
        ⊎ (tokenless ≡ true)
    pub keeps : (tokenless || has_token s.refresh_token) ≡ true
    pub short : ends_by s.expires_at ≡ true

  abbrev pub AreRow : History → Option Session → Type 0
  AreRow es none = Unit
  AreRow es (some s) = IsRow es s

  pub record IsReading (es : History) (q : LookedUp) : Type 0 where
    pub same : q.username ≡ signin.user
    pub told : WasTold es q.groups
    pub short : ends_by q.since ≡ true

  -- A claim gave the request this refresh token.
  abbrev pub AskedFrom : History → String → Type 0
  AskedFrom es t =
      (c : ℕ) × (k : Claimed signin.config signin.start signin.hash c es) × (k.token ≡ t)

  abbrev pub IsKnown : History → Progress → Type 0
  IsKnown es (looked_up q) = q.hash ≡ signin.hash → IsReading es q
  IsKnown es (asked a) = a.hash ≡ signin.hash → (a.username ≡ signin.user) × AskedFrom es a.token

  Affirmed-later :
      (es more : History) (groups : List String) (when : ℕ)
      → Affirmed es groups when
      → Affirmed (es ++ more) groups when
  Affirmed-later es more groups when (inl first) = inl first
  Affirmed-later es more groups when (inr a) = inr (record {
    before = a.before;
    place = a.place;
    refresh = a.refresh;
    rest = a.rest ++ more;
    split = ap (λ l. l ++ more) a.split ∙ append_assoc a.before _ more;
    request = a.request;
    under_way = a.under_way;
    own = a.own;
    asked_at = a.asked_at;
    claim = a.claim;
    own_token = a.own_token;
    said = a.said;
    answer = a.answer;
    same_user = a.same_user;
    same_groups = a.same_groups;
    is_allowed = a.is_allowed;
  })

  Claimed-later :
      (es more : History) (when : ℕ) (c : Claimed signin.config signin.start signin.hash when es)
      → (k : Claimed signin.config signin.start signin.hash when (es ++ more)) × (k.token ≡ c.token)
  Claimed-later es more when c = (
    record {
      before = c.before;
      place = c.place;
      rest = c.rest ++ more;
      split = ap (λ l. l ++ more) c.split ∙ append_assoc c.before _ more;
      request = c.request;
      under_way = c.under_way;
      own = c.own;
      token = c.token;
      is_due = c.is_due;
      won = c.won;
    },
    refl,
  )

  pub WasTold-later :
      (es more : History) (groups : List String) → WasTold es groups → WasTold (es ++ more) groups
  WasTold-later es more groups (when, le, a) = (when, le, Affirmed-later es more groups when a)

  pub clock-later :
      (es more : History) (c : ℕ)
      → (c ≡ signin.at) ⊎ Claimed signin.config signin.start signin.hash c es ⊎ (tokenless ≡ true)
      → (c ≡ signin.at)
        ⊎ Claimed signin.config signin.start signin.hash c (es ++ more)
        ⊎ (tokenless ≡ true)
  clock-later es more c (inl e) = inl e
  clock-later es more c (inr (inl k)) = inr (inl (Claimed-later es more c k).0)
  clock-later es more c (inr (inr e)) = inr (inr e)

  pub AreRow-later : (es more : History) (r : Option Session) → AreRow es r → AreRow (es ++ more) r
  AreRow-later es more none k = tt
  AreRow-later es more (some s) k = record {
    same = k.same;
    told = WasTold-later es more s.groups k.told;
    clock = clock-later es more s.checked_at k.clock;
    keeps = k.keeps;
    short = k.short;
  }

  pub IsReading-later :
      (es more : History) (q : LookedUp) → IsReading es q → IsReading (es ++ more) q
  IsReading-later es more q k = record {
    same = k.same;
    told = WasTold-later es more q.groups k.told;
    short = k.short;
  }

  pub IsKnown-later : (es more : History) (p : Progress) → IsKnown es p → IsKnown (es ++ more) p
  IsKnown-later es more (looked_up q) k = λ e. IsReading-later es more q (k e)
  IsKnown-later es more (asked a) k = λ e.
      let (same, (c, from, token)) = k e in
      let (from', token') = Claimed-later es more c from in (same, (c, from', token' ∙ token))

  -- A reading of a session without a token, or one that is served in time.
  pub early :
      (es : History) (q : LookedUp) (now : ℕ) (st : State)
      → tokenless ≡ true
      → IsReading es q
      → Backed es q.since now st q.groups
  early es q now st e k =
      let (when, le, told) = k.told in
      let short : leb q.since (signin.at + signin.config.recheck_interval) ≡ true =
        ground (arith, k.short) in
      (when, told, inr (inl (ground (arith, short, le))))

  -- The row was not due at `now`.
  pub in_time :
      (es : History) (q : LookedUp) (c now : ℕ) (st : State)
      → (c ≡ signin.at) ⊎ Claimed signin.config signin.start signin.hash c es ⊎ (tokenless ≡ true)
      → IsReading es q
      → now ≤ c + signin.config.recheck_interval
      → Backed es q.since now st q.groups
  in_time es q c now st (inl e) k le =
      let (when, later, told) = k.told in (when, told, inl (omega (arith, e, later, le)))
  in_time es q c now st (inr (inl won)) k le =
      let (when, later, told) = k.told in (when, told, inr (inr (inl (c, le, won))))
  in_time es q c now st (inr (inr e)) k le = early es q now st e k

  pub row_token :
      (es : History) (s : Session) → s.refresh_token ≡ none → IsRow es s → tokenless ≡ true
  row_token es s e k = ground (arith, k.keeps, ap has_token e)

-- ===== src/Server/Tests/SignIns.antt =====
-- Sign-ins and sessions at concrete times, and the theorems there.
use cuttlefish.Common.{
  ℕ, ◌++◌, true, false, String, List, [], ◌∷◌, Option, none, some, filter, str_eq, if◌then◌else◌,
  ◌≡◌, refl, arith,
}
use cuttlefish.Common.Text.{includes}
use cuttlefish.Server.Login.{
  LocalAccount, Attempt, issue_for, handle_local_login, attempts, login_allowed, login_failed,
  login_succeeded,
}
use cuttlefish.Server.Login.Lockout.{IsWrong, from_ip, too_many, no_records, attempts-lock}
use cuttlefish.Server.Claims.{
  Claims, text, array, OidcConfig, identity_from_claims, domain_of, identity_allowed,
}
use cuttlefish.Server.Sessions.{
  Refreshed, State, Event, served, refused, issue_session, load_session, claim_row, claim, verdict,
  answer, issue, looks_up, claims, answers, log_out, step, run,
}
use cuttlefish.Server.Sessions.Ended.{run-refused}
use cuttlefish.Server.Sessions.Vouched.{begun}

abbrev account : String → LocalAccount
account password = record { username = "root"; password = password }

abbrev attempt : String → ℕ → String → Attempt
attempt ip at password = record { ip = ip; at = at; body = some (account password) }

abbrev guess : ℕ → Attempt
guess at = attempt "10.0.0.1" at "guess"

abbrev guesses : List Attempt
guesses = guess 2 ∷ guess 3 ∷ guess 4 ∷ guess 5 ∷ guess 6 ∷ guess 7 ∷ guess 8 ∷ guess 9 ∷ []

abbrev right : String → ℕ → Attempt
right ip at = attempt ip at "secret"

abbrev flood : List Attempt
flood = right "10.0.0.2" 1 ∷ guess 1 ∷ guesses ++ attempt "10.0.0.2" 9 "typo" ∷ guess 10 ∷ []

guessed : (at : ℕ) → IsWrong (account "secret") (guess at)
guessed at = (account "guess", refl, refl)

-- Locked out for 900 seconds from the tenth guess, at the time 10; and then not.
unlocked :
    ((handle_local_login
        (account "secret")
        (right "10.0.0.1" 911)
        (attempts (account "secret") flood no_records)).1
      ≡ issue_for "root")
unfolding handle_local_login attempts login_allowed login_failed login_succeeded
unlocked = refl

attempts-lock_example :
    (handle_local_login
        (account "secret")
        (right "10.0.0.1" 910)
        (attempts (account "secret") flood no_records)
      ≡ (attempts (account "secret") flood no_records, too_many))
    × ((handle_local_login
          (account "secret")
          (right "10.0.0.1" 910)
          (attempts (account "secret") guesses no_records)).1
        ≡ (handle_local_login
            (account "secret")
            (right "10.0.0.1" 910)
            (attempts (account "secret") (filter (from_ip "10.0.0.1") guesses) no_records)).1)
attempts-lock_example =
    attempts-lock (account "secret") flood (guess 1) guesses (guess 10) (right "10.0.0.1" 910)
      guesses refl refl
      (
        guessed 1,
        (
          guessed 2,
          (
            guessed 3,
            (
              guessed 4,
              (guessed 5, (guessed 6, (guessed 7, (guessed 8, (guessed 9, (guessed 10, tt)))))),
            ),
          ),
        ),
      )
      (omega arith)

abbrev pub oidc : OidcConfig
oidc = record {
  username_claim = "";
  groups_claim = "groups";
  allowed_users = [];
  allowed_domains = "corp.com" ∷ [];
  recheck_interval = 10;
}

abbrev pub claims_of_id : Claims
claims_of_id name =
    if str_eq name "email"
    then some (text "joshua@corp.com")
    else if str_eq name "groups"
    then some (array (some "staff" ∷ none ∷ []))
    else none

-- The claims of access_test.go: an array with something that is no text.
claimed_groups : (identity_from_claims oidc claims_of_id).groups ≡ "staff" ∷ []
unfolding identity_from_claims
claimed_groups = refl

domains :
    (identity_allowed oidc "u" "a@x@corp.com" ≡ true)
    × (identity_allowed oidc "u" "a@corp.com@x" ≡ false)
    × (identity_allowed oidc "u" "corp.com" ≡ false)
unfolding identity_allowed domain_of includes
domains = (refl, refl, refl)

abbrev pub affirms : String → Option Refreshed
affirms token = some (record { claims = claims_of_id; refresh_token = "" })

abbrev silent : String → Option Refreshed
silent token = none

abbrev joshua : String
joshua = "joshua@corp.com"

abbrev pub nothing : State
nothing = record { sessions = λ h. none; requests = [] }

abbrev pub signed_in : State
signed_in = begun oidc "cookie" joshua "refresh" ("admins" ∷ []) 0 nothing

-- Two requests at 20 look the session up; the first wins the claim.
abbrev pub two_requests : List (ℕ × Event)
two_requests = (20, looks_up "cookie") ∷ (20, looks_up "cookie") ∷ (20, claims 0) ∷ []

abbrev both : State
both = run (some oidc) two_requests signed_in

-- The loser goes on with the stored groups.
loser : (step (some oidc) 20 (claims 0) both).1 ≡ served "cookie" joshua ("admins" ∷ []) 20
unfolding run step issue_session load_session claim_row claim
loser = refl

unanswered : (step (some oidc) 21 (answers 1 silent) both).1 ≡ refused "cookie"
unfolding run step issue_session load_session claim_row claim answer verdict identity_from_claims
    identity_allowed
unanswered = refl

-- The loser of the claim is still under way, and is served; no later request is.
abbrev others : List (ℕ × Event)
others = (22, claims 0) ∷ (25, issue "another" joshua [] "") ∷ (26, log_out "another") ∷ []

run-refused_example :
    ((step
        (some oidc)
        30
        (looks_up "cookie")
        (run (some oidc) others (step (some oidc) 21 (answers 1 silent) both).0)).1
      ≡ refused "cookie")
    × ((step
          (some oidc)
          30
          (looks_up "cookie")
          (run (some oidc) others (step (some oidc) 21 (log_out "cookie") both).0)).1
        ≡ refused "cookie")
run-refused_example =
    run-refused (some oidc) (answers 1 silent) 21 30 "cookie" others both both
      (refl, (refl, (refl, tt))) (omega arith) unanswered

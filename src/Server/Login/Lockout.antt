-- ===== src/Server/Login/Lockout.antt =====
-- One address is locked out after ten failed attempts, and others never by them.
use mathlib.Core.Path.{subst}
use text.Mathlib.TextPositions.{eq_refl}
use cuttlefish.Common.{
  ℕ, suc, ◌+◌, ◌++◌, ◌≤◌, Bool, false, String, List, [], ◌∷◌, Option, none, some, filter, length,
  ◌≡◌, refl, ap, sym, ◌∙◌, arith, str_eq, eq_iff, if◌then◌else◌, All, filter-all, filter-eq_self,
  Bool-cases, inl, inr,
}
use cuttlefish.Server.Login.{
  login_max_attempts, login_lock_duration, IpRecord, LoginRecords, put, record_allows,
  count_failure, or_new, login_allowed, login_failed, login_succeeded, LocalAccount, Attempt, Reply,
  refused, issue_for, is_account, check_body, handle_local_login, attempts,
}

abbrev pub from_ip : String → Attempt → Bool
from_ip ip a = str_eq a.ip ip

-- A step, as it changes the record of its own address, and its reply.
abbrev own_check : LocalAccount → Attempt → Option LocalAccount → Option IpRecord → Option IpRecord
own_check want a none r = r
own_check want a (some got) r =
    if is_account want got then none else some (count_failure a.at (or_new r))

abbrev own_step : LocalAccount → Attempt → Option IpRecord → Option IpRecord
own_step want a r = if record_allows a.at r then own_check want a a.body r else r

abbrev own_steps : LocalAccount → List Attempt → Option IpRecord → Option IpRecord
own_steps want [] r = r
own_steps want (a ∷ rest) r = own_steps want rest (own_step want a r)

abbrev pub too_many : Reply
too_many = refused 429 "too many failed attempts, try again later"

abbrev body_reply : LocalAccount → Option LocalAccount → Reply
body_reply want none = refused 400 "invalid request body"
body_reply want (some got) =
    if is_account want got then issue_for got.username else refused 401 "invalid credentials"

abbrev own_reply : LocalAccount → Attempt → Option IpRecord → Reply
own_reply want a r = if record_allows a.at r then body_reply want a.body else too_many

put_own : (ip : String) (r : Option IpRecord) (records : LoginRecords) → put ip r records ip ≡ r
put_own ip r records = rw (eq_refl ip) refl

put_other :
    (ip other : String) (r : Option IpRecord) (records : LoginRecords)
    → str_eq ip other ≡ false
    → put ip r records other ≡ records other
put_other ip other r records n = elim (Bool-cases (str_eq other ip)) [
  | inl e ↦
      let same = (eq_iff other ip).0 e in
      absurd (ground (arith, ap (λ t. str_eq ip t) same, eq_refl ip))
  | inr e ↦ rw e refl
]

check_body-own :
    (want : LocalAccount) (a : Attempt) (body : Option LocalAccount) (records : LoginRecords)
    → ((check_body want a body records).0 a.ip ≡ own_check want a body (records a.ip))
      × ((check_body want a body records).1 ≡ body_reply want body)
unfolding login_failed login_succeeded
check_body-own want a none records = (refl, refl)
check_body-own want a (some got) records = elim (Bool-cases (is_account want got)) [
  | inl e ↦ rw e (put_own a.ip none records, refl)
  | inr e ↦ rw e (put_own a.ip (some (count_failure a.at (or_new (records a.ip)))) records, refl)
]

handle-own :
    (want : LocalAccount) (a : Attempt) (records : LoginRecords)
    → ((handle_local_login want a records).0 a.ip ≡ own_step want a (records a.ip))
      × ((handle_local_login want a records).1 ≡ own_reply want a (records a.ip))
unfolding handle_local_login login_allowed
handle-own want a records = elim (Bool-cases (record_allows a.at (records a.ip))) [
  | inl e ↦ rw e (check_body-own want a a.body records)
  | inr e ↦ rw e (refl, refl)
]

check_body-other :
    (want : LocalAccount) (a : Attempt) (body : Option LocalAccount) (records : LoginRecords)
    (ip : String)
    → str_eq a.ip ip ≡ false
    → (check_body want a body records).0 ip ≡ records ip
unfolding login_failed login_succeeded
check_body-other want a none records ip n = refl
check_body-other want a (some got) records ip n = elim (Bool-cases (is_account want got)) [
  | inl e ↦ rw e (put_other a.ip ip _ records n)
  | inr e ↦ rw e (put_other a.ip ip _ records n)
]

handle-other :
    (want : LocalAccount) (a : Attempt) (records : LoginRecords) (ip : String)
    → str_eq a.ip ip ≡ false
    → (handle_local_login want a records).0 ip ≡ records ip
unfolding handle_local_login
handle-other want a records ip n = elim (Bool-cases (login_allowed a.at a.ip records)) [
  | inl e ↦ rw e (check_body-other want a a.body records ip n)
  | inr e ↦ rw e refl
]

-- An address's record comes of its own attempts alone.
attempts-own :
    (want : LocalAccount) (es : List Attempt) (records : LoginRecords) (ip : String)
    → attempts want es records ip ≡ own_steps want (filter (from_ip ip) es) (records ip)
unfolding attempts
attempts-own want [] records ip = refl
attempts-own want (a ∷ es) records ip = elim (Bool-cases (from_ip ip a)) [
  | inl e ↦ rw e (
      attempts-own want es (handle_local_login want a records).0 ip
      ∙ ap (own_steps want (filter (from_ip ip) es)) (
          subst (λ q. (handle_local_login want a records).0 q ≡ own_step want a (records q))
            ((eq_iff a.ip ip).0 e) (handle-own want a records).0))
  | inr e ↦ rw e (
      attempts-own want es (handle_local_login want a records).0 ip
      ∙ ap (own_steps want (filter (from_ip ip) es)) (handle-other want a records ip e))
]

-- Credentials that can be read, and are not the account's.
abbrev pub IsWrong : LocalAccount → Attempt → Type 0
IsWrong want a = (got : LocalAccount) × (a.body ≡ some got) × (is_account want got ≡ false)

abbrev counting : ℕ → Option IpRecord
counting k = some (record { failures = k; locked_until = none })

wrong-counts :
    (want : LocalAccount) (a : Attempt) (k : ℕ)
    → IsWrong want a
    → own_step want a (counting k)
      ≡ some (count_failure a.at (record { failures = k; locked_until = none }))
wrong-counts want a k (got, e, n) = rw e (rw n refl)

wrong-first :
    (want : LocalAccount) (a : Attempt) → IsWrong want a → own_step want a none ≡ counting 1
wrong-first want a (got, e, n) = rw e (rw n refl)

few-count :
    (want : LocalAccount) (l : List Attempt) (last : Attempt) (k : ℕ)
    → All (IsWrong want) (l ++ last ∷ [])
    → suc (k + length l) ≡ login_max_attempts
    → own_steps want (l ++ last ∷ []) (counting k)
      ≡ some (record { failures = 0; locked_until = some (last.at + login_lock_duration) })
few-count want [] last k (w, ws) h = wrong-counts want last k w ∙ ground arith
few-count want (a ∷ l) last k (w, ws) h =
    ap (own_steps want (l ++ last ∷ [])) (wrong-counts want a k w ∙ ground arith)
    ∙ few-count want l last (suc k) ws (omega (arith, h))

abbrev pub no_records : LoginRecords
no_records ip = none

ten-lock :
    (want : LocalAccount) (first : Attempt) (eight : List Attempt) (last : Attempt)
    → length eight ≡ 8
    → All (IsWrong want) (first ∷ eight ++ last ∷ [])
    → own_steps want (first ∷ eight ++ last ∷ []) none
      ≡ some (record { failures = 0; locked_until = some (last.at + login_lock_duration) })
ten-lock want first eight last n (w, ws) =
    ap (own_steps want (eight ++ last ∷ [])) (wrong-first want first w)
    ∙ few-count want eight last 1 ws (omega (arith, n))

handle-locked :
    (want : LocalAccount) (a : Attempt) (records : LoginRecords) (k until : ℕ)
    → records a.ip ≡ some (record { failures = k; locked_until = some until })
    → a.at ≤ until
    → handle_local_login want a records ≡ (records, too_many)
unfolding handle_local_login login_allowed
handle-locked want a records k until e early =
    let closed : record_allows a.at (records a.ip) ≡ false = rw e (ground arith) in rw closed refl

filter_idem :
    (ip : String) (es : List Attempt)
    → filter (from_ip ip) (filter (from_ip ip) es) ≡ filter (from_ip ip) es
filter_idem ip es =
    filter-eq_self (from_ip ip) (filter (from_ip ip) es) (filter-all (from_ip ip) es)

reply-alone :
    (want : LocalAccount) (a : Attempt) (others : List Attempt)
    → (handle_local_login want a (attempts want others no_records)).1
      ≡ (handle_local_login want a (attempts want (filter (from_ip a.ip) others) no_records)).1
reply-alone want a others =
    (handle-own want a (attempts want others no_records)).1
    ∙ ap (own_reply want a) (
        attempts-own want others no_records a.ip
        ∙ ap (λ l. own_steps want l none) (sym (filter_idem a.ip others))
        ∙ sym (attempts-own want (filter (from_ip a.ip) others) no_records a.ip))
    ∙ sym (handle-own want a (attempts want (filter (from_ip a.ip) others) no_records)).1

-- After ten attempts with wrong credentials from one address, among any number of attempts from others,
-- the address is refused for fifteen minutes from the tenth, whatever it sends, with the right
-- credentials too. And at any time what an address is told comes of its own attempts alone, so nobody
-- can lock out another. Each attempt is counted before the next is looked at.
pub attempts-lock :
    (want : LocalAccount) (es : List Attempt) (first : Attempt) (eight : List Attempt)
    (last a : Attempt) (others : List Attempt)
    → filter (from_ip a.ip) es ≡ first ∷ eight ++ last ∷ []
    → length eight ≡ 8
    → All (IsWrong want) (first ∷ eight ++ last ∷ [])
    → a.at ≤ last.at + login_lock_duration
    → (handle_local_login want a (attempts want es no_records)
        ≡ (attempts want es no_records, too_many))
      × ((handle_local_login want a (attempts want others no_records)).1
          ≡ (handle_local_login want a (attempts want (filter (from_ip a.ip) others) no_records)).1)
attempts-lock want es first eight last a others mine eight_more wrong early = (
  handle-locked want a (attempts want es no_records) 0 (last.at + login_lock_duration)
      (attempts-own want es no_records a.ip
        ∙ ap (λ l. own_steps want l none) mine
        ∙ ten-lock want first eight last eight_more wrong)
      early,
  reply-alone want a others,
)

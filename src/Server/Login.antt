-- ===== src/Server/Login.antt =====
-- fs_api/auth.go: the sign-in with a password, and its limit on failed attempts. Times are in seconds.
-- An attempt is one step here: the server takes the lock once to ask and once to count.
use cuttlefish.Common.{
  ℕ, suc, ◌+◌, Bool, true, false, ◌&&◌, String, List, [], ◌∷◌, Option, none, some, ltb, leb, str_eq,
  if◌then◌else◌,
}
pub mod Lockout

abbrev pub login_max_attempts : ℕ
login_max_attempts = 10

abbrev pub login_lock_duration : ℕ
login_lock_duration = 900

-- `locked_until` is `none` for Go's zero time, which is before every other.
pub record IpRecord : Type 0 where
  pub failures : ℕ
  pub locked_until : Option ℕ

-- The map of the records, by address.
abbrev pub LoginRecords : Type 0
LoginRecords = String → Option IpRecord

abbrev pub put : String → Option IpRecord → LoginRecords → LoginRecords
put ip r records other = if str_eq other ip then r else records other

abbrev pub is_after : ℕ → Option ℕ → Bool
is_after now none = true
is_after now (some until) = ltb until now

abbrev pub record_allows : ℕ → Option IpRecord → Bool
record_allows now none = true
record_allows now (some r) = is_after now r.locked_until

unfoldable pub login_allowed : ℕ → String → LoginRecords → Bool
login_allowed now ip records = record_allows now (records ip)

abbrev pub or_new : Option IpRecord → IpRecord
or_new none = record { failures = 0; locked_until = none }
or_new (some r) = r

abbrev pub count_failure : ℕ → IpRecord → IpRecord
count_failure now r =
    if leb login_max_attempts (suc r.failures)
    then record { failures = 0; locked_until = some (now + login_lock_duration) }
    else record r { failures = suc r.failures }

unfoldable pub login_failed : ℕ → String → LoginRecords → LoginRecords
login_failed now ip records = put ip (some (count_failure now (or_new (records ip)))) records

unfoldable pub login_succeeded : String → LoginRecords → LoginRecords
login_succeeded ip records = put ip none records

pub record LocalAccount : Type 0 where
  pub username : String
  pub password : String

-- A request to sign in; `none` is a body that cannot be read.
pub record Attempt : Type 0 where
  pub ip : String
  pub at : ℕ
  pub body : Option LocalAccount

-- `issue_for` is a session for the user, which the handler goes on to make.
pub data Reply : Type 0 where
  issue_for : String → Reply
  refused : ℕ → String → Reply

abbrev pub is_account : LocalAccount → LocalAccount → Bool
is_account want got = str_eq want.username got.username && str_eq want.password got.password

abbrev pub check_body :
    LocalAccount → Attempt → Option LocalAccount → LoginRecords → LoginRecords × Reply
check_body want a none records = (records, refused 400 "invalid request body")
check_body want a (some got) records =
    if is_account want got
    then (login_succeeded a.ip records, issue_for got.username)
    else (login_failed a.at a.ip records, refused 401 "invalid credentials")

-- `handleLocalLogin` up to the session.
unfoldable pub handle_local_login : LocalAccount → Attempt → LoginRecords → LoginRecords × Reply
unfolding login_allowed login_failed login_succeeded
handle_local_login want a records =
    if login_allowed a.at a.ip records
    then check_body want a a.body records
    else (records, refused 429 "too many failed attempts, try again later")

unfoldable pub attempts : LocalAccount → List Attempt → LoginRecords → LoginRecords
unfolding handle_local_login
attempts want [] records = records
attempts want (a ∷ rest) records = attempts want rest (handle_local_login want a records).0

-- ===== src/Server/Requests/Confined.antt =====
-- What a search gives away, from the cookie to the rows.
use cuttlefish.Common.{Bool, false, get_elem?, true, String, Option, none, some, ◌≡◌, str_eq}
use cuttlefish.Server.Access.{Access, allows}
use cuttlefish.Server.Search.{Reply, query, refused}
use cuttlefish.Server.Search.Meaning.{Database, selects}
use cuttlefish.Server.Sessions
use cuttlefish.Server.Sessions.{
  State, Event, issue, looks_up, claims, answers, log_out, Progress, looked_up, asked, claim_row,
}

-- The reply, if it is a query, selects only rows that the access allows.
abbrev OnlyAllowed : (db : Database) → db.Row → Access → Reply → Type 0
OnlyAllowed db row a (refused status m) = Unit
OnlyAllowed db row a (query s) =
    selects db s.values row s.rows_where ≡ true → allows a (db.path row) ≡ true

abbrev is_progress_of : String → Option Progress → Bool
is_progress_of h none = false
is_progress_of h (some (looked_up q)) = str_eq q.hash h
is_progress_of h (some (asked a)) = str_eq a.hash h

-- The event is a step of a request of the session of the hash `h`.
abbrev pub is_of : String → Event → State → Bool
is_of h (issue g user groups token) st = false
is_of h (looks_up g) st = str_eq g h
is_of h (claims i) st = is_progress_of h (get_elem? st.requests i)
is_of h (answers i refresh) st = is_progress_of h (get_elem? st.requests i)
is_of h (log_out g) st = false

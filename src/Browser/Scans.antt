-- ===== src/Browser/Scans.antt =====
-- fs_ui/src/pages/ScanHistoryPage.tsx: the table of scans, and the poll that loads it.
pub mod Stuck
mod Tests
use cuttlefish.Common.{
  ℕ, Bool, true, false, String, List, [], ◌∷◌, Option, none, some, map, if◌then◌else◌, get_or_else,
  str_eq,
}
use cuttlefish.Common.Int.{ℤ}
use cuttlefish.Common.Text.{◌<>◌, is_truthy}
use cuttlefish.Types.{
  ScanSession, ScanType, indexer, aggregator, ScanStatus, running, success, failed, UserStats,
  IdType, uid_type, gid_type, Me,
}
use cuttlefish.Format.{Print, format_bytes, format_number}
use cuttlefish.Api.{Outcome, resolved, rejected}
use cuttlefish.Browser.{is_restricted}
use cuttlefish.Browser.Usages.{key_of, Usage, message}
use cuttlefish.Browser.Durations.{format_duration, is_running}

unfoldable pub scan_type_label : ScanType → String
scan_type_label indexer = "Indexer"
scan_type_label aggregator = "Aggregator"

unfoldable pub status_label : ScanStatus → String
status_label running = "Running"
status_label success = "Completed"
status_label failed = "Failed"

pub data Tone : Type 0 where
  accent neutral danger : Tone

unfoldable pub status_tone : ScanStatus → Tone
status_tone running = neutral
status_tone success = accent
status_tone failed = danger

abbrev pub type_tone : ScanType → Tone
type_tone indexer = accent
type_tone aggregator = neutral

pub record History : Type 0 where
  pub sessions : List ScanSession
  pub is_loading : Bool
  pub error : Option String

unfoldable pub opened : History
opened = record { sessions = []; is_loading = true; error = none }

-- A reply of the poll; `cancelled` when the page has gone.
unfoldable pub load_reply : Bool → Outcome (List ScanSession) → History → History
load_reply true o h = h
load_reply false (resolved sessions) h = record h { sessions = sessions; is_loading = false }
load_reply false (rejected e) h = record h { error = message e; is_loading = false }

pub record ScanRow : Type 0 where
  pub key : String
  pub started : String
  pub type_tag : Tone × String
  pub duration : String
  pub files : String
  pub pulses : Bool
  pub status_tag : Tone × String

-- `now` is the time in seconds.
unfoldable pub scan_row : Print → ℤ → ScanSession → ScanRow
unfolding scan_type_label status_label status_tone
scan_row p now s = record {
  key = s.session_id;
  started = p.locale_date s.started_at;
  type_tag = (type_tone s.scan_type, scan_type_label s.scan_type);
  duration = format_duration now s.started_at s.ended_at s.status;
  files = format_number p s.files_scanned;
  pulses = is_running s.status;
  status_tag = (status_tone s.status, status_label s.status);
}

pub data Body : Type 0 where
  loading : Body
  error_page : String → Body
  no_scans : Body
  scans : List ScanRow → Body

abbrev pub table_of : List ScanRow → Body
table_of [] = no_scans
table_of (r ∷ rows) = scans (r ∷ rows)

-- An error's text that is empty is no error.
abbrev pub or_table : Option String → Body → Body
or_table none table = table
or_table (some m) table = if is_truthy m then error_page m else table

unfoldable pub body : Print → ℤ → History → Body
unfolding scan_row
body p now h =
    if h.is_loading then loading else or_table h.error (table_of (map (scan_row p now) h.sessions))

-- The replies of the poll while the page is open.
unfoldable pub replies : List (Outcome (List ScanSession)) → History → History
unfolding load_reply
replies [] h = h
replies (o ∷ os) h = replies os (load_reply false o h)

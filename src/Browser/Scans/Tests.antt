-- ===== src/Browser/Scans/Tests.antt =====
-- The table of scans at a run, and the theorem there.
use cuttlefish.Common.{false, [], ◌∷◌, map, some, ◌≡◌, refl}
use cuttlefish.Common.Int.{pos, ◌-ℤ◌}
use cuttlefish.Common.Text.{show}
use cuttlefish.Types.{ScanSession, aggregator, success}
use cuttlefish.Format.{Print}
use cuttlefish.Api.{resolved, rejected, plain_error}
use cuttlefish.Browser.Durations.{duration_label, format_duration}
use cuttlefish.Browser.Scans.{opened, load_reply, scan_row, body, error_page, replies}
use cuttlefish.Browser.Scans.Stuck.{replies-error_page}

abbrev printer : Print
printer = record {
  log_1024 = λ n. 0;
  two_places = λ n i. "2";
  one_place = λ a b. "1";
  grouped = λ n. "n";
  locale_date = λ s. "date";
  iso_date = λ s. "iso";
}

abbrev scan : ScanSession
scan = record {
  session_id = "s";
  scan_type = aggregator;
  status = success;
  started_at = pos 100;
  ended_at = some (pos 165);
  files_scanned = 12;
}

minute : (scan_row printer (pos 999) scan).duration ≡ "1m 5s"
unfolding scan_row format_duration duration_label ◌-ℤ◌ show
minute = refl

replies-error_page_example :
    body printer (pos 0) (
      replies
        (map resolved ((scan ∷ []) ∷ (scan ∷ []) ∷ []))
        (load_reply false (rejected (plain_error "Failed to fetch")) opened))
    ≡ error_page "Failed to fetch"
replies-error_page_example =
    replies-error_page printer (pos 0) opened (plain_error "Failed to fetch") "Failed to fetch"
      ((scan ∷ []) ∷ (scan ∷ []) ∷ []) refl refl

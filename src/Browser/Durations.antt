-- ===== src/Browser/Durations.antt =====
-- fs_ui/src/pages/ScanHistoryPage.tsx: how long a scan has taken, in words.
use cuttlefish.Common.{
  ℕ, ◌/◌, ◌%◌, Bool, true, false, String, Option, none, some, ltb, if◌then◌else◌,
}
use cuttlefish.Common.Int.{ℤ, pos, negsuc, ◌-ℤ◌}
use cuttlefish.Common.Text.{◌<>◌, show}
use cuttlefish.Types.{ScanStatus, running, success, failed}

abbrev pub is_running : ScanStatus → Bool
is_running running = true
is_running success = false
is_running failed = false

-- Hours, minutes and seconds.
abbrev pub hours : ℕ → ℕ
hours s = s / 3600

abbrev pub minutes : ℕ → ℕ
minutes s = s % 3600 / 60

abbrev pub seconds : ℕ → ℕ
seconds s = s % 60

unfoldable pub duration_label : ℕ → String
duration_label s =
    if ltb 0 (hours s)
    then show (hours s) <> "h " <> show (minutes s) <> "m"
    else if ltb 0 (minutes s)
    then show (minutes s) <> "m " <> show (seconds s) <> "s"
    else show (seconds s) <> "s"

-- The seconds from one time to another, `none` where they are negative.
abbrev pub whole_seconds : ℤ → Option ℕ
whole_seconds (pos s) = some s
whole_seconds (negsuc s) = none

abbrev pub end_or : Option ℤ → ℤ → ℤ
end_or none started = started
end_or (some ended) started = ended

unfoldable pub format_duration : ℤ → ℤ → Option ℤ → ScanStatus → String
unfolding duration_label ◌-ℤ◌
format_duration now started ended status =
    let until = if is_running status then now else end_or ended started in
    elim (whole_seconds (until -ℤ started)) [
      | none ↦ "—"
      | some s ↦ if is_running status then duration_label s <> " elapsed" else duration_label s
    ]

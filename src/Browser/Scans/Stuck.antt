-- ===== src/Browser/Scans/Stuck.antt =====
-- fs_ui/src/pages/ScanHistoryPage.tsx: the page after a poll that failed.
use cuttlefish.Common.{String, true, false, List, [], ◌∷◌, map, some, ◌≡◌, refl}
use cuttlefish.Common.Int.{ℤ}
use cuttlefish.Common.Text.{is_truthy}
use cuttlefish.Types.{ScanSession}
use cuttlefish.Format.{Print}
use cuttlefish.Api.{resolved, rejected, Failure}
use cuttlefish.Browser.Usages.{message}
use cuttlefish.Browser.Scans.{History, load_reply, body, error_page, replies}

-- What the replies that succeed leave of the state.
replies-resolved :
    (loads : List (List ScanSession)) (h : History)
    → h.is_loading ≡ false
    → ((replies (map resolved loads) h).is_loading ≡ false)
      × ((replies (map resolved loads) h).error ≡ h.error)
unfolding replies load_reply
replies-resolved [] h l = (l, refl)
replies-resolved (sessions ∷ loads) h l =
    replies-resolved loads (record h { sessions = sessions; is_loading = false }) refl

-- One failed poll hides the table for good: however many polls succeed after one that failed with a
-- message, the page goes on showing that message in place of the scans.
pub replies-error_page :
    (p : Print) (now : ℤ) (h : History) (e : Failure) (m : String) (loads : List (List ScanSession))
    → message e ≡ some m
    → is_truthy m ≡ true
    → body p now (replies (map resolved loads) (load_reply false (rejected e) h)) ≡ error_page m
unfolding body load_reply
replies-error_page p now h e m loads em t =
    let kept = replies-resolved loads (record h { error = message e; is_loading = false }) refl in
    rw (kept.0, kept.1, em, t) refl

-- ===== src/Session/Shell/Tests.antt =====
-- Screens at concrete runs, and the theorems there.
use cuttlefish.Common.{
  true, false, length, [], ◌∷◌, none, some, All, All-of_forall, ◌≡◌, refl, str_eq,
}
use cuttlefish.Common.Int.{pos, ◌-ℤ◌}
use cuttlefish.Common.Text.{show}
use cuttlefish.Types.{Me, admin, ScanSession, indexer, running}
use cuttlefish.Api.{resolved}
use cuttlefish.Session.{nav_items, auth_state, load_me, poll}
use cuttlefish.Session.Login.{Mode, hops, last_hop}
use cuttlefish.Session.Shell.{
  Event, me_reply, unauthorized, signed_out_ok, login, tick, poll_reply, run, opened, screen,
  elapsed_label,
}
use cuttlefish.Session.Shell.Routes.{route_paths, Leads, nav_items-lead}
use cuttlefish.Session.Shell.SignOut.{sign_out-no_hops}

abbrev an_admin : Me
an_admin = record { user = "a"; role = admin; prefixes = []; unix_user = none }

abbrev signs_in : Event
signs_in =
    me_reply
      (resolved (some (record { user = "a"; role = admin; prefixes = none; unix_user = none })))

abbrev scan : ScanSession
scan = record {
  session_id = "s";
  scan_type = indexer;
  status = running;
  started_at = pos 100;
  ended_at = none;
  files_scanned = 0;
}

-- A poll that is answered after the session expired is dropped.
late_poll :
    (run opened (signs_in ∷ unauthorized ∷ poll_reply 0 (resolved (scan ∷ [])) ∷ [])).running_scan
    ≡ none
unfolding run opened auth_state load_me poll
late_poll = refl

minutes_ago : elapsed_label (λ t. "08:00") (pos 280000) (some scan) ≡ "Started 08:00 · 3m elapsed"
unfolding elapsed_label ◌-ℤ◌ show
minutes_ago = refl

nav_items-lead_example : All (Leads str_eq an_admin) (nav_items an_admin)
nav_items-lead_example = nav_items-lead str_eq an_admin (
    All-of_forall (λ q. All (λ p. str_eq p q ≡ str_eq p q) route_paths) route_paths
      (λ q. All-of_forall (λ p. str_eq p q ≡ str_eq p q) route_paths (λ p. refl)))

abbrev oidc : Mode
oidc = record { mode = "oidc"; auto_redirect = true }

-- The effect of the sign-in page that a 401 mounts before the sign-out's reply is not cancelled.
earlier_effect :
    (screen str_eq "/browser" (run opened (signs_in ∷ unauthorized ∷ [])) ≡ login false)
    × (screen str_eq "/browser" (run opened (signs_in ∷ unauthorized ∷ signed_out_ok ∷ []))
        ≡ login true)
    × (length (
          hops
            (record { no_auto_redirect = false; tested = 5; noted = 6 } ∷ [])
            (some oidc)
            (last_hop none))
        ≡ 1)
unfolding run opened screen auth_state load_me hops
earlier_effect = (refl, refl, refl)

sign_out-no_hops_example :
    hops
      (record { no_auto_redirect = true; tested = 5; noted = 6 } ∷ [])
      (some oidc)
      (last_hop none)
    ≡ []
sign_out-no_hops_example =
    sign_out-no_hops (signs_in ∷ []) (tick ∷ []) str_eq "/browser" true
      (record { no_auto_redirect = true; tested = 5; noted = 6 } ∷ []) (some oidc) (last_hop none)
      (unfold run opened screen auth_state load_me in refl) (refl, tt)

-- ===== src/Session/Cooldown.antt =====
-- fs_ui/src/pages/LoginPage.tsx: the times of the automatic hops.
use cuttlefish.Common.{
  ℕ, zero, suc, ◌+◌, ◌≤◌, ◌<◌, false, ◌&&◌, not, List, [], ◌∷◌, Option, none, some, str_eq, All,
  ◌≡◌, refl, arith, Bool-cases, inl, inr,
}
use cuttlefish.Session.Login.{
  HopStorage, denied, last_hop, cooldown_ms, Attempt, too_soon, try_auto_redirect, Mode, mode_reply,
  hops,
}

-- Each hop is tested no sooner than the cooldown after the one before it was noted.
abbrev pub ApartFrom : Option ℕ → List Attempt → Type 0
ApartFrom last [] = Unit
ApartFrom none (a ∷ attempts) = ApartFrom (some a.noted) attempts
ApartFrom (some t) (a ∷ attempts) = (t + cooldown_ms ≤ a.tested) × ApartFrom (some a.noted) attempts

abbrev last_of : HopStorage → Option ℕ
last_of denied = none
last_of (last_hop last) = last

-- A time is stored only after the start of the epoch.
abbrev pub IsTime : Attempt → Type 0
IsTime a = 0 < a.noted

abbrev IsKept : Option ℕ → Type 0
IsKept none = Unit
IsKept (some t) = 0 < t

waits :
    (last : Option ℕ) (a : Attempt) (attempts : List Attempt)
    → IsKept last
    → too_soon last a.tested ≡ false
    → ApartFrom (some a.noted) attempts
    → ApartFrom last (a ∷ attempts)
waits none a attempts k h rest = rest
waits (some zero) a attempts k h rest = absurd (omega arith)
waits (some (suc t)) a attempts k h rest = (ground arith, rest)

never : (attempts : List Attempt) (d : Option Mode) → hops attempts d denied ≡ []
unfolding hops mode_reply try_auto_redirect
never [] d = refl
never (a ∷ attempts) none = never attempts none
never (a ∷ attempts) (some d) =
    elim (Bool-cases (str_eq d.mode "oidc" && d.auto_redirect && not a.no_auto_redirect)) [
      | inl e ↦ rw e (never attempts (some d))
      | inr e ↦ rw e (never attempts (some d))
    ]

-- However often the sign-in page is shown in a tab, and with whatever flags, two automatic hops to the identity provider
-- that follow one another are at least 30 seconds apart, from the note of one to the test of the
-- next, also from a hop that the tab remembers; the times noted are after the start of the epoch.
pub hops-ApartFrom :
    (attempts : List Attempt) (d : Option Mode) (last : Option ℕ)
    → All IsTime attempts
    → IsKept last
    → ApartFrom last (hops attempts d (last_hop last))
unfolding hops mode_reply try_auto_redirect
hops-ApartFrom [] d last h k = tt
hops-ApartFrom (a ∷ attempts) none last h k = hops-ApartFrom attempts none last h.1 k
hops-ApartFrom (a ∷ attempts) (some d) last h k =
    elim (Bool-cases (str_eq d.mode "oidc" && d.auto_redirect && not a.no_auto_redirect)) [
      | inr e ↦ rw e (hops-ApartFrom attempts (some d) last h.1 k)
      | inl e ↦ elim (Bool-cases (too_soon last a.tested)) [
        | inl soon ↦ rw (e, soon) (hops-ApartFrom attempts (some d) last h.1 k)
        | inr late ↦
            rw (e, late)
              (waits last a _ k late (hops-ApartFrom attempts (some d) (some a.noted) h.1 h.0))
      ]
    ]

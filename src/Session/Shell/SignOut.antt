-- ===== src/Session/Shell/SignOut.antt =====
-- fs_ui/src/App.tsx and fs_ui/src/pages/LoginPage.tsx: the sign-in page after a sign-out.
use mathlib.Core.Path.{subst}
use cuttlefish.Common.{
  All, Bool, true, false, String, List, [], ◌∷◌, Option, none, some, ◌≡◌, refl, arith, get_elem?,
  Option-cases, inl, inr, sym, ◌∙◌,
}
use cuttlefish.Session.{Answer, unknown, load_me, signed_out, signed_in}
use cuttlefish.Session.Login.{Attempt, HopStorage, Mode, hops, mode_reply}
use cuttlefish.Session.Shell.{
  Shell, Event, me_reply, unauthorized, signed_out_ok, sign_out_failed, tick, poll_reply, set_me,
  step, run, opened, screen, login,
}

set_me-explicit_sign_out :
    (a : Answer) (s : Shell) → (set_me a s).explicit_sign_out ≡ s.explicit_sign_out
unfolding set_me
set_me-explicit_sign_out a s = ground arith

step-signed_out :
    (s : Shell) (e : Event) → s.explicit_sign_out ≡ true → (step s e).explicit_sign_out ≡ true
unfolding step
step-signed_out s (me_reply o) h = set_me-explicit_sign_out (load_me o) s ∙ h
step-signed_out s unauthorized h = set_me-explicit_sign_out signed_out s ∙ h
step-signed_out s signed_out_ok h =
    set_me-explicit_sign_out signed_out (record s { explicit_sign_out = true })
step-signed_out s sign_out_failed h = h
step-signed_out s tick h = h
step-signed_out s (poll_reply i o) h = elim (Option-cases (get_elem? s.polls i)) [
  | inl e ↦ rw e h
  | inr (c, e) ↦ rw e h
]

signed_out_ok-notes : (s : Shell) → (step s signed_out_ok).explicit_sign_out ≡ true
unfolding step
signed_out_ok-notes s = set_me-explicit_sign_out signed_out (record s { explicit_sign_out = true })

run-signed_out :
    (s : Shell) (es : List Event) → s.explicit_sign_out ≡ true → (run s es).explicit_sign_out ≡ true
unfolding run
run-signed_out s [] h = h
run-signed_out s (e ∷ es) h = run-signed_out (step s e) es (step-signed_out s e h)

-- A sign-in page that may not hop never does.
mode_reply-stays :
    (a : Attempt) (d : Option Mode) (storage : HopStorage)
    → a.no_auto_redirect ≡ true
    → ((mode_reply a storage d).left ≡ false) × ((mode_reply a storage d).storage ≡ storage)
unfolding mode_reply
mode_reply-stays a none storage h = (refl, refl)
mode_reply-stays a (some d) storage h = ground arith

-- The effect of a sign-in page with this flag sent the request.
abbrev pub StartedWith : Bool → Attempt → Type 0
StartedWith b a = a.no_auto_redirect ≡ b

hops-none :
    (attempts : List Attempt) (d : Option Mode) (storage : HopStorage)
    → All (StartedWith true) attempts
    → hops attempts d storage ≡ []
unfolding hops
hops-none [] d storage h = refl
hops-none (a ∷ attempts) d storage (h, hs) =
    let stays = mode_reply-stays a d storage h in
    rw (stays.0, stays.1) (hops-none attempts d storage hs)

screen-login :
    (matches : String → String → Bool) (pathname : String) (s : Shell) (b : Bool)
    → screen matches pathname s ≡ login b
    → s.explicit_sign_out ≡ b
unfolding screen
screen-login matches pathname s b = by_answer s.me
  where
    by_answer :
        (a : Answer)
        → screen matches pathname (record s { me = a }) ≡ login b
        → s.explicit_sign_out ≡ b
    by_answer unknown e = cc
    by_answer signed_out e = cc
    by_answer (signed_in me) e = cc

-- After a sign-out the user is not signed in again by a sign-in page that is shown then: whatever comes
-- before and after the sign-out without a reload, if the screen is the sign-in page, none of the
-- requests that its effect sends leads to a hop to the identity provider, whatever the server's mode
-- and the tab's storage are. A request that a sign-in page sent before the sign-out is not spoken of.
pub sign_out-no_hops :
    (before later : List Event) (matches : String → String → Bool) (pathname : String) (b : Bool)
    (attempts : List Attempt) (d : Option Mode) (storage : HopStorage)
    → screen matches pathname (run (step (run opened before) signed_out_ok) later) ≡ login b
    → All (StartedWith b) attempts
    → hops attempts d storage ≡ []
sign_out-no_hops before later matches pathname b attempts d storage e started =
    let s = run (step (run opened before) signed_out_ok) later in
    let out =
      run-signed_out (step (run opened before) signed_out_ok) later
        (signed_out_ok-notes (run opened before)) in
    let same = sym (screen-login matches pathname s b e) ∙ out in
    hops-none attempts d storage (subst (λ q. All (StartedWith q) attempts) same started)

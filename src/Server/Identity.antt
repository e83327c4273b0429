-- ===== src/Server/Identity.antt =====
-- fs_api/auth.go: the Unix name that an identity stands for. `lower` is `strings.ToLower`. Lengths are
-- in characters: the suffixes that are compared end the same text, so bytes order them alike.
use mathlib.Core.Option
use cuttlefish.Common.{
  Bool, true, code, ◌==◌, String, List, Option, none, some, foldl, ltb, str_eq, if◌then◌else◌,
}
use cuttlefish.Common.Text.{◌<>◌, text_length}
use cuttlefish.Types.{IdentityRule}
pub mod Longest

-- `s[:len(s) - len(suffix)]` where `strings.HasSuffix(s, suffix)`.
unfoldable pub strip_suffix : String → String → Option String
strip_suffix String.[] suffix = if str_eq "" suffix then some "" else none
strip_suffix (String.◌∷◌ c s) suffix =
    let rest = Option.map (String.◌∷◌ c) (strip_suffix s suffix) in
    if str_eq (String.◌∷◌ c s) suffix then some "" else rest

-- `strings.Cut(s, "@")`: what stands before the sign.
unfoldable pub before_at : String → String
before_at String.[] = ""
before_at (String.◌∷◌ c s) =
    let rest = String.◌∷◌ c (before_at s) in if code c == b'@' then "" else rest

-- The rule that wins so far: what it leaves of the identity, its suffix and its replacement.
pub record Best : Type 0 where
  pub stem : String
  pub suffix : String
  pub replace_with : String

abbrev pub is_longer : String → Option Best → Bool
is_longer suffix none = true
is_longer suffix (some b) = ltb (text_length b.suffix) (text_length suffix)

abbrev pub challenge : (String → String) → IdentityRule → Option Best → Option String → Option Best
challenge lower r best none = best
challenge lower r best (some stem) =
    if is_longer (lower r.match_suffix) best
    then some
        (record { stem = stem; suffix = lower r.match_suffix; replace_with = lower r.replace_with })
    else best

-- One round of the loop.
unfoldable pub consider : (String → String) → String → Option Best → IdentityRule → Option Best
unfolding text_length
consider lower id best r = challenge lower r best (strip_suffix id (lower r.match_suffix))

abbrev pub outcome_of : String → Option Best → String
outcome_of id none = before_at id
outcome_of id (some b) = b.stem <> b.replace_with

unfoldable pub map_identity : (String → String) → String → List IdentityRule → String
unfolding consider strip_suffix before_at
map_identity lower identity rules =
    outcome_of (lower identity) (foldl (consider lower (lower identity)) none rules)

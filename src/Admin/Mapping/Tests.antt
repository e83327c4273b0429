-- ===== src/Admin/Mapping/Tests.antt =====
-- The identity mapping at concrete replies.
use cuttlefish.Common.{String, [], ◌∷◌, ◌≡◌, refl}
use cuttlefish.Types.{IdentityRule}
use cuttlefish.Api.{resolved}
use cuttlefish.Admin.Mapping.{Mapping, list_rules, listed, opened, load, settle}

abbrev rule : String → IdentityRule
rule suffix = record {
  id = 1;
  match_suffix = suffix;
  replace_with = "";
  created_by = "admin";
  created_at = "";
}

-- The listing that was asked for before a rule was added is answered last, and is shown.
abbrev older_last : Mapping
older_last =
    settle "?" list_rules (resolved (listed []))
      (settle "?" list_rules (resolved (listed (rule "@corp.com" ∷ []))) opened)

stale_rules : older_last.rules ≡ []
unfolding opened load settle
stale_rules = refl

-- ===== src/Server/Tests.antt =====
-- The server at concrete users, rules and searches, and the theorems there.
use cuttlefish.Common.{
  ℕ, suc, ◌==◌, ◌||◌, ◌&&◌, not, Bool, true, false, String, List, [], ◌∷◌, Option, none, some,
  length, map, All, AnyOf, ◌≡◌, ◌≢◌, refl, ap, sym, ◌∙◌, inl, inr, ◌++◌, ◌↔◌, get_elem?, any,
  filter, str_eq, if◌then◌else◌,
}
use cuttlefish.Common.Text.{◌<>◌, segments, join, starts_with, includes, show, split, text_length}
use cuttlefish.Common.Int.{pos}
use cuttlefish.Types.{
  SearchRequest, SearchRule, IdentityRule, Grant, admin, viewer, restricted, idp, unix, Role,
  path_field, size_field, and_connector, or_connector, descending,
}
use cuttlefish.Browser.{Crumb, crumbs, is_inert, url_path}
use cuttlefish.Server.Paths.{is_canonical, clean, resolve, push_part}
use cuttlefish.Server.Paths.Canonical.{IsCanonical, is_canonical_iff}
use cuttlefish.Server.Access.{Access, allows, is_within}
use cuttlefish.Server.Access.Confined.{Continues, allows_iff}
use cuttlefish.Server.Access.Crumbs.{is_inert-allows}
use cuttlefish.Server.Grants.{grant_user, granted_path, GrantRequest, Grants}
use cuttlefish.Server.Grants.Stored.{Edit, add, delete, edits}
use cuttlefish.Server.Identity.{map_identity, consider, strip_suffix, before_at}
use cuttlefish.Server.Identity.Longest.{SameRules, IsLongest}
use cuttlefish.Server.Rules.{add_rule, add_lowered, delete_rule}
use cuttlefish.Server.Rules.Stored
use cuttlefish.Server.Rules.Stored.{no_rules, edits-order}
use cuttlefish.Server.Resolve.{AuthConfig, role_for, resolve_access}
use cuttlefish.Server.Resolve.Granted.{no_grants, Gives, resolve_access-allows}
use cuttlefish.Server.Query.{
  Go, Value, text_value, int_value, build_condition, column_of, text_op, parse_human_size,
  ends_with, Rule, Clause, Condition, and_then, or_else, built, build_search_where, escape_like,
}
use cuttlefish.Server.Query.Offered.{sent_body}
use cuttlefish.Server.Search.{
  Statement, Outcome, found, sql_error, answer, statement_of, refused, trim_prefix, scope_clause,
  scope_loop, scope_text, search_where,
}
use cuttlefish.Server.Search.Meaning.{selects, clause_holds}
use cuttlefish.Server.Search.Scoped.{search-allows}
use cuttlefish.Server.Tests.Postgres.{paths}
mod Postgres
mod SignIns
mod Searches

abbrev user_of : Role → List String → Access
user_of role prefixes = record {
  user = "joshua";
  role = role;
  prefixes = prefixes;
  unix_user = "joshua";
}

abbrev joshua : Access
joshua = user_of restricted ("/home/joshua" ∷ [])

-- The prefix and below it, and neither a sibling with a longer name, nor a way out, nor another spelling.
allowed :
    (allows (user_of viewer []) "/root" ≡ true)
    × (allows joshua "/home/joshua" ≡ true)
    × (allows joshua "/home/joshua/x" ≡ true)
    × (allows joshua "/home/joshuax" ≡ false)
    × (allows joshua "/home/joshua/../alice" ≡ false)
    × (allows joshua "/home/joshua/" ≡ false)
    × (allows joshua "//home/joshua" ≡ false)
    × (allows (user_of restricted ("/" ∷ [])) "/anything" ≡ true)
    × (allows (user_of restricted []) "/home/joshua" ≡ false)
unfolding allows is_within starts_with is_canonical clean resolve push_part split join
allowed = (refl, refl, refl, refl, refl, refl, refl, refl, refl)

home-IsCanonical : IsCanonical "/home/joshua"
unfolding is_canonical clean resolve push_part split starts_with join
home-IsCanonical = (is_canonical_iff "/home/joshua").0 refl

allows_iff_example :
    (allows joshua "/home/joshuax" ≡ true)
    ↔ (IsCanonical "/home/joshuax" × AnyOf (Continues "/home/joshuax") ("/home/joshua" ∷ []))
allows_iff_example = allows_iff joshua "/home/joshuax" refl (home-IsCanonical, tt)

abbrev home : Crumb
home = record { label = "home"; path = "/home" }

home_crumb : get_elem? (crumbs "/home/joshua") 1 ≡ some home
unfolding crumbs segments join
home_crumb = refl

is_inert-allows_example :
    (is_inert (some ("/home/joshua" ∷ [])) (crumbs "/home/joshua") 1 home
      ≡ ((2 == length (crumbs "/home/joshua")) || not (allows joshua "/home")))
    × (allows joshua (url_path none (some ("/home/joshua" ∷ []))) ≡ true)
is_inert-allows_example =
    is_inert-allows joshua "/home/joshua" 1 home refl (home-IsCanonical, tt) (λ e. cc)
      home-IsCanonical home_crumb

abbrev rule_for : ℕ → String → String → IdentityRule
rule_for id match_suffix replace_with = record {
  id = id;
  match_suffix = match_suffix;
  replace_with = replace_with;
  created_by = "root";
  created_at = "";
}

abbrev corp : IdentityRule
corp = rule_for 1 "@corp.com" ""

abbrev eu_corp : IdentityRule
eu_corp = rule_for 2 "@eu.corp.com" "@ad.eu.corp.com"

abbrev pub plain : String → String
plain s = s

identities :
    (map_identity plain "joshua@corp.com" (corp ∷ eu_corp ∷ []) ≡ "joshua")
    × (map_identity plain "anna@eu.corp.com" (corp ∷ eu_corp ∷ []) ≡ "anna@ad.eu.corp.com")
    × (map_identity plain "carl@other.org" (corp ∷ eu_corp ∷ []) ≡ "carl")
    × (map_identity plain "dave" (rule_for 3 "" "@ad.corp.com" ∷ []) ≡ "dave@ad.corp.com")
unfolding map_identity consider strip_suffix before_at text_length
identities = (refl, refl, refl, refl)

swapped :
    (r : IdentityRule) (a b : IdentityRule)
    → AnyOf (λ t. t ≡ r) (a ∷ b ∷ [])
    → AnyOf (λ t. t ≡ r) (b ∷ a ∷ [])
swapped r a b (inl e) = inr (inl e)
swapped r a b (inr (inl e)) = inl e
swapped r a b (inr (inr e)) = absurd e

abbrev rule_edits : List Stored.Edit
rule_edits =
    Stored.add "@corp.com" "" "root" ""
    ∷ Stored.add "@eu.corp.com" "@ad.eu.corp.com" "root" ""
    ∷ Stored.delete (some (pos 7))
    ∷ []

same_rows : SameRules (Stored.edits plain plain rule_edits no_rules).rows (corp ∷ eu_corp ∷ [])
unfolding add_rule add_lowered delete_rule includes
same_rows r = (swapped r eu_corp corp, swapped r corp eu_corp)

edits-order_example :
    IsLongest plain "anna@eu.corp.com"
      (Stored.edits plain plain rule_edits no_rules).rows
      (map_identity plain "anna@eu.corp.com" (Stored.edits plain plain rule_edits no_rules).rows)
    × (map_identity plain "anna@eu.corp.com" (Stored.edits plain plain rule_edits no_rules).rows
        ≡ map_identity plain "anna@eu.corp.com" (corp ∷ eu_corp ∷ []))
edits-order_example =
    edits-order plain plain rule_edits "anna@eu.corp.com" (corp ∷ eu_corp ∷ []) (λ s. refl)
      same_rows

abbrev oidc : AuthConfig
oidc = record { is_local = false; admin_groups = "admins" ∷ []; viewer_groups = "auditors" ∷ [] }

staff-restricted : role_for oidc ("staff" ∷ []) ≡ restricted
unfolding role_for
staff-restricted = refl

abbrev added : List Edit
added =
    add "root" ""
      (record { group_type = "idp"; group_name = "staff"; path_prefix = "/home//{user}/" })
    ∷ delete (some (pos 7))
    ∷ []

resolve_access-allows_example :
    (allows
        (resolve_access plain oidc
          (record {
            grants = (edits plain added no_grants).rows;
            rules = corp ∷ [];
            unix_groups = λ name. [];
          })
          "joshua@corp.com"
          ("staff" ∷ []))
        "/home/joshua/x"
      ≡ true)
    ↔ (IsCanonical "/home/joshua/x"
        × AnyOf
            (Gives
              ("staff" ∷ [])
              []
              (map_identity plain "joshua@corp.com" (corp ∷ []))
              "/home/joshua/x")
            (edits plain added no_grants).rows)
resolve_access-allows_example =
    resolve_access-allows plain plain oidc added (corp ∷ []) (λ name. []) "joshua@corp.com"
      ("staff" ∷ []) "/home/joshua/x" staff-restricted

-- Go's library, of texts that hold no spaces and no small letters.
abbrev pub go : Go
go = record {
  trim = plain;
  upper = plain;
  equal_fold = str_eq;
  parse_int = λ s. if str_eq s "5" then some (pos 5) else none;
  parse_scaled = λ s unit. none;
}

abbrev pub named : Rule
named = record {
  field = "path";
  operator = "equals";
  value = "/x";
  connector = "AND";
  negate = false;
}

abbrev or_large : Rule
or_large = record {
  field = "size_bytes";
  operator = "gt";
  value = "5";
  connector = "OR";
  negate = true;
}

abbrev path_is : Condition
path_is = record { column = "f.path"; op = "="; param = 1; negated = false }

abbrev not_large : Condition
not_large = record { column = "f.size_bytes"; op = ">"; param = 2; negated = true }

abbrev clause : Clause
clause = (and_then, path_is) ∷ (or_else, not_large) ∷ []

abbrev values : List Value
values = text_value "/x" ∷ int_value (pos 5) ∷ []

built_clause : build_search_where go (named ∷ or_large ∷ []) [] ≡ built (clause, values)
unfolding build_search_where build_condition column_of text_op parse_human_size ends_with
built_clause = refl

-- The scope of access_test.go.
scope :
    (scope_text (scope_clause ("/home/joshua" ∷ "/srv/a_b%" ∷ []) values).0
      ≡ "(f.path = $3 OR f.path LIKE $4 OR f.path = $5 OR f.path LIKE $6)")
    × ((scope_clause ("/home/joshua" ∷ "/srv/a_b%" ∷ []) values).1
        ≡ values
          ++ text_value "/home/joshua"
            ∷ text_value "/home/joshua/%"
            ∷ text_value "/srv/a_b%"
            ∷ text_value "/srv/a\\_b\\%/%"
            ∷ [])
    × (scope_text (scope_clause ("/home" ∷ "/" ∷ []) values).0 ≡ "TRUE")
    × (scope_text (scope_clause [] values).0 ≡ "FALSE")
unfolding scope_text scope_clause scope_loop escape_like join show
scope = (refl, refl, refl, refl)

search-allows_example :
    selects paths
      (search_where joshua clause values).1
      "/home/joshua"
      (search_where joshua clause values).0
    ≡ (clause_holds paths values "/home/joshua" clause && allows joshua "/home/joshua")
search-allows_example =
    search-allows go (named ∷ or_large ∷ []) joshua paths "/home/joshua" built_clause
      home-IsCanonical

abbrev large : SearchRule
large = record {
  field = size_field;
  operator = "gt";
  value = "5";
  connector = or_connector;
  negate = some true;
}

abbrev request : SearchRequest
request = record {
  rules = large ∷ [];
  sort_by = "mtime";
  order = descending;
  limit = 25;
  offset = 50;
}

-- A database that runs every query.
abbrev pub up : Statement → Outcome
up s = found

-- PostgreSQL does not take the pattern.
bad_pattern :
    answer true
      (statement_of go joshua (sent_body request) [] [])
      (sql_error "2201B" "invalid regular expression: parentheses () not balanced")
    ≡ refused 400 "Invalid regular expression: parentheses () not balanced"
unfolding trim_prefix
bad_pattern = refl

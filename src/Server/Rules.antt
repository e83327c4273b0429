-- ===== src/Server/Rules.antt =====
-- fs_api/admin.go, AdminIdentityRules: the table of the rules that map identities to Unix names.
use cuttlefish.Common.{
  ℕ, suc, Bool, true, false, ◌||◌, ◌==◌, not, String, List, ◌∷◌, Option, none, some, filter, any,
  str_eq, if◌then◌else◌,
}
use cuttlefish.Common.Int.{ℤ, pos, negsuc}
use cuttlefish.Common.Text.{includes}
use cuttlefish.Types.{IdentityRule}
pub mod Stored

-- The table, and the number that its next row gets; a row that is refused takes its number too.
pub record Rules : Type 0 where
  pub rows : List IdentityRule
  pub next_id : ℕ

pub data Reply : Type 0 where
  created : IdentityRule → Reply
  no_content : Reply
  refused : ℕ → String → Reply

abbrev pub same_suffix : IdentityRule → IdentityRule → Bool
same_suffix r s = str_eq r.match_suffix s.match_suffix

abbrev pub store : IdentityRule → Rules → Rules × Reply
store r t =
    if any (same_suffix r) t.rows
    then (record t { next_id = suc t.next_id }, refused 409 "a rule for that suffix already exists")
    else (record t { rows = r ∷ t.rows; next_id = suc t.next_id }, created r)

-- The two texts as they are stored.
unfoldable pub add_lowered : String → String → String → String → Rules → Rules × Reply
unfolding includes
add_lowered match_suffix replace_with by now t =
    if str_eq match_suffix replace_with
    then (t, refused 400 "match_suffix and replace_with are identical; the rule would do nothing")
    else if includes b'/' replace_with || includes 0 replace_with
    then (t, refused 400 "replace_with must not contain '/'")
    else store
        (record {
          id = t.next_id;
          match_suffix = match_suffix;
          replace_with = replace_with;
          created_by = by;
          created_at = now;
        })
        t

-- `trim` is `strings.TrimSpace`, `lower` `strings.ToLower`; `by` is the admin, `now` the time.
unfoldable pub add_rule :
    (String → String)
    → (String → String)
    → String
    → String
    → String
    → String
    → Rules
    → Rules × Reply
unfolding add_lowered
add_rule trim lower match_suffix replace_with by now t =
    add_lowered (lower (trim match_suffix)) (lower (trim replace_with)) by now t

abbrev pub has_id : ℤ → IdentityRule → Bool
has_id (pos id) r = r.id == id
has_id (negsuc n) r = false

-- `none`: the parameter is no number.
unfoldable pub delete_rule : Option ℤ → Rules → Rules × Reply
delete_rule none t = (t, refused 400 "id parameter is required")
delete_rule (some id) t =
    (record t { rows = filter (λ (r : IdentityRule). not (has_id id r)) t.rows }, no_content)

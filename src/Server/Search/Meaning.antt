-- ===== src/Server/Search/Meaning.antt =====
-- What a clause means of a row: AND binds tighter than OR, and a condition on a NULL column does not
-- hold. The tests of single columns and LIKE are the database's, and parameters.
use cuttlefish.Common.{
  ℕ, zero, suc, Char, code, ◌==◌, Bool, true, false, ◌&&◌, ◌||◌, not, String, List, [], ◌∷◌, Option,
  none, some, any, get_elem?, ◌≡◌, str_eq, if◌then◌else◌,
}
use cuttlefish.Common.Text.{◌<>◌}
use cuttlefish.Server.Query.{
  Value, text_value, int_value, Condition, Connector, and_then, or_else, Clause,
}
use cuttlefish.Server.Search.{
  ScopePart, Scope, no_row, every_row, one_of, Item, test, group, within, Where,
}

-- A character that LIKE takes for itself.
abbrev pub is_plain : Char → Bool
is_plain c = not (code c == 92 || code c == b'%' || code c == b'_')

-- LIKE with its escape character, the backslash: a percent sign stands for any text, an escaped
-- character and a plain one for themselves.
pub record Like : Type 0 where
  pub like : String → String → Bool
  pub any_text : (s : String) → like "%" s ≡ true
  pub escaped :
      (c d : Char) (p s : String)
      → like ("\\" <> String.◌∷◌ c p) (String.◌∷◌ d s) ≡ ((code d == code c) && like p s)
  pub escaped_end : (c : Char) (p : String) → like ("\\" <> String.◌∷◌ c p) "" ≡ false
  pub plain :
      (c d : Char) (p s : String)
      → is_plain c ≡ true
      → like (String.◌∷◌ c p) (String.◌∷◌ d s) ≡ ((code d == code c) && like p s)
  pub plain_end : (c : Char) (p : String) → is_plain c ≡ true → like (String.◌∷◌ c p) "" ≡ false

-- The rows, their paths, and whether a column compares so with a value.
pub record Database : Type 1 where
  pub Row : Type 0
  pub path : Row → String
  pub compares : String → String → Value → Row → Bool
  pub patterns : Like

-- The value `$n`.
abbrev pub value_at : List Value → ℕ → Option Value
value_at args zero = none
value_at args (suc n) = get_elem? args n

abbrev pub with_text : (String → Bool) → Option Value → Bool
with_text p none = false
with_text p (some (int_value n)) = false
with_text p (some (text_value s)) = p s

abbrev pub with_value : (Value → Bool) → Option Value → Bool
with_value p none = false
with_value p (some v) = p v

-- A chain, from the conjunction under way.
unfoldable pub chain_from {ℓ} : {A : Type ℓ} → (A → Bool) → Bool → List (Connector × A) → Bool
chain_from holds so_far [] = so_far
chain_from holds so_far ((and_then, a) ∷ rest) = chain_from holds (so_far && holds a) rest
chain_from holds so_far ((or_else, a) ∷ rest) = so_far || chain_from holds (holds a) rest

unfoldable pub chain {ℓ} : {A : Type ℓ} → (A → Bool) → List (Connector × A) → Bool
unfolding chain_from
chain holds [] = true
chain holds ((first, a) ∷ rest) = chain_from holds (holds a) rest

module _ (db : Database) (args : List Value) (row : db.Row) where
  unfoldable pub condition_holds : Condition → Bool
  condition_holds c =
      let plain = with_value (λ v. db.compares c.column c.op v row) (value_at args c.param) in
      if c.negated then not plain else plain

  unfoldable pub part_holds : ScopePart → Bool
  part_holds s =
      with_text (λ t. str_eq (db.path row) t) (value_at args s.exact)
      || with_text (λ p. db.patterns.like p (db.path row)) (value_at args s.below)

  unfoldable pub scope_holds : Scope → Bool
  unfolding part_holds
  scope_holds no_row = false
  scope_holds every_row = true
  scope_holds (one_of parts) = any part_holds parts

  unfoldable pub clause_holds : Clause → Bool
  unfolding chain condition_holds
  clause_holds clause = chain condition_holds clause

  unfoldable pub item_holds : Item → Bool
  unfolding clause_holds scope_holds condition_holds
  item_holds (test c) = condition_holds c
  item_holds (group clause) = clause_holds clause
  item_holds (within scope) = scope_holds scope

  -- Whether the query selects the row.
  unfoldable pub selects : Where → Bool
  unfolding chain item_holds
  selects rows = chain item_holds rows

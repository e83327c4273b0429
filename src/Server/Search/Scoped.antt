-- ===== src/Server/Search/Scoped.antt =====
-- A search selects what its conditions hold of, among what the user may see.
use mathlib.Core.Path.{subst}
use mathlib.Core.List.{append_assoc as list_assoc, append-nil}
use cuttlefish.Common.{
  suc, Bool, ◌&&◌, ◌||◌, String, List, [], ◌∷◌, ◌++◌, Option, none, some, any, length, get_elem?,
  map, All, All-imp, All-of_forall, ◌≡◌, refl, ap, sym, ◌∙◌, arith, str_eq, Bool-cases, inl, inr,
}
use cuttlefish.Common.Int.{ℤ}
use cuttlefish.Browser.{is_restricted}
use cuttlefish.Server.Paths.Canonical.{IsCanonical, is_canonical_iff}
use cuttlefish.Server.Access.{Access, allows, is_within}
use cuttlefish.Server.Query.{
  Column, TextTest, bind_number, bind_text, numeric_op, text_op, parse_number, Go, Value,
  text_value, int_value, Condition, Connector, and_then, or_else, Clause, Rule, Built, built,
  bad_request, build_search_where, build_condition, build_rule, column_of, extend, connector_of,
}
use cuttlefish.Server.Search.{
  ScopePart, Scope, scope_part, scope_values, scope_loop, scope_clause, test, group, within,
  as_item, search_where,
}
use cuttlefish.Server.Search.Meaning.{
  Database, value_at, chain_from, chain, condition_holds, scope_holds, clause_holds, item_holds,
  selects,
}
use cuttlefish.Server.Search.Prefixes.{
  IsGiven, scope_clause-holds, condition_holds-append, get_elem?-at_end,
}

module _ {ℓ κ} {A : Type ℓ} {B : Type κ} where
  chain_from-map :
      (h : B → A) (f : A → Bool) (g : B → Bool) (so_far : Bool) (l : List (Connector × B))
      → All (λ (k : Connector × B). f (h k.1) ≡ g k.1) l
      → chain_from f so_far (map (λ (k : Connector × B). (k.0, h k.1)) l) ≡ chain_from g so_far l
  unfolding chain_from
  chain_from-map h f g b [] e = refl
  chain_from-map h f g b ((and_then, a) ∷ l) (e, es) =
      ap (λ c. chain_from f (b && c) (map (λ (k : Connector × B). (k.0, h k.1)) l)) e
      ∙ chain_from-map h f g (b && g a) l es
  chain_from-map h f g b ((or_else, a) ∷ l) (e, es) =
      ap (λ c. b || chain_from f c (map (λ (k : Connector × B). (k.0, h k.1)) l)) e
      ∙ ap (λ c. b || c) (chain_from-map h f g (g a) l es)

  chain-map :
      (h : B → A) (f : A → Bool) (g : B → Bool) (l : List (Connector × B))
      → All (λ (k : Connector × B). f (h k.1) ≡ g k.1) l
      → chain f (map (λ (k : Connector × B). (k.0, h k.1)) l) ≡ chain g l
  unfolding chain
  chain-map h f g [] e = refl
  chain-map h f g ((k, a) ∷ l) (e, es) =
      ap (λ c. chain_from f c (map (λ (k : Connector × B). (k.0, h k.1)) l)) e
      ∙ chain_from-map h f g (g a) l es

map-same : {A : Type 0} (l : List (Connector × A)) → map (λ (k : Connector × A). (k.0, k.1)) l ≡ l
map-same [] = refl
map-same (k ∷ l) = ap (λ r. k ∷ r) (map-same l)

abbrev Adds : List Value → List Value → Type 0
Adds args args' = (more : List Value) × (args' ≡ args ++ more)

scope_loop-Adds :
    (prefixes : List String) (args : List Value) (parts : List ScopePart)
    → Adds args (scope_loop prefixes args parts).1
unfolding scope_loop
scope_loop-Adds [] args parts = ([], sym (append-nil args))
scope_loop-Adds (p ∷ prefixes) args parts = elim (Bool-cases (str_eq p "/")) [
  | inl e ↦ rw e ([], sym (append-nil args))
  | inr e ↦ rw e (
      let (more, f) =
        scope_loop-Adds prefixes (args ++ scope_values p) (parts ++ scope_part args ∷ []) in
      (scope_values p ++ more, f ∙ list_assoc args (scope_values p) more))
]

scope_clause-Adds :
    (prefixes : List String) (args : List Value) → Adds args (scope_clause prefixes args).1
unfolding scope_clause
scope_clause-Adds [] args = ([], sym (append-nil args))
scope_clause-Adds (p ∷ prefixes) args = scope_loop-Adds (p ∷ prefixes) args []

-- A condition that is built has its value at the end of the list.
abbrev IsBuilt : List Value → Built (Condition × List Value) → Type 0
IsBuilt args (bad_request m) = Unit
IsBuilt args (built (c, args')) =
    (v : Value) × (args' ≡ args ++ v ∷ []) × (c.param ≡ suc (length args))

bind_number-IsBuilt :
    (args : List Value) (c : Column) (operator : String) (op : Option String) (n : Option ℤ)
    → IsBuilt args (bind_number args c operator op n)
bind_number-IsBuilt args c operator none none = tt
bind_number-IsBuilt args c operator (some op) none = tt
bind_number-IsBuilt args c operator none (some n) = tt
bind_number-IsBuilt args c operator (some op) (some n) = (int_value n, refl, refl)

bind_text-IsBuilt :
    (args : List Value) (c : Column) (operator : String) (t : Option TextTest)
    → IsBuilt args (bind_text args c operator t)
bind_text-IsBuilt args c operator none = tt
bind_text-IsBuilt args c operator (some t) = (text_value t.pattern, refl, refl)

build_condition-IsBuilt :
    (go : Go) (c : Column) (operator value : String) (args : List Value)
    → IsBuilt args (build_condition go c operator value args)
unfolding build_condition
build_condition-IsBuilt go c operator value args = elim (Bool-cases c.numeric) [
  | inl e ↦
      rw e (bind_number-IsBuilt args c operator (numeric_op operator) (parse_number go c value))
  | inr e ↦ rw e (bind_text-IsBuilt args c operator (text_op operator value))
]

build_rule-IsBuilt :
    (go : Go) (r : Rule) (o : Option Column) (args : List Value)
    → IsBuilt args (build_rule go r o args)
build_rule-IsBuilt go r none args = tt
build_rule-IsBuilt go r (some c) args = build_condition-IsBuilt go c r.operator r.value args

-- The clause that is built names values of the list.
abbrev AllGiven : List Value → Built (Clause × List Value) → Type 0
AllGiven args (bad_request m) = Unit
AllGiven args (built (clause, args')) = Adds args args' × All (IsGiven args') clause

extend-AllGiven :
    (connector : Connector) (negate : Bool) (args args' : List Value) (c : Condition) (v : Value)
    (rest : Built (Clause × List Value))
    → args' ≡ args ++ v ∷ []
    → c.param ≡ suc (length args)
    → AllGiven args' rest
    → AllGiven args (extend connector negate rest c)
extend-AllGiven connector negate args args' c v (bad_request m) e f h = tt
extend-AllGiven connector negate args args' c v (built (clause, last)) e f ((more, g), h) =
    ((v ∷ more, g ∙ ap (λ l. l ++ more) e ∙ list_assoc args (v ∷ []) more), ((v, given), h))
  where
    given : value_at last c.param ≡ some v
    given =
        ap (value_at last) f
        ∙ ap (λ l. get_elem? l (length args))
            (g ∙ ap (λ l. l ++ more) e ∙ list_assoc args (v ∷ []) more)
        ∙ get_elem?-at_end args v more

rule-AllGiven :
    (go : Go) (r : Rule) (args : List Value) (later : List Value → Built (Clause × List Value))
    (b : Built (Condition × List Value))
    → ((args' : List Value) → AllGiven args' (later args'))
    → IsBuilt args b
    → AllGiven args (elim b [
      | bad_request m ↦ bad_request m
      | built (c, args') ↦ extend (connector_of go r.connector) r.negate (later args') c
    ])
rule-AllGiven go r args later (bad_request m) ih h = tt
rule-AllGiven go r args later (built (c, args')) ih (v, e, f) =
    extend-AllGiven (connector_of go r.connector) r.negate args args' c v (later args') e f
      (ih args')

build_search_where-AllGiven :
    (go : Go) (rules : List Rule) (args : List Value)
    → AllGiven args (build_search_where go rules args)
unfolding build_search_where
build_search_where-AllGiven go [] args = (([], sym (append-nil args)), tt)
build_search_where-AllGiven go (r ∷ rules) args =
    rule-AllGiven go r args (build_search_where go rules) (build_rule go r (column_of r.field) args)
      (build_search_where-AllGiven go rules) (build_rule-IsBuilt go r (column_of r.field) args)

module _ (db : Database) (row : db.Row) where
  clause_holds-append :
      (args more : List Value) (clause : Clause)
      → All (IsGiven args) clause
      → clause_holds db (args ++ more) row clause ≡ clause_holds db args row clause
  unfolding clause_holds
  clause_holds-append args more clause h =
      ap (chain (condition_holds db (args ++ more) row)) (sym (map-same clause))
      ∙ chain-map (λ c. c) (condition_holds db (args ++ more) row) (condition_holds db args row)
          clause (All-imp _ _ clause (condition_holds-append db row args more) h)

  selects-plain :
      (args : List Value) (clause : Clause)
      → selects db args row (map as_item clause) ≡ clause_holds db args row clause
  unfolding selects clause_holds item_holds
  selects-plain args clause =
      chain-map test (item_holds db args row) (condition_holds db args row) clause
        (All-of_forall _ clause (λ k. refl))

  selects-scoped :
      (args : List Value) (clause : Clause) (scope : Scope)
      → selects db args row ((and_then, group clause) ∷ (and_then, within scope) ∷ [])
        ≡ (clause_holds db args row clause && scope_holds db args row scope)
  unfolding selects item_holds chain chain_from
  selects-scoped args clause scope = refl

  search_where-selects :
      (a : Access) (clause : Clause) (args : List Value)
      → All (IsGiven args) clause
      → IsCanonical (db.path row)
      → selects db (search_where a clause args).1 row (search_where a clause args).0
        ≡ (clause_holds db args row clause && allows a (db.path row))
  unfolding search_where allows
  search_where-selects a clause args h c = elim (Bool-cases (is_restricted a.role)) [
    | inr e ↦ rw e (selects-plain args clause ∙ ground arith)
    | inl e ↦ rw e (
        let (more, f) = scope_clause-Adds a.prefixes args in
        let kept =
          ap (λ l. clause_holds db l row clause) f ∙ clause_holds-append args more clause h in
        let scoped =
          scope_clause-holds db row a.prefixes args
          ∙ sym (
              ap (λ b. b && any (is_within (db.path row)) a.prefixes)
                ((is_canonical_iff (db.path row)).1 c)) in
        selects-scoped (scope_clause a.prefixes args).1 clause (scope_clause a.prefixes args).0
        ∙ ap
            (λ b.
              b
              && scope_holds db (scope_clause a.prefixes args).1 row
                  (scope_clause a.prefixes args).0)
            kept
        ∙ ap (λ b. clause_holds db args row clause && b) scoped)
  ]

-- A search selects exactly the rows that its conditions hold of and that the user may see: the scope
-- that is put behind a restricted user's conditions, whatever OR they contain, says of a row with a
-- canonical path what `allows` says of the path, and the values that it adds to the list leave those
-- of the conditions in place. LIKE is as the database documents it.
pub search-allows :
    (go : Go) (rules : List Rule) (a : Access) (db : Database) (row : db.Row) {clause : Clause}
    {args : List Value}
    → build_search_where go rules [] ≡ built (clause, args)
    → IsCanonical (db.path row)
    → selects db (search_where a clause args).1 row (search_where a clause args).0
      ≡ (clause_holds db args row clause && allows a (db.path row))
search-allows go rules a db row {clause} {args} e c =
    search_where-selects db row a clause args
      (subst (AllGiven []) e (build_search_where-AllGiven go rules [])).1 c

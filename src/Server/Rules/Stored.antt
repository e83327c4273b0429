-- ===== src/Server/Rules/Stored.antt =====
-- Two rules of the table never have the same suffix, so their order never matters.
use cuttlefish.Common.{
  Bool, true, false, ◌||◌, not, String, List, [], ◌∷◌, Option, none, some, filter, any, str_eq,
  eq_iff, ◌≡◌, ap, sym, ◌∙◌, arith, All, All-filter, All-member, Bool-cases, inl, inr,
}
use cuttlefish.Common.Int.{ℤ}
use cuttlefish.Common.Text.{includes}
use cuttlefish.Types.{IdentityRule}
use cuttlefish.Server.Rules.{Rules, same_suffix, store, add_lowered, add_rule, has_id, delete_rule}
use cuttlefish.Server.Identity.{map_identity}
use cuttlefish.Server.Identity.Longest.{
  Distinct, SameRules, IsLongest, map_identity-IsLongest, map_identity-order,
}

-- What an admin does to the table.
pub data Edit : Type 0 where
  add : String → String → String → String → Edit
  delete : Option ℤ → Edit

abbrev pub edit : (String → String) → (String → String) → Edit → Rules → Rules
edit trim lower (add match_suffix replace_with by now) t =
    (add_rule trim lower match_suffix replace_with by now t).0
edit trim lower (delete id) t = (delete_rule id t).0

abbrev pub edits : (String → String) → (String → String) → List Edit → Rules → Rules
edits trim lower [] t = t
edits trim lower (e ∷ es) t = edits trim lower es (edit trim lower e t)

abbrev pub no_rules : Rules
no_rules = record { rows = []; next_id = 1 }

abbrev AreApart : List IdentityRule → Type 0
AreApart [] = Unit
AreApart (r ∷ rules) = All (λ s. same_suffix r s ≡ false) rules × AreApart rules

any-false :
    (p : IdentityRule → Bool) (rules : List IdentityRule)
    → any p rules ≡ false
    → All (λ r. p r ≡ false) rules
any-false p [] h = tt
any-false p (r ∷ rules) h = (ground arith, any-false p rules (ground arith))

filter-AreApart :
    (p : IdentityRule → Bool) (rules : List IdentityRule)
    → AreApart rules
    → AreApart (filter p rules)
filter-AreApart p [] h = tt
filter-AreApart p (r ∷ rules) (h, hs) = elim (Bool-cases (p r)) [
  | inl e ↦ rw e (All-filter _ p rules h, filter-AreApart p rules hs)
  | inr e ↦ rw e (filter-AreApart p rules hs)
]

module _ (lower : String → String) (twice : (s : String) → lower (lower s) ≡ lower s) where
  abbrev IsLower : IdentityRule → Type 0
  IsLower r = lower r.match_suffix ≡ r.match_suffix

  abbrev AreStored : List IdentityRule → Type 0
  AreStored rules = All IsLower rules × AreApart rules

  store-AreStored :
      (r : IdentityRule) (t : Rules) → IsLower r → AreStored t.rows → AreStored (store r t).0.rows
  store-AreStored r t l (ls, h) = elim (Bool-cases (any (same_suffix r) t.rows)) [
    | inl e ↦ rw e (ls, h)
    | inr e ↦ rw e ((l, ls), (any-false (same_suffix r) t.rows e, h))
  ]

  add-AreStored :
      (s replace_with by now : String) (t : Rules)
      → AreStored t.rows
      → AreStored (add_lowered (lower s) replace_with by now t).0.rows
  unfolding add_lowered
  add-AreStored s replace_with by now t h = elim (Bool-cases (str_eq (lower s) replace_with)) [
    | inl e ↦ rw e h
    | inr e ↦ rw e (elim (Bool-cases (includes b'/' replace_with || includes 0 replace_with)) [
      | inl d ↦ rw d h
      | inr d ↦ rw d (store-AreStored _ t (twice s) h)
    ])
  ]

  edits-AreStored :
      (trim : String → String) (es : List Edit) (t : Rules)
      → AreStored t.rows
      → AreStored (edits trim lower es t).rows
  unfolding add_rule delete_rule
  edits-AreStored trim [] t h = h
  edits-AreStored trim (add match_suffix replace_with by now ∷ es) t h =
      edits-AreStored trim es _
        (add-AreStored (trim match_suffix) (lower (trim replace_with)) by now t h)
  edits-AreStored trim (delete none ∷ es) t h = edits-AreStored trim es t h
  edits-AreStored trim (delete (some id) ∷ es) t (ls, h) =
      let p = λ (r : IdentityRule). not (has_id id r) in
      edits-AreStored trim es (record t { rows = filter p t.rows })
        (All-filter IsLower p t.rows ls, filter-AreApart p t.rows h)

  same_suffix-eq :
      (r s : IdentityRule)
      → IsLower r
      → IsLower s
      → lower r.match_suffix ≡ lower s.match_suffix
      → same_suffix r s ≡ true
  same_suffix-eq r s k l e = (eq_iff r.match_suffix s.match_suffix).1 (sym k ∙ e ∙ l)

  AreStored-Distinct : (rules : List IdentityRule) → AreStored rules → Distinct lower rules
  AreStored-Distinct [] h r s m n e = absurd m
  AreStored-Distinct (x ∷ rules) ((l, ls), (a, h)) r s (inl m) (inl n) e = sym m ∙ n
  AreStored-Distinct (x ∷ rules) ((l, ls), (a, h)) r s (inr m) (inr n) e =
      AreStored-Distinct rules (ls, h) r s m n e
  AreStored-Distinct (x ∷ rules) ((l, ls), (a, h)) r s (inl m) (inr n) e =
      let no : same_suffix x s ≡ false = All-member _ rules s a n in
      let yes =
        same_suffix-eq x s l (All-member IsLower rules s ls n)
          (ap (λ (q : IdentityRule). lower q.match_suffix) m ∙ e) in
      absurd (ground arith)
  AreStored-Distinct (x ∷ rules) ((l, ls), (a, h)) r s (inr m) (inl n) e =
      let no : same_suffix x r ≡ false = All-member _ rules r a m in
      let yes =
        same_suffix-eq x r l (All-member IsLower rules r ls m)
          (ap (λ (q : IdentityRule). lower q.match_suffix) n ∙ sym e) in
      absurd (ground arith)

-- Whatever rules admins have added and deleted, from a table without rules, the rule with the longest
-- suffix that ends the identity decides its Unix name: every other rule has a shorter suffix, or one
-- that the identity does not end with; and where no suffix ends it, the name is what stands before the
-- sign. In whatever order the database gives the rules, the mapping is the same. What is in lower case
-- already is left so by `lower`.
pub edits-order :
    (trim lower : String → String) (es : List Edit) (identity : String) (others : List IdentityRule)
    → ((s : String) → lower (lower s) ≡ lower s)
    → SameRules (edits trim lower es no_rules).rows others
    → IsLongest lower
        (lower identity)
        (edits trim lower es no_rules).rows
        (map_identity lower identity (edits trim lower es no_rules).rows)
      × (map_identity lower identity (edits trim lower es no_rules).rows
          ≡ map_identity lower identity others)
edits-order trim lower es identity others twice same =
    let rows = (edits trim lower es no_rules).rows in
    let d =
      AreStored-Distinct lower twice rows (edits-AreStored lower twice trim es no_rules (tt, tt)) in
    (
      map_identity-IsLongest lower identity rows d,
      map_identity-order lower identity rows others d same,
    )

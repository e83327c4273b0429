-- ===== src/Server/Identity/Longest.antt =====
-- The longest suffix wins, in whatever order the rules stand.
use mathlib.Core.Path.{subst}
use mathlib.Core.List.{append_assoc, append-nil}
use text.Mathlib.TextLemmas.{nil-append, cons-append, tail-eq_of_cons-eq}
use text.Mathlib.TextPositions.{eq_refl}
use cuttlefish.Common.{
  Char, ℕ, suc, ◌+◌, ◌≤◌, String, List, [], ◌∷◌, ◌++◌, Option, none, some, foldl, ltb, ◌≡◌, ◌≢◌,
  refl, ap, sym, ◌∙◌, arith, str_eq, eq_iff, All, All-append, All-imp, All-member, AnyOf,
  AnyOf-append_left, AnyOf-append_right, AnyOf-All, Bool-cases, Option-cases, ◌⊎◌, inl, inr, ◌↔◌,
}
use cuttlefish.Common.Text.{◌<>◌, text_length}
use cuttlefish.Types.{IdentityRule}
use cuttlefish.Server.Identity.{
  before_at, strip_suffix, Best, challenge, consider, outcome_of, map_identity,
}

strip_suffix-splits :
    (s suffix : String) {stem : String} → strip_suffix s suffix ≡ some stem → s ≡ stem <> suffix
unfolding strip_suffix
strip_suffix-splits String.[] suffix {stem} h = elim (Bool-cases (str_eq "" suffix)) [
  | inl e ↦
      let empty : stem ≡ "" = ground arith in
      (eq_iff "" suffix).0 e ∙ sym (rw empty (nil-append suffix))
  | inr e ↦ absurd (ground arith)
]
strip_suffix-splits (String.◌∷◌ c s) suffix {stem} h =
    elim (Bool-cases (str_eq (String.◌∷◌ c s) suffix)) [
      | inl e ↦
          let empty : stem ≡ "" = ground arith in
          (eq_iff (String.◌∷◌ c s) suffix).0 e ∙ sym (rw empty (nil-append suffix))
      | inr e ↦ elim (Option-cases (strip_suffix s suffix)) [
        | inl n ↦ absurd (ground arith)
        | inr (t, f) ↦
            let same : stem ≡ String.◌∷◌ c t = ground arith in
            ap (String.◌∷◌ c) (strip_suffix-splits s suffix f)
            ∙ sym (rw same (cons-append c t suffix))
      ]
    ]

text_length-append : (s t : String) → text_length (s <> t) ≡ text_length s + text_length t
unfolding text_length
text_length-append String.[] t = rw (nil-append t) (omega arith)
text_length-append (String.◌∷◌ c s) t =
    rw (cons-append c s t) (omega (arith, text_length-append s t))

text_length-cons : (c : Char) (s : String) → text_length (String.◌∷◌ c s) ≡ suc (text_length s)
unfolding text_length
text_length-cons c s = refl

text_length-empty : text_length "" ≡ 0
unfolding text_length
text_length-empty = refl

-- Two ends of one text that are as long are the same.
same_end : (x a y b : String) → x <> a ≡ y <> b → text_length a ≡ text_length b → a ≡ b
same_end String.[] a String.[] b e n = sym (nil-append a) ∙ e ∙ nil-append b
same_end String.[] a (String.◌∷◌ d y) b e n = absurd (
    omega (
      arith,
      ap text_length e,
      text_length-append "" a,
      text_length-append (String.◌∷◌ d y) b,
      text_length-cons d y,
      text_length-empty,
    ))
same_end (String.◌∷◌ c x) a String.[] b e n = absurd (
    omega (
      arith,
      ap text_length e,
      text_length-append "" b,
      text_length-append (String.◌∷◌ c x) a,
      text_length-cons c x,
      text_length-empty,
    ))
same_end (String.◌∷◌ c x) a (String.◌∷◌ d y) b e n =
    same_end x a y b (tail-eq_of_cons-eq (sym (cons-append c x a) ∙ e ∙ cons-append d y b)) n

-- No two rules have the same suffix in lower case.
abbrev pub Distinct : (String → String) → List IdentityRule → Type 0
Distinct lower rules =
    (r s : IdentityRule)
    → AnyOf (λ t. t ≡ r) rules
    → AnyOf (λ t. t ≡ s) rules
    → lower r.match_suffix ≡ lower s.match_suffix
    → r ≡ s

abbrev pub SameRules : List IdentityRule → List IdentityRule → Type 0
SameRules rules others = (r : IdentityRule) → AnyOf (λ t. t ≡ r) rules ↔ AnyOf (λ t. t ≡ r) others

-- `best` has won among the rules seen so far.
module _ (lower : String → String) (id : String) where
  abbrev Ends : IdentityRule → Type 0
  Ends r = (stem : String) × (strip_suffix id (lower r.match_suffix) ≡ some stem)

  abbrev NoLonger : ℕ → IdentityRule → Type 0
  NoLonger n r = Ends r → text_length (lower r.match_suffix) ≤ n

  abbrev IsRule : Best → IdentityRule → Type 0
  IsRule b r =
      (strip_suffix id (lower r.match_suffix) ≡ some b.stem)
      × (b.suffix ≡ lower r.match_suffix)
      × (b.replace_with ≡ lower r.replace_with)

  abbrev IsBest : List IdentityRule → Option Best → Type 0
  IsBest seen none = All (λ r. strip_suffix id (lower r.match_suffix) ≡ none) seen
  IsBest seen (some b) = AnyOf (IsRule b) seen × All (NoLonger (text_length b.suffix)) seen

  beats-all :
      (n m : ℕ) (seen : List IdentityRule) → n ≤ m → All (NoLonger n) seen → All (NoLonger m) seen
  beats-all n m seen le h = All-imp _ _ seen (λ r k ends. omega (arith, k ends)) h

  none-ends :
      (n : ℕ) (seen : List IdentityRule)
      → All (λ r. strip_suffix id (lower r.match_suffix) ≡ none) seen
      → All (NoLonger n) seen
  none-ends n seen h = All-imp _ _ seen (λ r k ends. absurd (not_both k ends.1)) h
    where
      not_both : {o : Option String} {stem : String} → o ≡ none → o ≡ some stem → ⊥
      not_both k e = cc

  challenge-IsBest :
      (seen : List IdentityRule) (best : Option Best) (r : IdentityRule) (o : Option String)
      → strip_suffix id (lower r.match_suffix) ≡ o
      → IsBest seen best
      → IsBest (seen ++ r ∷ []) (challenge lower r best o)
  challenge-IsBest seen none r none e h = All-append _ seen (r ∷ []) h (e, tt)
  challenge-IsBest seen none r (some stem) e h = (
    AnyOf-append_right _ seen (r ∷ []) (inl (e, refl, refl)),
    All-append _ seen (r ∷ []) (none-ends _ seen h) ((λ ends. omega arith), tt),
  )
  challenge-IsBest seen (some b) r none e (found, most) = (
    AnyOf-append_left _ seen (r ∷ []) found,
    All-append _ seen (r ∷ []) most (none-ends _ (r ∷ []) (e, tt)),
  )
  challenge-IsBest seen (some b) r (some stem) e (found, most) =
      elim (Bool-cases (ltb (text_length b.suffix) (text_length (lower r.match_suffix)))) [
        | inl t ↦ rw t (
          AnyOf-append_right _ seen (r ∷ []) (inl (e, refl, refl)),
          All-append _ seen (r ∷ []) (beats-all _ _ seen (ground arith) most)
              ((λ ends. omega arith), tt),
        )
        | inr t ↦ rw t (
          AnyOf-append_left _ seen (r ∷ []) found,
          All-append _ seen (r ∷ []) most ((λ ends. ground arith), tt),
        )
      ]

  loop-IsBest :
      (seen rules : List IdentityRule) (best : Option Best)
      → IsBest seen best
      → IsBest (seen ++ rules) (foldl (consider lower id) best rules)
  unfolding consider
  loop-IsBest seen [] best h = subst (λ l. IsBest l best) (sym (append-nil seen)) h
  loop-IsBest seen (r ∷ rules) best h =
      subst (λ l. IsBest l (foldl (consider lower id) (consider lower id best r) rules))
        (append_assoc seen (r ∷ []) rules)
        (loop-IsBest (seen ++ r ∷ []) rules (consider lower id best r)
          (challenge-IsBest seen best r _ refl h))

  no_rule :
      (rules others : List IdentityRule)
      → ((r : IdentityRule) → AnyOf (λ t. t ≡ r) others → AnyOf (λ t. t ≡ r) rules)
      → All (λ r. strip_suffix id (lower r.match_suffix) ≡ none) rules
      → (b : Best) → AnyOf (IsRule b) others
      → All (NoLonger (text_length b.suffix)) others
      → ⊥
  no_rule rules others into h b found most =
      let (r, m, (e, f, g), le) = AnyOf-All _ _ others found most in
      let unmatched = All-member _ rules r h (into r m) in cc

  same_text :
      (b b' : Best) (r r' : IdentityRule)
      → r ≡ r'
      → IsRule b r
      → IsRule b' r'
      → b.stem <> b.replace_with ≡ b'.stem <> b'.replace_with
  same_text b b' r r' one (e, f, g) (e', f', g') =
      let e'' =
        sym e ∙ ap (λ (t : IdentityRule). strip_suffix id (lower t.match_suffix)) one ∙ e' in
      let g'' = g ∙ ap (λ (t : IdentityRule). lower t.replace_with) one ∙ sym g' in
      let stems : b.stem ≡ b'.stem = cc in
      ap (λ t. t <> b.replace_with) stems ∙ ap (λ t. b'.stem <> t) g''

  outcome-same :
      (rules others : List IdentityRule) (best best' : Option Best)
      → Distinct lower rules
      → SameRules rules others
      → IsBest rules best
      → IsBest others best'
      → outcome_of id best ≡ outcome_of id best'
  outcome-same rules others none none d same h k = refl
  outcome-same rules others none (some b) d same h (found, most) =
      absurd (no_rule rules others (λ r m. (same r).1 m) h b found most)
  outcome-same rules others (some b) none d same (found, most) k =
      absurd (no_rule others rules (λ r m. (same r).0 m) k b found most)
  outcome-same rules others (some b) (some b') d same (found, most) (found', most') =
      let (r, m, (e, f, g), le) = AnyOf-All _ _ rules found most in
      let (r', m', (e', f', g'), le') = AnyOf-All _ _ others found' most' in
      let at_most = All-member _ rules r' most ((same r').1 m') (b'.stem, e') in
      let at_most' = All-member _ others r most' ((same r).0 m) (b.stem, e) in
      let ends =
        same_end b.stem (lower r.match_suffix) b'.stem (lower r'.match_suffix)
          (sym (strip_suffix-splits id (lower r.match_suffix) e)
            ∙ strip_suffix-splits id (lower r'.match_suffix) e')
          (omega (arith, ap text_length f, ap text_length f')) in
      let one : r ≡ r' = d r r' m ((same r').1 m') ends in
      same_text b b' r r' one (e, f, g) (e', f', g')

strip_suffix-append : (stem suffix : String) → strip_suffix (stem <> suffix) suffix ≢ none
unfolding strip_suffix
strip_suffix-append String.[] suffix h =
    by_cases suffix (ap (λ t. strip_suffix t suffix) (sym (nil-append suffix)) ∙ h)
  where
    by_cases : (t : String) → strip_suffix t t ≡ none → ⊥
    by_cases String.[] h = cc
    by_cases (String.◌∷◌ c s) h = let same = eq_refl (String.◌∷◌ c s) in absurd (ground arith)
strip_suffix-append (String.◌∷◌ c t) suffix h =
    let h' = ap (λ s. strip_suffix s suffix) (sym (cons-append c t suffix)) ∙ h in
    elim (Option-cases (strip_suffix (t <> suffix) suffix)) [
      | inl n ↦ strip_suffix-append t suffix n
      | inr (stem, e) ↦ absurd (ground arith)
    ]

-- The identity ends with the suffix of no rule, and the result is what stands before the sign; or the
-- result is that of a rule whose suffix it ends with, and each rule is that one, or has a shorter
-- suffix, or one that the identity does not end with.
abbrev pub IsUnmatched : (String → String) → String → IdentityRule → Type 0
IsUnmatched lower id r = (stem : String) → id ≢ stem <> lower r.match_suffix

abbrev pub Yields : (String → String) → String → List IdentityRule → String → IdentityRule → Type 0
Yields lower id rules result r =
    AnyOf (λ t. t ≡ r) rules
    × ((stem : String) × (id ≡ stem <> lower r.match_suffix)
        × (result ≡ stem <> lower r.replace_with))
    × All
        (λ (s : IdentityRule).
          IsUnmatched lower id s
          ⊎ (s ≡ r)
          ⊎ (suc (text_length (lower s.match_suffix)) ≤ text_length (lower r.match_suffix)))
        rules

abbrev pub IsLongest : (String → String) → String → List IdentityRule → String → Type 0
IsLongest lower id rules result =
    (All (IsUnmatched lower id) rules × (result ≡ before_at id))
    ⊎ ((r : IdentityRule) × Yields lower id rules result r)

All-members :
    (P Q : IdentityRule → Type 0) (rules all_rules : List IdentityRule)
    → ((r : IdentityRule) → AnyOf (λ t. t ≡ r) rules → AnyOf (λ t. t ≡ r) all_rules)
    → ((r : IdentityRule) → AnyOf (λ t. t ≡ r) all_rules → P r → Q r)
    → All P rules
    → All Q rules
All-members P Q [] all_rules into f h = tt
All-members P Q (r ∷ rules) all_rules into f (h, hs) =
    (f r (into r (inl refl)) h, All-members P Q rules all_rules (λ s m. into s (inr m)) f hs)

module _ (lower : String → String) (id : String) where
  IsUnmatched-of_none :
      (r : IdentityRule) → strip_suffix id (lower r.match_suffix) ≡ none → IsUnmatched lower id r
  IsUnmatched-of_none r n stem e =
      strip_suffix-append stem (lower r.match_suffix)
        (ap (λ t. strip_suffix t (lower r.match_suffix)) (sym e) ∙ n)

  compared :
      (rules : List IdentityRule) (b : Best) (r s : IdentityRule)
      → Distinct lower rules
      → AnyOf (λ t. t ≡ r) rules
      → IsRule lower id b r
      → AnyOf (λ t. t ≡ s) rules
      → NoLonger lower id (text_length b.suffix) s
      → IsUnmatched lower id s
        ⊎ (s ≡ r)
        ⊎ (suc (text_length (lower s.match_suffix)) ≤ text_length (lower r.match_suffix))
  compared rules b r s d m (e, f, g) n most =
      elim (Option-cases (strip_suffix id (lower s.match_suffix))) [
        | inl k ↦ inl (IsUnmatched-of_none s k)
        | inr (stem, k) ↦
            let le = most (stem, k) in
            elim (Bool-cases
              (ltb (text_length (lower s.match_suffix)) (text_length (lower r.match_suffix)))) [
                | inl lt ↦ inr (inr (ground arith))
                | inr ge ↦
                    let not_longer : text_length (lower r.match_suffix)
                        ≤ text_length (lower s.match_suffix) =
                      ground arith in
                    let ends =
                      same_end stem (lower s.match_suffix) b.stem (lower r.match_suffix)
                        (sym (strip_suffix-splits id (lower s.match_suffix) k)
                          ∙ strip_suffix-splits id (lower r.match_suffix) e)
                        (omega (arith, ap text_length f, not_longer)) in
                    inr (inl (d s r n m ends))
              ]
      ]

  outcome-IsLongest :
      (rules : List IdentityRule) (best : Option Best)
      → Distinct lower rules
      → IsBest lower id rules best
      → IsLongest lower id rules (outcome_of id best)
  outcome-IsLongest rules none d h = inl (All-imp _ _ rules IsUnmatched-of_none h, refl)
  outcome-IsLongest rules (some b) d (found, most) =
      let (r, m, (e, f, g), le) = AnyOf-All _ _ rules found most in
      inr (
        r,
        (
          m,
          (b.stem, strip_suffix-splits id (lower r.match_suffix) e, ap (λ t. b.stem <> t) g),
          All-members (NoLonger lower id (text_length b.suffix)) _ rules rules (λ s n. n)
              (λ s n k. compared rules b r s d m (e, f, g) n k) most,
        ),
      )

-- The longest suffix wins: where no two rules have the same suffix, in lower case.
pub map_identity-IsLongest :
    (lower : String → String) (identity : String) (rules : List IdentityRule)
    → Distinct lower rules
    → IsLongest lower (lower identity) rules (map_identity lower identity rules)
unfolding map_identity
map_identity-IsLongest lower identity rules d =
    outcome-IsLongest lower (lower identity) rules _ d
      (loop-IsBest lower (lower identity) [] rules none tt)

-- The result is that of the longest suffix, so the order of the rules never matters: two lists of the
-- same rules map every identity alike. No two rules of the list have the same suffix, in lower case.
pub map_identity-order :
    (lower : String → String) (identity : String) (rules others : List IdentityRule)
    → Distinct lower rules
    → SameRules rules others
    → map_identity lower identity rules ≡ map_identity lower identity others
unfolding map_identity
map_identity-order lower identity rules others d same =
    outcome-same lower (lower identity) rules others _ _ d same
      (loop-IsBest lower (lower identity) [] rules none tt)
      (loop-IsBest lower (lower identity) [] others none tt)

-- ===== src/Treemap/Hiding.antt =====
-- fs_ui/src/components/TreemapView.tsx: the entries that a layout draws and hides.
use cuttlefish.Common.{
  ◌+◌, Bool, true, false, ◌&&◌, ◌||◌, not, String, List, [], ◌∷◌, map, filter, any, sum_by, ◌≡◌,
  refl, ap, sym, ◌∙◌, arith, Bool-cases, inl, inr, str_eq, eq_iff, ltb, ◌≢◌,
}
use cuttlefish.Common.Sort.{insert, sort}
use cuttlefish.Types.{Entry}
use cuttlefish.Treemap.{
  Num, Sized, sized_of, larger, effective_size, sizes, has_path, sorted, drawn, layout,
}

module _ (n : Num) where
  has_path-insert :
      (p : String) (s : Sized) (l : List Sized)
      → has_path n (insert larger s l) p ≡ (str_eq s.entry.path p || has_path n l p)
  unfolding insert
  has_path-insert p s [] = refl
  has_path-insert p s (t ∷ l) = elim (Bool-cases (larger t s)) [
    | inl e ↦ rw e (ground (arith, has_path-insert p s l))
    | inr e ↦ rw e refl
  ]

  has_path-sort :
      (p : String) (entries : List Entry)
      → has_path n (sort larger (map sized_of entries)) p
        ≡ any (λ (e : Entry). str_eq e.path p) entries
  unfolding sort
  has_path-sort p [] = refl
  has_path-sort p (e ∷ entries) =
      has_path-insert p (sized_of e) (sort larger (map sized_of entries))
      ∙ ap (λ b. str_eq e.path p || b) (has_path-sort p entries)

  sizes-insert : (s : Sized) (l : List Sized) → sizes n (insert larger s l) ≡ s.size + sizes n l
  unfolding insert
  sizes-insert s [] = refl
  sizes-insert s (t ∷ l) = elim (Bool-cases (larger t s)) [
    | inl e ↦ rw e (omega (arith, sizes-insert s l))
    | inr e ↦ rw e refl
  ]

  sizes-sort :
      (entries : List Entry)
      → sizes n (sort larger (map sized_of entries)) ≡ sum_by effective_size entries
  unfolding sort
  sizes-sort [] = refl
  sizes-sort (e ∷ entries) =
      sizes-insert (sized_of e) (sort larger (map sized_of entries))
      ∙ ap (λ k. effective_size e + k) (sizes-sort entries)

  -- The entries that are left over are those whose path is not among the chosen ones.
  has_path-left :
      (chosen l : List Sized) (p : String)
      → has_path n (filter (λ (s : Sized). not (has_path n chosen s.entry.path)) l) p
        ≡ (has_path n l p && not (has_path n chosen p))
  has_path-left chosen [] p = refl
  has_path-left chosen (s ∷ l) p = elim (Bool-cases (has_path n chosen s.entry.path)) [
    | inl e ↦ rw e (
        ground (
          arith,
          has_path-left chosen l p,
          eq_iff s.entry.path p,
          ap (has_path n chosen) ((eq_iff s.entry.path p).0 _),
          e,
        ))
    | inr e ↦ rw e (
        ground (
          arith,
          has_path-left chosen l p,
          eq_iff s.entry.path p,
          ap (has_path n chosen) ((eq_iff s.entry.path p).0 _),
          e,
        ))
  ]

-- What a layout accounts for, of the entries and the ones that are drawn.
abbrev pub Accounts : (n : Num) → List Entry → n.N → n.N → Type 0
Accounts n entries width height =
    ((p : String)
      → any (λ (e : Entry). str_eq e.path p) entries ≡ (
          has_path n (drawn n (sorted n entries) (n.times width height)) p
          || has_path n (layout n entries width height).hidden p))
    × ((p : String)
        → (has_path n (drawn n (sorted n entries) (n.times width height)) p
            && has_path n (layout n entries width height).hidden p)
          ≡ false)
    × ((layout n entries width height).grand_total ≡ sum_by effective_size entries)

false-ne-true : false ≢ true
false-ne-true = λ e. cc

drawn_or_left : (a c : Bool) → (c ≡ true → a ≡ true) → a ≡ (c || (a && not c))
drawn_or_left a c h = ground arith

not_both : (a c : Bool) → (c && (a && not c)) ≡ false
not_both true true = refl
not_both true false = refl
not_both false true = refl
not_both false false = refl

has_path-filter :
    (n : Num) (q : Sized → Bool) (l : List Sized) (p : String)
    → has_path n (filter q l) p ≡ true
    → has_path n l p ≡ true
has_path-filter n q [] p h = h
has_path-filter n q (s ∷ l) p h = ground (arith, has_path-filter n q l p)

has_path-drawn :
    (n : Num) (l : List Sized) (area : n.N) (p : String)
    → has_path n (drawn n l area) p ≡ true
    → has_path n l p ≡ true
unfolding drawn
has_path-drawn n l area p h = elim (Bool-cases (n.less (n.of_nat 0) area && ltb 0 (sizes n l))) [
  | inl e ↦ has_path-filter n _ l p (rw (e, drawn) at h)
  | inr e ↦ absurd (false-ne-true (rw (e, drawn) at h))
]

-- A path of the directory is that of an entry which is chosen to be drawn or listed as hidden, and
-- never both; no other path is; and the total is the sum of all the entries' sizes.
pub layout-Accounts :
    (n : Num) (entries : List Entry) (width height : n.N) → Accounts n entries width height
unfolding layout sorted
layout-Accounts n entries width height =
    let all = sort larger (map sized_of entries) in
    let chosen = drawn n all (n.times width height) in
    (
      λ p.
          sym (has_path-sort n p entries)
          ∙ drawn_or_left _ _ (has_path-drawn n all _ p)
          ∙ ap (λ b. has_path n chosen p || b) (sym (has_path-left n chosen all p)),
      λ p.
          ap (λ b. has_path n chosen p && b) (has_path-left n chosen all p)
          ∙ not_both (has_path n all p) (has_path n chosen p),
      sizes-sort n entries,
    )

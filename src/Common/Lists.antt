-- ===== src/Common/Lists.antt =====
-- Lists measured and indexed by native numbers, and the array methods that take a Boolean test.
use Prim.Native.Nat.{ℕ, zero, suc, ◌+◌, ◌≤◌, min}
use mathlib.Core.Path.{◌≡◌, refl, ap, subst}
use mathlib.Core.Bool.{Bool, true, false, ◌&&◌, ◌||◌}
use mathlib.Core.Logic.{◌⊎◌, inl, inr}
use mathlib.Core.List.{List, [], ◌∷◌, ◌++◌, map}
use mathlib.Core.Option.{Option, none, some}
use native.Mathlib.Omega.{arith}
use cuttlefish.Common.Tests.{if◌then◌else◌, Bool-cases, and-eq-true}

module _ {ℓ} {A : Type ℓ} where
  abbrev pub length : List A → ℕ
  length [] = 0
  length (x ∷ xs) = suc (length xs)

  abbrev pub get_elem? : List A → ℕ → Option A
  get_elem? [] i = none
  get_elem? (x ∷ xs) zero = some x
  get_elem? (x ∷ xs) (suc i) = get_elem? xs i

  abbrev pub take : ℕ → List A → List A
  take zero xs = []
  take (suc n) [] = []
  take (suc n) (x ∷ xs) = x ∷ take n xs

  abbrev pub drop : ℕ → List A → List A
  drop zero xs = xs
  drop (suc n) [] = []
  drop (suc n) (x ∷ xs) = drop n xs

  -- The list without its i-th element: `xs.filter((_, j) => j !== i)`.
  abbrev pub remove_at : ℕ → List A → List A
  remove_at i [] = []
  remove_at zero (x ∷ xs) = xs
  remove_at (suc i) (x ∷ xs) = x ∷ remove_at i xs

  abbrev pub filter : (A → Bool) → List A → List A
  filter p [] = []
  filter p (x ∷ xs) = if p x then x ∷ filter p xs else filter p xs

  -- `Array.prototype.some`
  abbrev pub any : (A → Bool) → List A → Bool
  any p [] = false
  any p (x ∷ xs) = p x || any p xs

  abbrev pub all : (A → Bool) → List A → Bool
  all p [] = true
  all p (x ∷ xs) = p x && all p xs

  abbrev pub find? : (A → Bool) → List A → Option A
  find? p [] = none
  find? p (x ∷ xs) = if p x then some x else find? p xs

  abbrev pub get_last? : List A → Option A
  get_last? [] = none
  get_last? (x ∷ []) = some x
  get_last? (x ∷ y ∷ xs) = get_last? (y ∷ xs)

  abbrev pub head? : List A → Option A
  head? [] = none
  head? (x ∷ xs) = some x

  abbrev pub sum_by : (A → ℕ) → List A → ℕ
  sum_by f [] = 0
  sum_by f (x ∷ xs) = f x + sum_by f xs

  abbrev pub All {κ} : (A → Type κ) → List A → Type κ
  All P [] = Unit
  All P (x ∷ xs) = P x × All P xs

-- Some element has the property.
abbrev pub AnyOf {ℓ} : {A : Type ℓ} → (A → Type 0) → List A → Type 0
AnyOf P [] = ⊥
AnyOf P (x ∷ xs) = P x ⊎ AnyOf P xs

module _ {ℓ} {A : Type ℓ} where
  pub length-append : (xs ys : List A) → length (xs ++ ys) ≡ length xs + length ys
  length-append [] ys = omega arith
  length-append (x ∷ xs) ys = omega (arith, length-append xs ys)

  pub length-take : (n : ℕ) (xs : List A) → length (take n xs) ≡ min n (length xs)
  length-take zero xs = omega arith
  length-take (suc n) [] = omega arith
  length-take (suc n) (x ∷ xs) = omega (arith, length-take n xs)

  pub take-append-drop : (n : ℕ) (xs : List A) → take n xs ++ drop n xs ≡ xs
  take-append-drop zero xs = refl
  take-append-drop (suc n) [] = refl
  take-append-drop (suc n) (x ∷ xs) = ap (λ t. x ∷ t) (take-append-drop n xs)

  pub length-map {κ} : {B : Type κ} (f : A → B) (xs : List A) → length (map f xs) ≡ length xs
  length-map f [] = refl
  length-map f (x ∷ xs) = ap suc (length-map f xs)

  pub length-filter-le : (p : A → Bool) (xs : List A) → length (filter p xs) ≤ length xs
  length-filter-le p [] = omega arith
  length-filter-le p (x ∷ xs) = ground (arith, length-filter-le p xs)

  -- What the test accepts is kept, and nothing else is.
  pub filter-all : (p : A → Bool) (xs : List A) → All (λ x. p x ≡ true) (filter p xs)
  filter-all p [] = tt
  filter-all p (x ∷ xs) = ground (arith, filter-all p xs)

  pub filter-eq_self : (p : A → Bool) (xs : List A) → All (λ x. p x ≡ true) xs → filter p xs ≡ xs
  filter-eq_self p [] h = refl
  filter-eq_self p (x ∷ xs) h = ground (arith, filter-eq_self p xs h.1)

  pub All-append {κ} : (P : A → Type κ) (xs ys : List A) → All P xs → All P ys → All P (xs ++ ys)
  All-append P [] ys hx hy = hy
  All-append P (x ∷ xs) ys hx hy = (hx.0, All-append P xs ys hx.1 hy)

  pub All-filter {κ} :
      (P : A → Type κ) (p : A → Bool) (xs : List A) → All P xs → All P (filter p xs)
  All-filter P p [] h = tt
  All-filter P p (x ∷ xs) h = elim (Bool-cases (p x)) [
    | inl e ↦ rw e (h.0, All-filter P p xs h.1)
    | inr e ↦ rw e (All-filter P p xs h.1)
  ]

  pub All-map {κ μ} :
      {B : Type κ} (P : B → Type μ) (f : A → B) (xs : List A)
      → All (λ x. P (f x)) xs
      → All P (map f xs)
  All-map P f [] h = tt
  All-map P f (x ∷ xs) h = (h.0, All-map P f xs h.1)

  pub all-All : (p : A → Bool) (xs : List A) → all p xs ≡ true → All (λ x. p x ≡ true) xs
  all-All p [] h = tt
  all-All p (x ∷ xs) h = let both = and-eq-true (p x) (all p xs) h in (both.0, all-All p xs both.1)

  pub All-of_forall {κ} : (P : A → Type κ) (xs : List A) → ((x : A) → P x) → All P xs
  All-of_forall P [] f = tt
  All-of_forall P (x ∷ xs) f = (f x, All-of_forall P xs f)

  pub All-imp {κ μ} :
      (P : A → Type κ) (Q : A → Type μ) (xs : List A) → ((x : A) → P x → Q x) → All P xs → All Q xs
  All-imp P Q [] f h = tt
  All-imp P Q (x ∷ xs) f h = (f x h.0, All-imp P Q xs f h.1)

  pub find?-holds : (p : A → Bool) (xs : List A) {x : A} → find? p xs ≡ some x → p x ≡ true
  find?-holds p [] {x} h = cc
  find?-holds p (y ∷ xs) {x} h = ground (arith, find?-holds p xs {x = x})

  pub find?-fails : (p : A → Bool) (xs : List A) → find? p xs ≡ none → All (λ x. p x ≡ false) xs
  find?-fails p [] h = tt
  find?-fails p (x ∷ xs) h = elim (Bool-cases (p x)) [
    | inl e ↦ absurd (ground arith)
    | inr e ↦ (e, find?-fails p xs (ground arith))
  ]

  pub find?-none : (p : A → Bool) (xs : List A) → All (λ x. p x ≡ false) xs → find? p xs ≡ none
  find?-none p [] h = refl
  find?-none p (x ∷ xs) (e, h) = rw e (find?-none p xs h)

  pub sum_by-append : (f : A → ℕ) (xs ys : List A) → sum_by f (xs ++ ys) ≡ sum_by f xs + sum_by f ys
  sum_by-append f [] ys = omega arith
  sum_by-append f (x ∷ xs) ys = omega (arith, sum_by-append f xs ys)

  -- What holds of every element holds of the one at an index.
  pub All-get_elem? {κ} :
      (P : A → Type κ) (i : ℕ) (xs : List A) {x : A} → All P xs → get_elem? xs i ≡ some x → P x
  All-get_elem? P i [] h e = cc
  All-get_elem? P zero (y ∷ xs) {x} h e = let same : y ≡ x = cc in subst P same h.0
  All-get_elem? P (suc i) (y ∷ xs) h e = All-get_elem? P i xs h.1 e

  pub All-remove_at {κ} : (P : A → Type κ) (i : ℕ) (xs : List A) → All P xs → All P (remove_at i xs)
  All-remove_at P i [] h = tt
  All-remove_at P zero (x ∷ xs) h = h.1
  All-remove_at P (suc i) (x ∷ xs) h = (h.0, All-remove_at P i xs h.1)

  -- Removing an element that fails the test.
  pub any-remove_at :
      (p : A → Bool) (i : ℕ) (xs : List A) {x : A}
      → get_elem? xs i ≡ some x
      → p x ≡ false
      → any p (remove_at i xs) ≡ any p xs
  any-remove_at p i [] e n = refl
  any-remove_at p zero (y ∷ xs) {x} e n =
      let same : x ≡ y = cc in
      let n' : p y ≡ false = subst (λ z. p z ≡ false) same n in ground (arith, n')
  any-remove_at p (suc i) (y ∷ xs) {x} e n = ground (arith, any-remove_at p i xs {x = x} e n)

  pub filter-append :
      (p : A → Bool) (xs ys : List A) → filter p (xs ++ ys) ≡ filter p xs ++ filter p ys
  filter-append p [] ys = refl
  filter-append p (x ∷ xs) ys = ground (arith, filter-append p xs ys)

  pub any-append : (p : A → Bool) (xs ys : List A) → any p (xs ++ ys) ≡ (any p xs || any p ys)
  any-append p [] ys = refl
  any-append p (x ∷ xs) ys = ground (arith, any-append p xs ys)

module _ {A : Type 0} where
  pub AnyOf-append_right : (P : A → Type 0) (xs ys : List A) → AnyOf P ys → AnyOf P (xs ++ ys)
  AnyOf-append_right P [] ys h = h
  AnyOf-append_right P (x ∷ xs) ys h = inr (AnyOf-append_right P xs ys h)

  pub AnyOf-append_left : (P : A → Type 0) (xs ys : List A) → AnyOf P xs → AnyOf P (xs ++ ys)
  AnyOf-append_left P [] ys h = absurd h
  AnyOf-append_left P (x ∷ xs) ys (inl h) = inl h
  AnyOf-append_left P (x ∷ xs) ys (inr h) = inr (AnyOf-append_left P xs ys h)

  -- An element with the property is in the list, and has what all of the list have.
  pub AnyOf-All {μ} :
      (P : A → Type 0) (Q : A → Type μ) (xs : List A)
      → AnyOf P xs
      → All Q xs
      → (x : A) × AnyOf (λ y. y ≡ x) xs × P x × Q x
  AnyOf-All P Q [] h k = absurd h
  AnyOf-All P Q (x ∷ xs) (inl h) (k, ks) = (x, inl refl, h, k)
  AnyOf-All P Q (x ∷ xs) (inr h) (k, ks) =
      let (y, m, p, q) = AnyOf-All P Q xs h ks in (y, inr m, p, q)

  pub All-member {κ} :
      (P : A → Type κ) (xs : List A) (x : A) → All P xs → AnyOf (λ y. y ≡ x) xs → P x
  All-member P [] x h m = absurd m
  All-member P (y ∷ ys) x (h, hs) (inl e) = subst P e h
  All-member P (y ∷ ys) x (h, hs) (inr m) = All-member P ys x hs m

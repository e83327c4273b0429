-- ===== src/Common/Sort.antt =====
-- `Array.prototype.sort` with a comparison function: a stable sort, so an element moves in front
-- of another only if the comparison puts it strictly first.
use Prim.Native.Nat.{suc}
use native.Mathlib.Omega.{arith}
use mathlib.Core.Path.{◌≡◌, refl, ap, ◌∙◌}
use mathlib.Core.Bool.{Bool, true, false, ◌||◌}
use mathlib.Core.Logic.{inl, inr}
use mathlib.Core.List.{List, [], ◌∷◌, Perm}
use mathlib.Core.List.Perm
use cuttlefish.Common.Tests.{if◌then◌else◌, Bool-cases}
use cuttlefish.Common.Lists.{All, All-imp, any, length}

module _ {ℓ} {A : Type ℓ} where
  -- `before x y`: the comparison of x and y is negative.
  unfoldable pub insert : (A → A → Bool) → A → List A → List A
  insert before x [] = x ∷ []
  insert before x (y ∷ ys) = if before y x then y ∷ insert before x ys else x ∷ y ∷ ys

  -- The last element is inserted first, and each goes in front of those that compare equal.
  unfoldable pub sort : (A → A → Bool) → List A → List A
  unfolding insert
  sort before [] = []
  sort before (x ∷ xs) = insert before x (sort before xs)

  -- No element stands behind one that it should precede.
  abbrev pub IsSorted : (A → A → Bool) → List A → Type ℓ
  IsSorted before [] = Unit
  IsSorted before (x ∷ xs) = All (λ y. before y x ≡ false) xs × IsSorted before xs

  pub insert-perm :
      (before : A → A → Bool) (x : A) (ys : List A) → Perm (insert before x ys) (x ∷ ys)
  unfolding insert
  insert-perm before x [] = Perm.refl (x ∷ [])
  insert-perm before x (y ∷ ys) = elim (Bool-cases (before y x)) [
    | inl e ↦ rw e (Perm.trans (Perm.cons y (insert-perm before x ys)) (Perm.swap x y ys))
    | inr e ↦ rw e (Perm.refl _)
  ]

  -- Sorting permutes.
  pub sort-perm : (before : A → A → Bool) (xs : List A) → Perm (sort before xs) xs
  unfolding sort
  sort-perm before [] = Perm.refl []
  sort-perm before (x ∷ xs) =
      Perm.trans (insert-perm before x (sort before xs)) (Perm.cons x (sort-perm before xs))

  length-insert :
      (before : A → A → Bool) (x : A) (ys : List A) → length (insert before x ys) ≡ suc (length ys)
  unfolding insert
  length-insert before x [] = refl
  length-insert before x (y ∷ ys) = ground (arith, length-insert before x ys)

  pub length-sort : (before : A → A → Bool) (xs : List A) → length (sort before xs) ≡ length xs
  unfolding sort
  length-sort before [] = refl
  length-sort before (x ∷ xs) =
      omega (arith, length-insert before x (sort before xs), length-sort before xs)

  any-insert :
      (before : A → A → Bool) (p : A → Bool) (x : A) (ys : List A)
      → any p (insert before x ys) ≡ (p x || any p ys)
  unfolding insert
  any-insert before p x [] = refl
  any-insert before p x (y ∷ ys) = ground (arith, any-insert before p x ys)

  pub any-sort :
      (before : A → A → Bool) (p : A → Bool) (xs : List A) → any p (sort before xs) ≡ any p xs
  unfolding sort
  any-sort before p [] = refl
  any-sort before p (x ∷ xs) =
      any-insert before p x (sort before xs) ∙ ap (λ b. p x || b) (any-sort before p xs)

  pub insert-All {κ} :
      (before : A → A → Bool) (P : A → Type κ) (x : A) (ys : List A)
      → P x
      → All P ys
      → All P (insert before x ys)
  unfolding insert
  insert-All before P x [] p h = (p, tt)
  insert-All before P x (y ∷ ys) p h = elim (Bool-cases (before y x)) [
    | inl e ↦ rw e (h.0, insert-All before P x ys p h.1)
    | inr e ↦ rw e (p, h)
  ]

  pub sort-All {κ} :
      (before : A → A → Bool) (P : A → Type κ) (xs : List A) → All P xs → All P (sort before xs)
  unfolding sort
  sort-All before P [] h = tt
  sort-All before P (x ∷ xs) h =
      insert-All before P x (sort before xs) h.0 (sort-All before P xs h.1)

-- The comparison is a strict weak order, as the standard asks of a comparison function.
pub record IsOrder {ℓ} {A : Type ℓ} (before : A → A → Bool) : Type ℓ where
  pub asym : (x y : A) → before x y ≡ true → before y x ≡ false
  pub trans_not : (x y z : A) → before y x ≡ false → before z y ≡ false → before z x ≡ false

module _ {ℓ} {A : Type ℓ} (before : A → A → Bool) (o : IsOrder before) where
  insert-IsSorted :
      (x : A) (ys : List A) → IsSorted before ys → IsSorted before (insert before x ys)
  unfolding insert
  insert-IsSorted x [] h = (tt, tt)
  insert-IsSorted x (y ∷ ys) h = elim (Bool-cases (before y x)) [
    | inl e ↦ rw e (
      insert-All before (λ z. before z y ≡ false) x ys (o.asym y x e) h.0,
      insert-IsSorted x ys h.1,
    )
    | inr e ↦ rw e ((e, All-imp _ _ ys (λ z k. o.trans_not x y z e k) h.0), h)
  ]

  -- The result is in order.
  pub sort-IsSorted : (xs : List A) → IsSorted before (sort before xs)
  unfolding sort
  sort-IsSorted [] = tt
  sort-IsSorted (x ∷ xs) = insert-IsSorted x (sort before xs) (sort-IsSorted xs)

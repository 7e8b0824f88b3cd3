-- ===== src/Prelude/Sorted.antt =====
-- On the stable sort: what it keeps, and the order of its result.
use Prim.Native.Nat.{ℕ, ◌+◌}
use mathlib.Core.Path.{◌≡◌, refl, ◌∙◌}
use mathlib.Core.Logic.{inl, inr}
use mathlib.Core.Bool.{Bool, true, false}
use mathlib.Core.List.{List, [], ◌∷◌}
use native.Mathlib.Omega.{arith}
use synpeer.Prelude.Bools.{Bool-cases}
use synpeer.Prelude.Lists.{length, sum_by, All}
use synpeer.Prelude.Sort.{sort, insert_sorted}

module _ {ℓ} {A : Type ℓ} (le : A → A → Bool) where
  sum_by-insert_sorted :
      (f : A → ℕ) (x : A) (ys : List A) → sum_by f (insert_sorted le x ys) ≡ f x + sum_by f ys
  unfolding insert_sorted
  sum_by-insert_sorted f x [] = omega arith
  sum_by-insert_sorted f x (y ∷ ys) = ground (arith, sum_by-insert_sorted f x ys)

  pub sum_by-sort : (f : A → ℕ) (xs : List A) → sum_by f (sort le xs) ≡ sum_by f xs
  unfolding sort
  sum_by-sort f [] = refl
  sum_by-sort f (x ∷ xs) = sum_by-insert_sorted f x (sort le xs) ∙ omega (arith, sum_by-sort f xs)

  length-insert_sorted : (x : A) (ys : List A) → length (insert_sorted le x ys) ≡ length ys + 1
  unfolding insert_sorted
  length-insert_sorted x [] = omega arith
  length-insert_sorted x (y ∷ ys) = ground (arith, length-insert_sorted x ys)

  pub length-sort : (xs : List A) → length (sort le xs) ≡ length xs
  unfolding sort
  length-sort [] = refl
  length-sort (x ∷ xs) = length-insert_sorted x (sort le xs) ∙ omega (arith, length-sort xs)

  pub insert_sorted-All {κ} :
      (P : A → Type κ) (x : A) (ys : List A) → P x → All P ys → All P (insert_sorted le x ys)
  unfolding insert_sorted
  insert_sorted-All P x [] px h = (px, tt)
  insert_sorted-All P x (y ∷ ys) px h = elim (Bool-cases (le x y)) [
    | inl b ↦ rw (All, insert_sorted, b) (px, h)
    | inr b ↦ rw (All, insert_sorted, b) (h.0, insert_sorted-All P x ys px h.1)
  ]

  pub sort-All {κ} : (P : A → Type κ) (xs : List A) → All P xs → All P (sort le xs)
  unfolding sort
  sort-All P [] h = tt
  sort-All P (x ∷ xs) h = insert_sorted-All P x (sort le xs) h.0 (sort-All P xs h.1)

abbrev pub IsSortedBy {ℓ} : {A : Type ℓ} → (A → A → Bool) → List A → Type 0
IsSortedBy le [] = Unit
IsSortedBy le (x ∷ xs) = All (λ y. le x y ≡ true) xs × IsSortedBy le xs

module _ {ℓ} {A : Type ℓ} (le : A → A → Bool) (total : (x y : A) → le x y ≡ false → le y x ≡ true)
    (trans : (x y z : A) → le x y ≡ true → le y z ≡ true → le x z ≡ true) where
  before-All :
      (x y : A) (ys : List A)
      → le x y ≡ true
      → All (λ z. le y z ≡ true) ys
      → All (λ z. le x z ≡ true) ys
  before-All x y [] b h = tt
  before-All x y (z ∷ ys) b h = (trans x y z b h.0, before-All x y ys b h.1)

  insert_sorted-IsSortedBy :
      (x : A) (ys : List A) → IsSortedBy le ys → IsSortedBy le (insert_sorted le x ys)
  unfolding insert_sorted
  insert_sorted-IsSortedBy x [] h = (tt, tt)
  insert_sorted-IsSortedBy x (y ∷ ys) h = elim (Bool-cases (le x y)) [
    | inl b ↦ rw (IsSortedBy, insert_sorted, b) ((b, before-All x y ys b h.0), h)
    | inr b ↦
        rw (IsSortedBy, insert_sorted, b)
          (
            insert_sorted-All le (λ z. le y z ≡ true) x ys (total x y b) h.0,
            insert_sorted-IsSortedBy x ys h.1,
          )
  ]

  pub sort-IsSortedBy : (xs : List A) → IsSortedBy le (sort le xs)
  unfolding sort
  sort-IsSortedBy [] = tt
  sort-IsSortedBy (x ∷ xs) = insert_sorted-IsSortedBy x (sort le xs) (sort-IsSortedBy xs)

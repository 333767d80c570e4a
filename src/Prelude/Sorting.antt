-- ===== src/Prelude/Sorting.antt =====
-- Python's `sorted`: a stable insertion sort by a test.

use mathlib.Core.Path.{◌≡◌}
use mathlib.Core.Logic.{◌⊎◌, inl, inr}
use mathlib.Core.Bool.{Bool, true, false}
use mathlib.Core.List.{List, [], ◌∷◌}
use parallel_reduction_bench.Prelude.Tests.{Bool-cases, if◌then◌else◌}
use parallel_reduction_bench.Prelude.Predicates.{All, All-In, All-self, All-imp, In}

-- Each element is at most all behind it.
abbrev pub IsSorted {ℓ} : {A : Type ℓ} → (A → A → Bool) → List A → Type ℓ
IsSorted le [] = Unit
IsSorted le (x ∷ xs) = All (λ y. le x y ≡ true) xs × IsSorted le xs

module _ {ℓ} {A : Type ℓ} (le : A → A → Bool) where
  unfoldable pub insert : A → List A → List A
  insert a [] = a ∷ []
  insert a (x ∷ xs) = let rest = insert a xs in if le a x then a ∷ x ∷ xs else x ∷ rest

  unfoldable pub sort : List A → List A
  unfolding insert
  sort [] = []
  sort (x ∷ xs) = insert x (sort xs)

  pub insert-All {κ} : (P : A → Type κ) (a : A) (xs : List A) → P a → All P xs → All P (insert a xs)
  unfolding insert
  insert-All P a [] p h = (p, tt)
  insert-All P a (x ∷ xs) p h = elim (Bool-cases (le a x)) [
    | inl e ↦ rw e (p, h)
    | inr e ↦ rw e (h.0, insert-All P a xs p h.1)
  ]

  pub sort-All {κ} : (P : A → Type κ) (xs : List A) → All P xs → All P (sort xs)
  unfolding sort
  sort-All P [] h = tt
  sort-All P (x ∷ xs) h = insert-All P x (sort xs) h.0 (sort-All P xs h.1)

module _ {A : Type 0} (le : A → A → Bool) (b : A) where
  In-insert_swap : (a x : A) (xs : List A) → (b ≡ a) ⊎ In b (x ∷ xs) → (b ≡ x) ⊎ ((b ≡ a) ⊎ In b xs)
  In-insert_swap a x xs (inl p) = inr (inl p)
  In-insert_swap a x xs (inr (inl p)) = inl p
  In-insert_swap a x xs (inr (inr p)) = inr (inr p)

  pub In-insert : (a : A) (xs : List A) → (b ≡ a) ⊎ In b xs → In b (insert le a xs)
  unfolding insert
  In-insert a [] m = m
  In-insert a (x ∷ xs) m = elim (Bool-cases (le a x)) [
    | inl e ↦ rw e m
    | inr e ↦
        rw e (elim (In-insert_swap a x xs m) [ inl p ↦ inl p | inr p ↦ inr (In-insert a xs p) ])
  ]

  pub In-sort : (xs : List A) → In b xs → In b (sort le xs)
  unfolding sort
  In-sort [] m = absurd m
  In-sort (x ∷ xs) (inl e) = In-insert x (sort le xs) (inl e)
  In-sort (x ∷ xs) (inr m) = In-insert x (sort le xs) (inr (In-sort xs m))

  pub In-of_In-sort : (xs : List A) → In b (sort le xs) → In b xs
  In-of_In-sort xs =
      All-In (λ x. In x xs) b (sort le xs) (sort-All le (λ x. In x xs) xs (All-self xs))

module _ {ℓ} {A : Type ℓ} (le : A → A → Bool) (total : (a b : A) → le a b ≡ false → le b a ≡ true)
    (trans : (a b c : A) → le a b ≡ true → le b c ≡ true → le a c ≡ true) where
  pub insert-IsSorted : (a : A) (xs : List A) → IsSorted le xs → IsSorted le (insert le a xs)
  unfolding insert
  insert-IsSorted a [] h = (tt, tt)
  insert-IsSorted a (x ∷ xs) h = elim (Bool-cases (le a x)) [
    | inl e ↦ rw e ((e, All-imp xs (λ y. trans a x y e) h.0), h)
    | inr e ↦
        rw e (insert-All le (λ y. le x y ≡ true) a xs (total a x e) h.0, insert-IsSorted a xs h.1)
  ]

  pub sort-IsSorted : (xs : List A) → IsSorted le (sort le xs)
  unfolding sort
  sort-IsSorted [] = tt
  sort-IsSorted (x ∷ xs) = insert-IsSorted x (sort le xs) (sort-IsSorted xs)

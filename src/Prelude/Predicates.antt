-- ===== src/Prelude/Predicates.antt =====
-- Predicates on lists by recursion, which the tactics read.
use mathlib.Core.Path.{◌≡◌, refl, sym, ap, ◌∙◌}
use mathlib.Core.Logic.{◌⊎◌, inl, inr}
use mathlib.Core.Bool.{Bool, true, false}
use mathlib.Core.Option.{none, some}
use mathlib.Core.List.{List, [], ◌∷◌, ◌++◌, map}
use native.Mathlib.Omega.{arith}
use parallel_reduction_bench.Prelude.Tests.{Bool-cases, Option-cases}
use parallel_reduction_bench.Prelude.Lists.{filter, find, find_last}
use parallel_reduction_bench.Prelude.Classes.{Eq, ◌==◌, contains, dedupe, contains-dedupe}

abbrev pub All {ℓ κ} : {A : Type ℓ} → (A → Type κ) → List A → Type κ
All P [] = Unit
All P (x ∷ xs) = P x × All P xs

-- `x` stands in the list, with its position.
abbrev pub In : {A : Type 0} → A → List A → Type 0
In a [] = ⊥
In a (x ∷ xs) = (a ≡ x) ⊎ In a xs

module _ {ℓ κ} {A : Type ℓ} (P : A → Type κ) where
  pub All-append : (xs ys : List A) → All P xs → All P ys → All P (xs ++ ys)
  All-append [] ys hx hy = hy
  All-append (x ∷ xs) ys hx hy = (hx.0, All-append xs ys hx.1 hy)

  pub All-of : (xs : List A) → ((a : A) → P a) → All P xs
  All-of [] h = tt
  All-of (x ∷ xs) h = (h x, All-of xs h)

module _ {κ} {A : Type 0} (P : A → Type κ) (a : A) where
  pub All-In : (xs : List A) → All P xs → In a xs → P a
  All-In [] h m = absurd m
  All-In (x ∷ xs) h (inl e) = rw e h.0
  All-In (x ∷ xs) h (inr m) = All-In xs h.1 m

module _ {ℓ κ} {A : Type ℓ} (P : A → Type κ) where
  pub All-filter : (p : A → Bool) (xs : List A) → All P xs → All P (filter p xs)
  unfolding filter
  All-filter p [] h = tt
  All-filter p (x ∷ xs) h = elim (Bool-cases (p x)) [
    | inl e ↦ rw e (h.0, All-filter p xs h.1)
    | inr e ↦ rw e (All-filter p xs h.1)
  ]

pub All-imp {ℓ κ μ} :
    {A : Type ℓ} {P : A → Type κ} {Q : A → Type μ} (xs : List A)
    → ((a : A) → P a → Q a)
    → All P xs
    → All Q xs
All-imp [] f h = tt
All-imp (x ∷ xs) f h = (f x h.0, All-imp xs f h.1)

-- What a comprehension keeps passes its test.
pub filter-All {ℓ} : {A : Type ℓ} (p : A → Bool) (xs : List A) → All (λ x. p x ≡ true) (filter p xs)
unfolding filter
filter-All p [] = tt
filter-All p (x ∷ xs) = elim (Bool-cases (p x)) [
  | inl e ↦ rw e (e, filter-All p xs)
  | inr e ↦ rw e (filter-All p xs)
]

module _ {A : Type 0} (a : A) where
  pub In-append_left : (xs ys : List A) → In a xs → In a (xs ++ ys)
  In-append_left [] ys m = absurd m
  In-append_left (x ∷ xs) ys (inl e) = inl e
  In-append_left (x ∷ xs) ys (inr m) = inr (In-append_left xs ys m)

  pub In-append_right : (xs ys : List A) → In a ys → In a (xs ++ ys)
  In-append_right [] ys m = m
  In-append_right (x ∷ xs) ys m = inr (In-append_right xs ys m)

  pub In-of_In-append : (xs ys : List A) → In a (xs ++ ys) → In a xs ⊎ In a ys
  In-of_In-append [] ys m = inr m
  In-of_In-append (x ∷ xs) ys (inl e) = inl (inl e)
  In-of_In-append (x ∷ xs) ys (inr m) = elim (In-of_In-append xs ys m) [
    | inl i ↦ inl (inr i)
    | inr i ↦ inr i
  ]

  pub In-filter : (p : A → Bool) (xs : List A) → In a xs → p a ≡ true → In a (filter p xs)
  unfolding filter
  In-filter p [] m h = absurd m
  In-filter p (x ∷ xs) (inl e) h = let e' : p x ≡ true = rw (← e) h in rw e' (inl e)
  In-filter p (x ∷ xs) (inr m) h = elim (Bool-cases (p x)) [
    | inl e ↦ rw e (inr (In-filter p xs m h))
    | inr e ↦ rw e (In-filter p xs m h)
  ]

-- No element stands twice.
abbrev pub IsDistinct : {A : Type 0} → List A → Type 0
IsDistinct [] = Unit
IsDistinct (x ∷ xs) = (¬ In x xs) × IsDistinct xs

module _ {A : Type 0} ⦃e : Eq A⦄ where
  pub contains→In : (xs : List A) (a : A) → contains xs a ≡ true → In a xs
  unfolding contains
  contains→In [] a h = cc
  contains→In (x ∷ xs) a h = elim (Bool-cases (a == x)) [
    | inl t ↦ inl ((e.test_iff a x).0 t)
    | inr f ↦ inr (contains→In xs a (rw f at h))
  ]

  pub In→contains : (xs : List A) (a : A) → In a xs → contains xs a ≡ true
  unfolding contains
  In→contains [] a m = absurd m
  In→contains (x ∷ xs) a (inl p) = ground (arith, e.test_iff a x)
  In→contains (x ∷ xs) a (inr m) = ground (arith, In→contains xs a m)

  pub not-In : (xs : List A) (a : A) → contains xs a ≡ false → ¬ In a xs
  not-In xs a h m = cc (In→contains xs a m)

module _ {A : Type 0} ⦃e : Eq A⦄ (k j : A) (seen : List A) where
  pub contains-cons_false :
      contains (k ∷ seen) j ≡ false → ((j == k) ≡ false) × (contains seen j ≡ false)
  unfolding contains
  contains-cons_false h = ground arith

  pub contains-cons_cases : contains (k ∷ seen) j ≡ true → (j ≡ k) ⊎ (contains seen j ≡ true)
  unfolding contains
  contains-cons_cases h = elim (Bool-cases (j == k)) [
    | inl t ↦ inl ((e.test_iff j k).0 t)
    | inr f ↦ inr (rw f at h)
  ]

pub All-self : {A : Type 0} (xs : List A) → All (λ x. In x xs) xs
All-self [] = tt
All-self (x ∷ xs) = (inl refl, All-imp xs (λ y m. inr m) (All-self xs))

module _ {A B : Type 0} (f : A → B) where
  pub In-map : (a : A) (xs : List A) → In a xs → In (f a) (map f xs)
  In-map a [] m = absurd m
  In-map a (x ∷ xs) (inl e) = inl (ap f e)
  In-map a (x ∷ xs) (inr m) = inr (In-map a xs m)

  pub In-of_In-map : (b : B) (xs : List A) → In b (map f xs) → (a : A) × In a xs × (b ≡ f a)
  In-of_In-map b [] m = absurd m
  In-of_In-map b (x ∷ xs) (inl e) = (x, inl refl, e)
  In-of_In-map b (x ∷ xs) (inr m) = let (a, i, e) = In-of_In-map b xs m in (a, inr i, e)

module _ {ℓ κ μ} {A : Type ℓ} {B : Type κ} (P : B → Type μ) (f : A → B) where
  pub All-map : (xs : List A) → All (λ x. P (f x)) xs → All P (map f xs)
  All-map [] h = tt
  All-map (x ∷ xs) h = (h.0, All-map xs h.1)

module _ {A : Type 0} (p : A → Bool) where
  pub filter_of_All : (xs : List A) → All (λ x. p x ≡ true) xs → filter p xs ≡ xs
  unfolding filter
  filter_of_All [] h = refl
  filter_of_All (x ∷ xs) h = rw h.0 (ap (◌∷◌ x) (filter_of_All xs h.1))

  pub filter_of_none : (xs : List A) → All (λ x. p x ≡ false) xs → filter p xs ≡ []
  unfolding filter
  filter_of_none [] h = refl
  filter_of_none (x ∷ xs) h = rw h.0 (filter_of_none xs h.1)

  pub none_of_filter : (xs : List A) → filter p xs ≡ [] → All (λ x. p x ≡ false) xs
  unfolding filter
  none_of_filter [] h = tt
  none_of_filter (x ∷ xs) h = elim (Bool-cases (p x)) [
    | inl e ↦ absurd (cc (rw e at h))
    | inr e ↦ (e, none_of_filter xs (rw e at h))
  ]

  pub In-of_In-filter : (a : A) (xs : List A) → In a (filter p xs) → In a xs × (p a ≡ true)
  unfolding filter
  In-of_In-filter a [] m = absurd m
  In-of_In-filter a (x ∷ xs) m = elim (Bool-cases (p x)) [
    | inl e ↦ elim (kept e) [
      | inl q ↦ (inl q, rw q e)
      | inr i ↦ let (j, q) = In-of_In-filter a xs i in (inr j, q)
    ]
    | inr e ↦ let (j, q) = In-of_In-filter a xs (rw e at m) in (inr j, q)
  ]
    where
      kept : p x ≡ true → In a (x ∷ filter p xs)
      kept e = rw e at m

  pub find-none : (xs : List A) → find p xs ≡ none → All (λ x. p x ≡ false) xs
  unfolding find
  find-none [] h = tt
  find-none (x ∷ xs) h = elim (Bool-cases (p x)) [
    | inl e ↦ absurd (cc (rw e at h))
    | inr e ↦ (e, find-none xs (rw e at h))
  ]

  pub In-find : (a : A) (xs : List A) → find p xs ≡ some a → In a xs × (p a ≡ true)
  unfolding find
  In-find a [] h = cc
  In-find a (x ∷ xs) h = elim (Bool-cases (p x)) [
    | inl e ↦ let q : x ≡ a = cc (rw e at h) in (inl (sym q), rw (← q) e)
    | inr e ↦ let (j, q) = In-find a xs (rw e at h) in (inr j, q)
  ]

  pub In-find_last : (a : A) (xs : List A) → find_last p xs ≡ some a → In a xs × (p a ≡ true)
  unfolding find_last
  In-find_last a [] h = cc
  In-find_last a (x ∷ xs) h = elim (Option-cases (find_last p xs)) [
    | inl e ↦ elim (Bool-cases (p x)) [
      | inl t ↦ let q : x ≡ a = ground arith in (inl (sym q), rw (← q) t)
      | inr f ↦ absurd (ground arith)
    ]
    | inr (b, e) ↦ let (j, q) = In-find_last a xs (ground arith) in (inr j, q)
  ]

module _ {A : Type 0} ⦃e : Eq A⦄ where
  pub contains_self : (xs : List A) → All (λ x. contains xs x ≡ true) xs
  contains_self xs = All-imp xs (λ x. In→contains xs x) (All-self xs)

  pub dedupe-All : (P : A → Type 0) (xs : List A) → All P xs → All P (dedupe xs)
  unfolding dedupe
  dedupe-All P [] h = tt
  dedupe-All P (x ∷ xs) h = elim (Bool-cases (contains xs x)) [
    | inl t ↦ rw t (dedupe-All P xs h.1)
    | inr f ↦ rw f (h.0, dedupe-All P xs h.1)
  ]

  pub In-dedupe : (x : A) (xs : List A) → In x xs → In x (dedupe xs)
  In-dedupe x xs m = contains→In (dedupe xs) x (contains-dedupe xs x ∙ In→contains xs x m)

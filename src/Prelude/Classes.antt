-- ===== src/Prelude/Classes.antt =====
-- Python's `==` and `in` as a test with its law.
use Prim.Native.Nat.{ℕ}
use Prim.Native.String.{String}
use mathlib.Core.Path.{◌≡◌, refl}
use mathlib.Core.Logic.{◌↔◌}
use mathlib.Core.Bool.{Bool, true, false, ◌||◌, ◌&&◌}
use mathlib.Core.List.{List, [], ◌∷◌}
use native.Mathlib.Omega.{arith}
use text.Mathlib.Text.{◌==◌ as str_eq}
use text.Mathlib.TextEquality.{eq_iff}
use parallel_reduction_bench.Prelude.Tests.{eqb, eqb_iff, if◌then◌else◌}

pub record Eq {ℓ} (A : Type ℓ) : Type ℓ where
  pub test : A → A → Bool
  pub test_iff : (a b : A) → (test a b ≡ true) ↔ (a ≡ b)

module _ {ℓ} {A : Type ℓ} ⦃e : Eq A⦄ where
  infix 50 ◌==◌
  abbrev pub ◌==◌ : A → A → Bool
  ◌==◌ = e.test

instance abbrev pub ℕ_eq : Eq ℕ
ℕ_eq = record { test = eqb; test_iff = eqb_iff }

instance abbrev pub String_eq : Eq String
String_eq = record { test = str_eq; test_iff = eq_iff }

module _ {ℓ κ} {A : Type ℓ} {B : Type κ} ⦃e : Eq A⦄ ⦃f : Eq B⦄ where
  abbrev pub pair_beq : A × B → A × B → Bool
  pair_beq (a, b) (c, d) = a == c && b == d

  pub pair_beq_iff : (p q : A × B) → (pair_beq p q ≡ true) ↔ (p ≡ q)
  pair_beq_iff (a, b) (c, d) = ground (arith, e.test_iff a c, f.test_iff b d)

  instance abbrev pub pair_eq : Eq (A × B)
  pair_eq = record { test = pair_beq; test_iff = pair_beq_iff }

module _ {ℓ} {A : Type ℓ} ⦃e : Eq A⦄ where
  abbrev pub list_beq : List A → List A → Bool
  list_beq [] [] = true
  list_beq [] (y ∷ ys) = false
  list_beq (x ∷ xs) [] = false
  list_beq (x ∷ xs) (y ∷ ys) = x == y && list_beq xs ys

  pub list_beq_iff : (xs ys : List A) → (list_beq xs ys ≡ true) ↔ (xs ≡ ys)
  list_beq_iff [] [] = ground arith
  list_beq_iff [] (y ∷ ys) = ground arith
  list_beq_iff (x ∷ xs) [] = ground arith
  list_beq_iff (x ∷ xs) (y ∷ ys) = ground (arith, e.test_iff x y, list_beq_iff xs ys)

  instance abbrev pub list_eq : Eq (List A)
  list_eq = record { test = list_beq; test_iff = list_beq_iff }

  -- `a in xs`, for a list, or for the set that is built from it
  unfoldable pub contains : List A → A → Bool
  contains [] a = false
  contains (x ∷ xs) a = a == x || contains xs a

  -- `len(xs) == len(set(xs))`
  unfoldable pub unique : List A → Bool
  unfolding contains
  unique [] = true
  unique (x ∷ xs) = elim (contains xs x) [ true ↦ false | false ↦ unique xs ]

  -- `set(xs)` by its members, in order of last occurrence
  unfoldable pub dedupe : List A → List A
  unfolding contains
  dedupe [] = []
  dedupe (x ∷ xs) = let rest = dedupe xs in if contains xs x then rest else x ∷ rest

  pub contains-dedupe : (xs : List A) (a : A) → contains (dedupe xs) a ≡ contains xs a
  unfolding contains dedupe
  contains-dedupe [] a = refl
  contains-dedupe (x ∷ xs) a = ground (arith, contains-dedupe xs a, e.test_iff a x)

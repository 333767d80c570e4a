-- ===== src/Preflight/Design/Entries.antt =====
-- The entries of the dicts of `_design_warnings` of prbench/cli.py, and when they give no warning.
use parallel_reduction_bench.Prelude.{
  ◌≡◌, refl, inl, inr, Bool, true, false, not, ◌&&◌, Bool-cases, Option-cases, Option, String,
  String_eq, ℕ_eq, list_eq, pair_eq, List, [], ◌∷◌, any, all, is_empty, length, ltb, contains, In,
  All, All-imp, All-self, IsDistinct, Eq, ◌==◌, arith,
}
use parallel_reduction_bench.Prelude.Int.{ℤ_eq}
use parallel_reduction_bench.Sweep.Plan.{TaskSpec}
use parallel_reduction_bench.Store.{update}
use parallel_reduction_bench.Store.Counted.{keys, update-IsDistinct}
use parallel_reduction_bench.Preflight.{Note}
use parallel_reduction_bench.Preflight.Design.{
  Coverage, add, cover, cover_all, same_set, differ, is_unbalanced, coverage_notes,
}
use parallel_reduction_bench.Preflight.Design.Covered.{cover_all-none, cover_all-some}

module _ {K V : Type 0} ⦃e : Eq K⦄ (P : V → Type 0) (change : V → V) (default : V)
    (keeps : (v : V) → P v → P (change v)) (starts : P (change default)) (key : K) where
  update-All :
      (d : List (K × V))
      → All (λ entry. P entry.1) d
      → All (λ entry. P entry.1) (update change default key d)
  unfolding update
  update-All [] h = (starts, tt)
  update-All ((k, v) ∷ d) h = elim (Bool-cases (k == key)) [
    | inl found ↦ rw found (keeps v h.0, h.1)
    | inr next ↦ rw next (h.0, update-All d h.1)
  ]

-- The variants of a base come once each, and each has a value.
abbrev pub IsVariants : List (String × List String) → Type 0
IsVariants variants = IsDistinct (keys variants) × All (λ entry. is_empty entry.1 ≡ false) variants

abbrev pub IsCoverage : {K : Type 0} → Coverage K → Type 0
IsCoverage d = IsDistinct (keys d) × All (λ entry. IsVariants entry.1) d

add-not_empty : (v : String) (set : List String) → is_empty (add v set) ≡ false
unfolding contains
add-not_empty v [] = refl
add-not_empty v (x ∷ set) = ground arith

add_variant-IsVariants :
    (l v : String) (variants : List (String × List String))
    → IsVariants variants
    → IsVariants (update (add v) [] l variants)
add_variant-IsVariants l v variants h = (
  update-IsDistinct (add v) [] l variants h.0,
  update-All (λ set. is_empty set ≡ false) (add v) [] (λ set _. add-not_empty v set)
      (add-not_empty v []) l variants h.1,
)

module _ {K : Type 0} ⦃e : Eq K⦄ where
  cover-IsCoverage :
      (k : K) (l v : String) (d : Coverage K) → IsCoverage d → IsCoverage (cover k l v d)
  cover-IsCoverage k l v d h = (
    update-IsDistinct (λ variants. update (add v) [] l variants) [] k d h.0,
    update-All IsVariants (λ variants. update (add v) [] l variants) [] (add_variant-IsVariants l v)
        (add_variant-IsVariants l v [] (tt, tt)) k d h.1,
  )

module _ {K : Type 0} ⦃e : Eq K⦄ (base : TaskSpec → Option K)
    (variant value : TaskSpec → String) where
  pub cover_all-IsCoverage :
      (tasks : List TaskSpec) (d : Coverage K)
      → IsCoverage d
      → IsCoverage (cover_all base variant value d tasks)
  cover_all-IsCoverage [] d h = unfold cover_all in h
  cover_all-IsCoverage (task ∷ tasks) d h = elim (Option-cases (base task)) [
    | inl e ↦ rw (cover_all-none base variant value task tasks d e) (cover_all-IsCoverage tasks d h)
    | inr (k, e) ↦ rw (cover_all-some base variant value task tasks d k e) (
        cover_all-IsCoverage tasks (cover k (variant task) (value task) d)
          (cover-IsCoverage k (variant task) (value task) d h))
  ]

pub contains_first :
    (xs : List String) → is_empty xs ≡ false → (x : String) × (contains xs x ≡ true)
unfolding contains
contains_first [] h = absurd (cc h)
contains_first (x ∷ xs) h = (x, rw ((String_eq.test_iff x x).1 refl) refl)

all-of_contains :
    (p : String → Bool) (xs : List String)
    → ((x : String) → contains xs x ≡ true → p x ≡ true)
    → all p xs ≡ true
unfolding all contains
all-of_contains p [] h = refl
all-of_contains p (x ∷ xs) h =
    let first : p x ≡ true = h x (rw ((String_eq.test_iff x x).1 refl) refl) in
    rw (first, all-of_contains p xs (λ y m. h y (ground arith))) refl

any-of_All :
    {A : Type 0} (q : A → Bool) (xs : List A) → All (λ x. q x ≡ false) xs → any q xs ≡ false
unfolding any
any-of_All q [] h = refl
any-of_All q (x ∷ xs) h = rw (h.0, any-of_All q xs h.1) refl

-- Each variant has the values that another one has.
abbrev pub Agree : List (String × List String) → Type 0
Agree variants =
    (l m : String) (s r : List String)
    → In (l, s) variants
    → In (m, r) variants
    → (x : String) → contains s x ≡ true
    → contains r x ≡ true

and_false : (a b : Bool) → b ≡ false → (a && b) ≡ false
and_false a b h = ground arith

pub Agree-balanced :
    (variants : List (String × List String)) → Agree variants → is_unbalanced variants ≡ false
unfolding differ
Agree-balanced [] agree = refl
Agree-balanced ((l, s) ∷ rest) agree =
    let same : differ ((l, s) ∷ rest) ≡ false =
      any-of_All (λ other. not (same_set s other.1)) rest
        (All-imp rest
          (λ (m, r) i.
            rw
              (
                all-of_contains (contains s) r (agree m l r s (inr i) (inl refl)),
                all-of_contains (contains r) s (agree l m s r (inl refl) (inr i)),
              )
              refl)
          (All-self rest)) in
    and_false (ltb 1 (length ((l, s) ∷ rest))) (differ ((l, s) ∷ rest)) same

pub coverage_notes-nil :
    {K : Type 0} (note : Note) (d : Coverage K)
    → All (λ entry. is_unbalanced entry.1 ≡ false) d
    → coverage_notes note d ≡ []
unfolding coverage_notes
coverage_notes-nil note [] h = refl
coverage_notes-nil note ((k, variants) ∷ d) h = rw h.0 (coverage_notes-nil note d h.1)

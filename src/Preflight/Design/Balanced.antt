-- ===== src/Preflight/Design/Balanced.antt =====
-- What `_design_warnings` of prbench/cli.py says of the tasks.
use parallel_reduction_bench.Prelude.{
  some-injective, ◌≡◌, refl, sym, ap, ap₂, ◌∙◌, ◌⊎◌, inl, inr, Bool, true, false, not, Bool-cases,
  Option, some, String, String_eq, ℕ_eq, list_eq, pair_eq, List, [], ◌∷◌, ◌++◌, length, any, all,
  is_empty, contains, In, Eq, ◌==◌, ltb, arith,
}
use parallel_reduction_bench.Prelude.Int.{ℤ_eq}
use parallel_reduction_bench.Models.{dtype_value, distribution_value}
use parallel_reduction_bench.Sweep.Plan.{TaskSpec}
use parallel_reduction_bench.Store.{get}
use parallel_reduction_bench.Preflight.{
  Note, warning, confounded_classes, confounded_control, confounded_dtypes,
}
use parallel_reduction_bench.Preflight.Design.{
  Coverage, cover_all, same_set, differ, is_unbalanced, coverage_notes, CoreBase, core_base,
  control_base, dtype_base, operation_of, core_coverage, control_coverage, dtype_coverage,
  design_warnings,
}
use parallel_reduction_bench.Preflight.Design.Covered.{Case, cover_all-has, has-from}

contains-all :
    (p : String → Bool) (xs : List String) (x : String)
    → all p xs ≡ true
    → contains xs x ≡ true
    → p x ≡ true
unfolding all contains
contains-all p [] x h c = cc
contains-all p (y ∷ xs) x h c = elim (Bool-cases (x == y)) [
  | inl same ↦ let q : x ≡ y = (String_eq.test_iff x y).0 same in rw q (ground arith)
  | inr other ↦ contains-all p xs x (ground arith) (ground arith)
]

-- Where no variant differs from the first, all have the values of the first.
module _ (values : List String) where
  abbrev agrees : List (String × List String) → Bool
  agrees rest = any (λ other. not (same_set values other.1)) rest

  same-values :
      (other : List String) (v : String)
      → not (same_set values other) ≡ false
      → contains other v ≡ contains values v
  same-values other v h = elim (Bool-cases (contains other v)) [
    | inl c ↦ c ∙ sym (contains-all (contains values) other v (ground arith) c)
    | inr n ↦ elim (Bool-cases (contains values v)) [
      | inl c ↦ absurd (cc (contains-all (contains other) values v (ground arith) c))
      | inr m ↦ n ∙ sym m
    ]
  ]

  get-agrees :
      (rest : List (String × List String)) (l v : String)
      → agrees rest ≡ false
      → (get [] l rest ≡ []) ⊎ ((x : String) → contains (get [] l rest) x ≡ contains values x)
  unfolding get any
  get-agrees [] l v h = inl refl
  get-agrees ((variant, other) ∷ rest) l v h = elim (Bool-cases (variant == l)) [
    | inl found ↦ rw found (inr (λ x. same-values other x (ground arith)))
    | inr next ↦ rw next (get-agrees rest l v (ground arith))
  ]

few-agree :
    (variants : List (String × List String))
    → is_unbalanced variants ≡ false
    → differ variants ≡ false
unfolding differ any
few-agree [] h = refl
few-agree (entry ∷ []) h = refl
few-agree (entry ∷ other ∷ rest) h =
    let several : ltb 1 (length (entry ∷ other ∷ rest)) ≡ true = ground arith in rw several at h

-- Where a dict of variants is balanced, two variants that have a value have the same ones.
balanced_variants :
    (variants : List (String × List String)) (l m v u : String)
    → is_unbalanced variants ≡ false
    → contains (get [] l variants) v ≡ true
    → contains (get [] m variants) u ≡ true
    → contains (get [] m variants) v ≡ true
unfolding get contains differ
balanced_variants [] l m v u h p q = p
balanced_variants ((variant, values) ∷ rest) l m v u h p q =
    of_first m u q ∙ sym (of_first l v p) ∙ p
  where
    agree : agrees values rest ≡ false
    agree = few-agree ((variant, values) ∷ rest) h

    of_first :
        (k w : String)
        → contains (get [] k ((variant, values) ∷ rest)) w ≡ true
        → contains (get [] k ((variant, values) ∷ rest)) v ≡ contains values v
    of_first k w c = elim (Bool-cases (variant == k)) [
      | inl found ↦ rw found refl
      | inr next ↦ rw next (elim (get-agrees values rest k v agree) [
        | inl nothing ↦ absurd (cc (rw next at c))
        | inr same ↦ same v
      ])
    ]

module _ {K : Type 0} ⦃e : Eq K⦄ (note : Note) where
  any_entry :
      (d : Coverage K) (k : K) → coverage_notes note d ≡ [] → is_unbalanced (get [] k d) ≡ false
  unfolding coverage_notes get differ
  any_entry [] k h = refl
  any_entry ((base, variants) ∷ rest) k h = elim (Bool-cases (is_unbalanced variants)) [
    | inl t ↦ absurd (cc (rw t at h))
    | inr f ↦ elim (Bool-cases (base == k)) [
      | inl found ↦ rw found f
      | inr next ↦ rw next (any_entry rest k (rw f at h))
    ]
  ]

module _ {K : Type 0} ⦃e : Eq K⦄ (base : TaskSpec → Option K) (variant value : TaskSpec → String)
    (note : Note) (tasks : List TaskSpec) where
  -- Two tasks with one base: some task has the variant of the second and the value of the first.
  covers :
      (t u : TaskSpec) (k : K)
      → coverage_notes note (cover_all base variant value [] tasks) ≡ []
      → In t tasks
      → In u tasks
      → base t ≡ some k
      → base u ≡ some k
      → Case base variant value tasks k (variant u) (value t)
  unfolding get contains
  covers t u k quiet mt mu bt bu =
      elim (has-from base variant value tasks [] k (variant u) (value t) (
        balanced_variants (get [] k (cover_all base variant value [] tasks)) (variant t) (variant u)
          (value t) (value u) (any_entry note (cover_all base variant value [] tasks) k quiet)
          (cover_all-has base variant value tasks [] t k mt bt)
          (cover_all-has base variant value tasks [] u k mu bu))) [
            | inl before ↦ absurd (cc before)
            | inr case ↦ case
          ]

-- Whatever one of two comparable tasks covers, the other's variant covers too: each operation that one core
-- class or one GPU control mode runs, and each distribution that one data type has.
pub record IsBalanced (tasks : List TaskSpec) : Type 0 where
  pub classes :
      (t u : TaskSpec)
      → In t tasks
      → In u tasks
      → core_base t ≡ core_base u
      → (w : TaskSpec) × In w tasks
        × (core_base w ≡ core_base u)
        × (w.cpu_core_class ≡ u.cpu_core_class)
        × (operation_of w ≡ operation_of t)
  pub control_modes :
      (t u : TaskSpec)
      → In t tasks
      → In u tasks
      → is_empty u.gpu_ids ≡ false
      → core_base t ≡ core_base u
      → t.cpu_core_class ≡ u.cpu_core_class
      → (w : TaskSpec) × In w tasks
        × (core_base w ≡ core_base u)
        × (w.cpu_core_class ≡ u.cpu_core_class)
        × (w.gpu_control_mode ≡ u.gpu_control_mode)
        × (operation_of w ≡ operation_of t)
  pub dtypes :
      (t u : TaskSpec)
      → In t tasks
      → In u tasks
      → dtype_base t ≡ dtype_base u
      → (w : TaskSpec) × In w tasks
        × (dtype_base w ≡ dtype_base u)
        × (dtype_value w.dataset.dtype ≡ dtype_value u.dataset.dtype)
        × (distribution_value w.dataset.distribution ≡ distribution_value t.dataset.distribution)

nil-append : {A : Type 0} (xs ys : List A) → xs ++ ys ≡ [] → (xs ≡ []) × (ys ≡ [])
nil-append [] ys h = (refl, h)
nil-append (x ∷ xs) ys h = absurd cc

pub control_base-some :
    (t : TaskSpec)
    → is_empty t.gpu_ids ≡ false
    → control_base t ≡ some (core_base t, t.cpu_core_class)
control_base-some t h = rw h refl

pub control_base-from :
    (w : TaskSpec) (k : CoreBase × String)
    → control_base w ≡ some k
    → (core_base w ≡ k.0) × (w.cpu_core_class ≡ k.1)
control_base-from w k h = elim (Bool-cases (is_empty w.gpu_ids)) [
  | inl none_given ↦ absurd (cc (rw none_given at h))
  | inr given ↦
      let same : Path (CoreBase × String) (core_base w, w.cpu_core_class) k =
        some-injective (rw given at h) in
      (ap (λ p. p.0) same, ap (λ p. p.1) same)
]

-- Without a warning on the design the comparisons are balanced.
pub design_warnings-IsBalanced :
    (tasks : List TaskSpec) → design_warnings tasks ≡ [] → IsBalanced tasks
unfolding design_warnings
design_warnings-IsBalanced tasks quiet =
    let (both, third) =
      nil-append
        (coverage_notes (warning confounded_classes) (core_coverage tasks)
          ++ coverage_notes (warning confounded_control) (control_coverage tasks))
        (coverage_notes (warning confounded_dtypes) (dtype_coverage tasks)) quiet in
    let (first, second) =
      nil-append (coverage_notes (warning confounded_classes) (core_coverage tasks))
        (coverage_notes (warning confounded_control) (control_coverage tasks)) both in
    record {
      classes = λ t u mt mu same.
          let (w, m, b, c, o) =
            covers (λ task. some (core_base task)) (λ task. task.cpu_core_class) operation_of
              (warning confounded_classes) tasks t u (core_base u) first mt mu (ap some same)
              refl in
          (w, m, some-injective b, c, o);
      control_modes = λ t u mt mu given same class.
          let gpus : is_empty t.gpu_ids ≡ false =
            ap (λ base. is_empty base.1.1.1.1.0) same ∙ given in
          let (w, m, b, c, o) =
            covers control_base (λ task. task.gpu_control_mode) operation_of
              (warning confounded_control) tasks t u (core_base u, u.cpu_core_class) second mt mu
              (control_base-some t gpus ∙ ap₂ (λ b c. some (b, c)) same class)
              (control_base-some u given) in
          let (b₀, b₁) = control_base-from w _ b in (w, m, b₀, b₁, c, o);
      dtypes = λ t u mt mu same.
          let (w, m, b, c, o) =
            covers (λ task. some (dtype_base task)) (λ task. dtype_value task.dataset.dtype)
              (λ task. distribution_value task.dataset.distribution) (warning confounded_dtypes)
              tasks t u (dtype_base u) third mt mu (ap some same) refl in
          (w, m, some-injective b, c, o);
    }

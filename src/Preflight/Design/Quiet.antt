-- ===== src/Preflight/Design/Quiet.antt =====
-- When `_design_warnings` of prbench/cli.py is silent: exactly if the tasks are balanced.
use parallel_reduction_bench.Prelude.{
  ◌≡◌, refl, sym, ap, ap₂, ◌∙◌, ◌↔◌, inl, inr, true, false, Bool-cases, Option, some,
  some-injective, String, String_eq, ℕ_eq, list_eq, pair_eq, List, [], is_empty, contains, In,
  All-imp, All-self, All-In, Eq,
}
use parallel_reduction_bench.Prelude.Int.{ℤ_eq}
use parallel_reduction_bench.Models.{dtype_value, distribution_value}
use parallel_reduction_bench.Sweep.Plan.{TaskSpec}
use parallel_reduction_bench.Store.{get}
use parallel_reduction_bench.Store.Counted.{In-get_entry}
use parallel_reduction_bench.Preflight.{
  Note, warning, confounded_classes, confounded_control, confounded_dtypes,
}
use parallel_reduction_bench.Preflight.Design.{
  Coverage, cover_all, coverage_notes, CoreBase, core_base, control_base, dtype_base, operation_of,
  core_coverage, control_coverage, dtype_coverage, design_warnings,
}
use parallel_reduction_bench.Preflight.Design.Covered.{has, Case, cover_all-has, has-from}
use parallel_reduction_bench.Preflight.Design.Balanced.{
  IsBalanced, control_base-some, control_base-from, design_warnings-IsBalanced,
}
use parallel_reduction_bench.Preflight.Design.Entries.{
  IsVariants, cover_all-IsCoverage, contains_first, Agree, Agree-balanced, coverage_notes-nil,
}

module _ {K : Type 0} ⦃e : Eq K⦄ (base : TaskSpec → Option K) (variant value : TaskSpec → String)
    (note : Note) (tasks : List TaskSpec)
    (balanced : (t u : TaskSpec) (k : K)
      → In t tasks
      → In u tasks
      → base t ≡ some k
      → base u ≡ some k
      → Case base variant value tasks k (variant u) (value t)) where
  abbrev covered : Coverage K
  covered = cover_all base variant value [] tasks

  covered-Case :
      (k : K) (l v : String) → has k l v covered ≡ true → Case base variant value tasks k l v
  unfolding get contains
  covered-Case k l v h = elim (has-from base variant value tasks [] k l v h) [
    | inl before ↦ absurd (cc before)
    | inr case ↦ case
  ]

  has_of_entries :
      (k : K) (variants : List (String × List String)) (l : String) (s : List String)
      → In (k, variants) covered
      → In (l, s) variants
      → (x : String) → has k l x covered ≡ contains s x
  has_of_entries k variants l s mk ml x =
      let valid = cover_all-IsCoverage base variant value tasks [] (tt, tt) in
      let inner = All-In (λ entry. IsVariants entry.1) (k, variants) covered valid.1 mk in
      ap (λ found. contains (get [] l found) x) (In-get_entry covered k variants valid.0 mk)
      ∙ ap (λ set. contains set x) (In-get_entry variants l s inner.0 ml)

  entries-Agree :
      (k : K) (variants : List (String × List String)) → In (k, variants) covered → Agree variants
  entries-Agree k variants mk l m s r ml mm x h =
      let valid = cover_all-IsCoverage base variant value tasks [] (tt, tt) in
      let inner = All-In (λ entry. IsVariants entry.1) (k, variants) covered valid.1 mk in
      let (y, my) =
        contains_first r (All-In (λ entry. is_empty entry.1 ≡ false) (m, r) variants inner.1 mm) in
      let (t, mt, bt, lt, vt) = covered-Case k l x (has_of_entries k variants l s mk ml x ∙ h) in
      let (u, mu, bu, lu, vu) = covered-Case k m y (has_of_entries k variants m r mk mm y ∙ my) in
      let (w, mw, bw, lw, vw) = balanced t u k mt mu bt bu in
      sym (has_of_entries k variants m r mk mm x)
      ∙ ap₂ (λ a b. has k a b covered) (sym (lw ∙ lu)) (sym (vw ∙ vt))
      ∙ cover_all-has base variant value tasks [] w k mw bw

  coverage_notes-quiet : coverage_notes note covered ≡ []
  coverage_notes-quiet = coverage_notes-nil note covered (
      All-imp covered (λ (k, variants) i. Agree-balanced variants (entries-Agree k variants i))
        (All-self covered))

control_base-gpus :
    (t : TaskSpec) (k : CoreBase × String) → control_base t ≡ some k → is_empty t.gpu_ids ≡ false
control_base-gpus t k h = elim (Bool-cases (is_empty t.gpu_ids)) [
  | inl none_given ↦ absurd (cc (rw none_given at h))
  | inr given ↦ given
]

module _ (tasks : List TaskSpec) (balanced : IsBalanced tasks) where
  classes-quiet : coverage_notes (warning confounded_classes) (core_coverage tasks) ≡ []
  classes-quiet =
      coverage_notes-quiet (λ task. some (core_base task)) (λ task. task.cpu_core_class)
        operation_of (warning confounded_classes) tasks
        λ t u k mt mu bt bu.
          let (w, m, b, c, o) = balanced.classes t u mt mu (some-injective (bt ∙ sym bu)) in
          (w, m, ap some b ∙ bu, c, o)

  control-quiet : coverage_notes (warning confounded_control) (control_coverage tasks) ≡ []
  control-quiet =
      coverage_notes-quiet control_base (λ task. task.gpu_control_mode) operation_of
        (warning confounded_control) tasks
        λ t u k mt mu bt bu.
          let (t₀, t₁) = control_base-from t k bt in
          let (u₀, u₁) = control_base-from u k bu in
          let given = control_base-gpus u k bu in
          let (w, m, b, c, g, o) =
            balanced.control_modes t u mt mu given (t₀ ∙ sym u₀) (t₁ ∙ sym u₁) in
          let gpus : is_empty w.gpu_ids ≡ false = ap (λ base. is_empty base.1.1.1.1.0) b ∙ given in
          (w, m, control_base-some w gpus ∙ ap₂ (λ x y. some (x, y)) (b ∙ u₀) (c ∙ u₁), g, o)

  dtypes-quiet : coverage_notes (warning confounded_dtypes) (dtype_coverage tasks) ≡ []
  dtypes-quiet =
      coverage_notes-quiet (λ task. some (dtype_base task)) (λ task. dtype_value task.dataset.dtype)
        (λ task. distribution_value task.dataset.distribution) (warning confounded_dtypes) tasks
        λ t u k mt mu bt bu.
          let (w, m, b, c, o) = balanced.dtypes t u mt mu (some-injective (bt ∙ sym bu)) in
          (w, m, ap some b ∙ bu, c, o)

-- There is no warning on the design exactly when the tasks are balanced, which says three things of
-- any two of them. If they have one base for core classes (algorithm, size, data type, distribution,
-- GPUs, parameters and thread policy), a task of this base has the core class of the one and the
-- operation of the other. If they have GPUs, this base and one core class, a task like them has the
-- GPU control mode of the one and the operation of the other. If they have one base for data types
-- (group, algorithm, size, operation, GPUs, parameters, core class, thread policy and control mode),
-- a task of this base has the data type of the one and the distribution of the other.
pub design_warnings_iff : (tasks : List TaskSpec) → (design_warnings tasks ≡ []) ↔ IsBalanced tasks
design_warnings_iff tasks = (
  design_warnings-IsBalanced tasks,
  λ balanced.
      unfold design_warnings in
      rw (classes-quiet tasks balanced, control-quiet tasks balanced, dtypes-quiet tasks balanced)
        refl,
)

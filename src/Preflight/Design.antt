-- ===== src/Preflight/Design.antt =====
-- `_design_warnings` of prbench/cli.py: whether the tasks that a comparison relates cover the same cases.
pub mod Balanced
pub mod Quiet
pub mod Covered
pub mod Entries
use parallel_reduction_bench.Prelude.{
  ℕ, zero, suc, ◌/◌, ◌%◌, Bool, true, false, not, ◌&&◌, Option, none, some, String, String_eq, ℕ_eq,
  list_eq, pair_eq, List, [], ◌∷◌, ◌++◌, map, length, is_empty, all, any, contains, sort, ltb, leb,
  Eq, ◌==◌, if◌then◌else◌,
}
use parallel_reduction_bench.Prelude.Int.{ℤ, ℤ_eq, pos, negsuc}
use parallel_reduction_bench.Prelude.Float.{Float, finite, infinity, neg_infinity, nan}
use parallel_reduction_bench.Prelude.Text.{le_text}
use parallel_reduction_bench.Models.{
  DatasetSpec, ReductionOperation, Scalar, dtype_value, distribution_value, operation_value,
}
use parallel_reduction_bench.Store.{update}
use parallel_reduction_bench.Sweep.Params.{Combo}
use parallel_reduction_bench.Sweep.Plan.{TaskSpec}
use parallel_reduction_bench.Preflight.{
  Note, warning, confounded_classes, confounded_control, confounded_dtypes, note_if,
}

-- `s.add(x)`, on a set whose members are all that is asked
abbrev pub add : {A : Type 0} ⦃e : Eq A⦄ → A → List A → List A
add a set = if contains set a then set else a ∷ set

-- For each base, the values that each variant of it has: a dict of dicts of sets.
abbrev pub Coverage : Type 0 → Type 0
Coverage K = List (K × List (String × List String))

module _ {K : Type 0} ⦃e : Eq K⦄ where
  abbrev pub cover : K → String → String → Coverage K → Coverage K
  cover base variant value d = update (λ variants. update (add value) [] variant variants) [] base d

  -- a task without a base is passed over
  abbrev pub cover_task : Option K → String → String → Coverage K → Coverage K
  cover_task none variant value d = d
  cover_task (some base) variant value d = cover base variant value d

  -- The loop over the tasks, for one of the three dicts.
  unfoldable pub cover_all :
      (TaskSpec → Option K)
      → (TaskSpec → String)
      → (TaskSpec → String)
      → Coverage K
      → List TaskSpec
      → Coverage K
  cover_all base variant value d [] = d
  cover_all base variant value d (task ∷ tasks) =
      cover_all base variant value (cover_task (base task) (variant task) (value task) d) tasks

abbrev pub same_set : List String → List String → Bool
same_set a b = all (contains b) a && all (contains a) b

-- `len({tuple(sorted(v)) for v in mapping.values()}) > 1`
unfoldable pub differ : List (String × List String) → Bool
differ [] = false
differ ((variant, values) ∷ rest) = any (λ other. not (same_set values other.1)) rest

abbrev pub is_unbalanced : List (String × List String) → Bool
is_unbalanced variants = ltb 1 (length variants) && differ variants

unfoldable pub coverage_notes : {K : Type 0} → Note → Coverage K → List Note
coverage_notes note [] = []
coverage_notes note ((base, variants) ∷ rest) =
    note_if (is_unbalanced variants) note ++ coverage_notes note rest

-- A scalar as Python's `==` sees it: True is 1, and a float without a fraction is its integer.
abbrev pub Value : Type 0
Value = ℕ × (ℤ × (ℕ × String))

abbrev half : ℤ → ℤ
half (pos n) = pos (n / 2)
half (negsuc n) = negsuc (n / 2)

abbrev is_even : ℤ → Bool
is_even (pos n) = n % 2 == 0
is_even (negsuc n) = n % 2 == 1

unfoldable pub dyadic : ℤ → ℕ → Value
dyadic n zero = (0, (n, (0, "")))
dyadic n (suc k) =
    let halved = dyadic (half n) k in if is_even n then halved else (1, (n, (suc k, "")))

abbrev pub float_value : Float → Value
float_value (finite n k) = dyadic n k
float_value infinity = (2, (pos 0, (0, "")))
float_value neg_infinity = (2, (pos 0, (1, "")))
float_value nan = (2, (pos 0, (2, "")))

abbrev pub scalar_value : Scalar → Value
scalar_value (Scalar.int n) = (0, (n, (0, "")))
scalar_value (Scalar.bool b) = (0, (pos (if b then 1 else 0), (0, "")))
scalar_value (Scalar.float f) = float_value f
scalar_value (Scalar.text s) = (3, (pos 0, (0, s)))
scalar_value Scalar.null = (4, (pos 0, (0, "")))

-- `tuple(sorted(task.algorithm_params.items()))`
abbrev pub sorted_params : Combo → List (String × Value)
sorted_params params =
    sort (λ p q. le_text p.0 q.0) (map (λ entry. (entry.0, scalar_value entry.1)) params)

abbrev pub CoreBase : Type 0
CoreBase = String × (ℕ × (String × (String × (List ℤ × (List (String × Value) × String)))))

abbrev pub core_base : TaskSpec → CoreBase
core_base task = (
  task.algorithm.id,
  (
    task.dataset.size,
    (
      dtype_value task.dataset.dtype,
      (
        distribution_value task.dataset.distribution,
        (task.gpu_ids, (sorted_params task.algorithm_params, task.cpu_thread_policy)),
      ),
    ),
  ),
)

-- with the core class, for the tasks that have GPUs
abbrev pub control_base : TaskSpec → Option (CoreBase × String)
control_base task =
    if is_empty task.gpu_ids then none else some (core_base task, task.cpu_core_class)

abbrev pub DtypeBase : Type 0
DtypeBase =
    String
    × (String × (ℕ × (String × (List ℤ × (List (String × Value) × (String × (String × String)))))))

abbrev pub dtype_base : TaskSpec → DtypeBase
dtype_base task = (
  task.group_id,
  (
    task.algorithm.id,
    (
      task.dataset.size,
      (
        operation_value task.operation,
        (
          task.gpu_ids,
          (
            sorted_params task.algorithm_params,
            (task.cpu_core_class, (task.cpu_thread_policy, task.gpu_control_mode)),
          ),
        ),
      ),
    ),
  ),
)

abbrev pub operation_of : TaskSpec → String
operation_of task = operation_value task.operation

abbrev pub core_coverage : List TaskSpec → Coverage CoreBase
core_coverage tasks =
    cover_all (λ task. some (core_base task)) (λ task. task.cpu_core_class) operation_of [] tasks

abbrev pub control_coverage : List TaskSpec → Coverage (CoreBase × String)
control_coverage tasks =
    cover_all control_base (λ task. task.gpu_control_mode) operation_of [] tasks

abbrev pub dtype_coverage : List TaskSpec → Coverage DtypeBase
dtype_coverage tasks =
    cover_all (λ task. some (dtype_base task)) (λ task. dtype_value task.dataset.dtype)
      (λ task. distribution_value task.dataset.distribution) [] tasks

unfoldable pub design_warnings : List TaskSpec → List Note
design_warnings tasks =
    coverage_notes (warning confounded_classes) (core_coverage tasks)
    ++ coverage_notes (warning confounded_control) (control_coverage tasks)
    ++ coverage_notes (warning confounded_dtypes) (dtype_coverage tasks)

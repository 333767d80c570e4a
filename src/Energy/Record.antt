-- ===== src/Energy/Record.antt =====
-- `_energy_record` of prbench/runner.py: what a row of the energy file says beyond the task it belongs to.
use parallel_reduction_bench.Prelude.{
  Bool, true, false, not, ◌&&◌, Option, none, some, String, String_eq, List, [], ◌∷◌, ◌++◌, all,
  contains, ◌==◌, if◌then◌else◌,
}
use parallel_reduction_bench.Prelude.Int.{ℤ, ℤ_eq, pos, ◌+ℤ◌, ◌*ℤ◌}
use parallel_reduction_bench.Prelude.Float.{finite}
use parallel_reduction_bench.Prelude.Result.{Result, ok, raise, zero_division_error, ◌>>=◌}
use parallel_reduction_bench.Models.{Scalar}
use parallel_reduction_bench.Sweep.Params.{get, to_int}
use parallel_reduction_bench.Sweep.Plan.{TaskSpec}
use parallel_reduction_bench.Energy.Meters.{Metrics}

-- An entry of the worker's payload: absent, null, or a number.
pub data Entry : Type 0 where
  absent null : Entry
  given : ℤ → Entry

-- A quotient of floats, as its two numbers.
pub record Quotient : Type 0 where
  pub numerator : ℤ
  pub denominator : ℤ

abbrev pub divide : ℤ → ℤ → Result Quotient
divide a b =
    if b == pos 0 then raise zero_division_error else ok (record { numerator = a; denominator = b })

abbrev pub divide_option : Option ℤ → ℤ → Result (Option Quotient)
divide_option none n = ok none
divide_option (some energy) n = do q ← divide energy n; ok (some q)

-- whether Python takes the value for true
abbrev pub is_truthy : Scalar → Bool
is_truthy (Scalar.int n) = not (n == pos 0)
is_truthy (Scalar.bool b) = b
is_truthy (Scalar.float (finite n k)) = not (n == pos 0)
is_truthy (Scalar.float _) = true
is_truthy (Scalar.text s) = not (s == "")
is_truthy Scalar.null = false

abbrev pub reuse_count : (String → Result ℤ) → Option Scalar → Result ℤ
reuse_count int_of_text none = ok (pos 1)
reuse_count int_of_text (some value) =
    if is_truthy value then to_int int_of_text value else ok (pos 1)

unfoldable pub logical_per_iteration : (String → Result ℤ) → TaskSpec → Entry → Result ℤ
logical_per_iteration int_of_text task (given n) = ok (if n == pos 0 then pos 1 else n)
logical_per_iteration int_of_text task null = ok (pos 1)
logical_per_iteration int_of_text task absent =
    reuse_count int_of_text (get task.algorithm_params "reuse_count")

-- the energies as integers, and their sum
abbrev pub gpu_part : Metrics → Option ℤ
gpu_part metrics = elim metrics.gpu_energy [ none ↦ none | some energy ↦ some (pos energy) ]

abbrev pub sum_available : Option ℤ → Option ℤ → Option ℤ
sum_available none none = none
sum_available (some cpu) none = some cpu
sum_available none (some gpu) = some gpu
sum_available (some cpu) (some gpu) = some (cpu +ℤ gpu)

abbrev pub name_if : Bool → String → List String
name_if true name = name ∷ []
name_if false name = []

abbrev pub is_some : {A : Type 0} → Option A → Bool
is_some none = false
is_some (some a) = true

abbrev pub parts : Bool → Bool → List String
parts cpu gpu = name_if cpu "cpu_package" ++ name_if gpu "gpu"

-- `"+".join(parts) if parts else "none"`
abbrev pub coverage_of : Bool → Bool → String
coverage_of true true = "cpu_package+gpu"
coverage_of true false = "cpu_package"
coverage_of false true = "gpu"
coverage_of false false = "none"

-- the equality of two sets of names
abbrev pub same_names : List String → List String → Bool
same_names a b = all (contains b) a && all (contains a) b

pub record EnergyRow : Type 0 where
  pub logical_reductions : ℤ
  pub measured_component_energy : Option ℤ
  pub cpu_energy_per_reduction : Option Quotient
  pub gpu_energy_per_reduction : Option Quotient
  pub measured_energy_per_reduction : Option Quotient
  pub energy_coverage : String
  pub energy_requested_components : List String
  pub energy_complete : Bool

unfoldable pub energy_record :
    (String → Result ℤ) → TaskSpec → ℤ → Metrics → Entry → Bool → Bool → Result EnergyRow
energy_record int_of_text task repetitions metrics logical cpu_requested gpu_requested = do
  per_iteration ← logical_per_iteration int_of_text task logical
  let reductions = repetitions *ℤ per_iteration
  let cpu = metrics.cpu_energy
  let gpu = gpu_part metrics
  cpu_each ← divide_option cpu reductions
  gpu_each ← divide_option gpu reductions
  each ← divide_option (sum_available cpu gpu) reductions
  ok (record {
    logical_reductions = reductions;
    measured_component_energy = sum_available cpu gpu;
    cpu_energy_per_reduction = cpu_each;
    gpu_energy_per_reduction = gpu_each;
    measured_energy_per_reduction = each;
    energy_coverage = coverage_of (is_some cpu) (is_some gpu);
    energy_requested_components = parts cpu_requested gpu_requested;
    energy_complete =
        same_names (parts (is_some cpu) (is_some gpu)) (parts cpu_requested gpu_requested);
  })

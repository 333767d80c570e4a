-- ===== src/Runner/Gate.antt =====
-- `_validate_runtime_idleness` of prbench/runner.py, the gate before and after the measurements of a task.
pub mod Closed
use parallel_reduction_bench.Prelude.{
  ℕ, ℕ_eq, Bool, true, false, not, ◌&&◌, Option, none, some, List, [], ◌∷◌, filter, contains,
  is_empty, if◌then◌else◌,
}
use parallel_reduction_bench.Prelude.Int.{ℤ}
use parallel_reduction_bench.Prelude.Float.{Float, lt_float}
use parallel_reduction_bench.Prelude.Result.{
  Result, ok, raise, ◌>>=◌, ◌>>◌, raise_if, for_each, runtime_error,
}
use parallel_reduction_bench.Models.{MeasurementConfig}
use parallel_reduction_bench.Sweep.Plan.{TaskSpec}

-- The processes that NVML lists on a GPU; a list is missing where the call for it raises.
pub record GpuProcesses : Type 0 where
  pub compute : Option (List ℕ)
  pub graphics : Option (List ℕ)

-- NVML, where it is installed: whether it starts, and its answer on each GPU. These exceptions are not
-- caught.
pub record Nvml : Type 0 where
  pub init : Result (Unit {0})
  pub processes : ℤ → Result GpuProcesses

abbrev pub foreign : List ℕ → Option (List ℕ) → List ℕ
foreign allowed none = []
foreign allowed (some pids) = filter (λ pid. not (contains allowed pid)) pids

module _ (m : MeasurementConfig) (allowed : List ℕ) where
  abbrev pub check_processes : GpuProcesses → Result (Unit {0})
  check_processes p = do
    raise_if (not (is_empty (foreign allowed p.compute))) runtime_error
    raise_if (not m.allow_gpu_graphics_processes && not (is_empty (foreign allowed p.graphics)))
        runtime_error

  abbrev pub check_gpu : Nvml → ℤ → Result (Unit {0})
  check_gpu nvml gpu = do p ← nvml.processes gpu; check_processes p

  abbrev pub check_gpus : Option Nvml → List ℤ → Result (Unit {0})
  check_gpus none gpus = ok tt
  check_gpus (some nvml) gpus =
      if is_empty gpus then ok tt else (nvml.init >> for_each (check_gpu nvml) gpus)

  unfoldable pub validate_runtime_idleness : Float → Option Nvml → TaskSpec → Result (Unit {0})
  validate_runtime_idleness load nvml task =
      if m.strict_preflight
      then (raise_if (lt_float m.max_preflight_cpu_load_percent load) runtime_error
          >> check_gpus nvml task.gpu_ids)
      else ok tt

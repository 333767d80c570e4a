-- ===== src/Measurement.antt =====
-- The repetitions that a measurement runs: `validate_repetitions` of prbench/models.py, and the choices
-- and budgets of prbench/runner.py that rest on it.
pub mod Bounds
use parallel_reduction_bench.Prelude.{
  ℕ, Bool, true, false, not, ◌&&◌, ◌||◌, String, List, ◌==◌, String_eq, leb, ltb, if◌then◌else◌,
}
use parallel_reduction_bench.Prelude.Int.{ℤ, pos, leb_ℤ, ltb_ℤ, min_ℤ}
use parallel_reduction_bench.Prelude.Float.{Float, finite, le_float}
use parallel_reduction_bench.Prelude.Result.{
  Result, ok, raise, raise_if, value_error, memory_error, ◌>>=◌, ◌>>◌, for_each,
}
use parallel_reduction_bench.Models.{
  MeasurementConfig, Repetitions, auto, fixed, SystemTopologyModel,
}
use parallel_reduction_bench.Capacity.{Row, gpu_capacity_rows, cache_rotated_resident_bytes}
use parallel_reduction_bench.Sweep.Plan.{TaskSpec}

-- a fixed number is outside the bounds
abbrev pub outside : ℕ → ℕ → Repetitions → Bool
outside low high auto = false
outside low high (fixed n) = not (leb_ℤ (pos low) n && leb_ℤ n (pos high))

unfoldable pub validate_repetitions : MeasurementConfig → Result (Unit {0})
validate_repetitions m = do
  raise_if (outside 3 1_000_000 m.timing_repetitions) value_error
  raise_if (ltb m.timing_max_repetitions m.timing_min_repetitions) value_error
  raise_if (outside m.energy_min_repetitions m.energy_max_repetitions m.energy_batch_repetitions)
      value_error
  raise_if (ltb m.energy_max_repetitions m.energy_min_repetitions) value_error

-- `max(low, min(high, estimated))`
unfoldable pub clamp : ℕ → ℕ → ℤ → ℤ
clamp low high estimated =
    let capped = min_ℤ (pos high) estimated in if ltb_ℤ (pos low) capped then capped else pos low

-- `estimated` is `math.ceil(target_seconds * 1_000_000.0 / iteration_us)`, in floating point; it raises
-- where the quotient is not finite.
module _ (estimated : Float → Float → Result ℤ) where
  -- The common body of the two methods.
  unfoldable pub choose_repetitions : Repetitions → Float → ℕ → ℕ → Float → Result ℤ
  choose_repetitions (fixed n) target low high iteration_us = ok n
  choose_repetitions auto target low high iteration_us =
      if le_float iteration_us (finite (pos 0) 0)
      then ok (pos low)
      else do n ← estimated target iteration_us; ok (clamp low high n)

  unfoldable pub choose_timing_repetitions : MeasurementConfig → Float → Result ℤ
  choose_timing_repetitions m =
      choose_repetitions m.timing_repetitions m.timing_target_batch_seconds m.timing_min_repetitions
        m.timing_max_repetitions

  unfoldable pub choose_energy_repetitions : MeasurementConfig → Float → Result ℤ
  choose_energy_repetitions m =
      choose_repetitions m.energy_batch_repetitions m.energy_target_batch_seconds
        m.energy_min_repetitions m.energy_max_repetitions

abbrev pub dataset_resident_bytes : MeasurementConfig → ℕ → ℕ
dataset_resident_bytes m dataset_bytes =
    cache_rotated_resident_bytes dataset_bytes m.cache_rotation_target_bytes
      m.cache_rotation_max_replicas

-- `_validate_exact_gpu_memory_budget`; `int_of_text` and `safe` are those of Capacity.
unfoldable pub validate_exact_gpu_memory_budget :
    (String → Result ℤ)
    → (ℕ → Float → ℕ)
    → TaskSpec
    → SystemTopologyModel
    → Float
    → Result (Unit {0})
validate_exact_gpu_memory_budget int_of_text safe task topology safety_fraction = do
  table ← gpu_capacity_rows int_of_text safe task topology safety_fraction
  for_each
      (λ row. raise_if (row.estimate_kind == "exact" && not row.within_safe_budget) memory_error)
      table

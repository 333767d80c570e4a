-- ===== src/Examples/Budgets.antt =====
-- prbench/capacity.py on tasks of the sample campaign.
use parallel_reduction_bench.Prelude.{
  ◌==◌, String_eq, ℕ, ◌-◌, ◌*◌, ◌/◌, ◌+◌, ◌^◌, ◌≤◌, ◌<◌, ◌≡◌, refl, ◌⊎◌, inr, none, List, [], ◌∷◌,
  map, All, In, IsDistinct, arith, true, contains, filter, find_last,
}
use mathlib.Core.List.{cons≢nil}
use native.Mathlib.Nat.{div-le_self}
use parallel_reduction_bench.Prelude.Int.{ℤ, pos, leb_ℤ, ◌*ℤ◌}
use parallel_reduction_bench.Prelude.Float.{Float, finite, le_float}
use parallel_reduction_bench.Prelude.Result.{Result, ok, for_each}
use parallel_reduction_bench.Models.{TopologyGpu}
use parallel_reduction_bench.Samples.{measurement, machine, hybrid, dataset, builtins, good_params}
use parallel_reduction_bench.Sweep.Params.{get, to_int}
use parallel_reduction_bench.Sweep.Plan.{TaskSpec}
use parallel_reduction_bench.Models.{ReductionOperation, Repetitions}
use parallel_reduction_bench.Capacity.{
  Estimate, Row, param, estimate, sized, keys_of, gpu_input_allocation_estimates, add_row, rows_of,
  gpu_capacity_rows, cache_rotation_replicas, ceil_ℕ, quotient,
}
use parallel_reduction_bench.Measurement.{
  validate_repetitions, clamp, choose_repetitions, choose_timing_repetitions,
  choose_energy_repetitions, validate_exact_gpu_memory_budget,
}
use parallel_reduction_bench.Measurement.Bounds.{
  Within, validate_repetitions-Within, validate_exact_gpu_memory_budget-fits,
}
use parallel_reduction_bench.Capacity.Rotation.{cache_rotation_replicas-bounds}
use parallel_reduction_bench.Capacity.Split.{estimate-parts}
use parallel_reduction_bench.Capacity.Rows.{IsRow, gpu_capacity_rows-IsRow}

-- three replicas of 100 bytes reach 250 bytes
three_replicas : cache_rotation_replicas 100 250 64 ≡ 3
unfolding cache_rotation_replicas ceil_ℕ
three_replicas = refl

cache_rotation_replicas-bounds_example :
    (1 ≤ cache_rotation_replicas 100 250 64)
    × (cache_rotation_replicas 100 250 64 ≤ 64)
    × ((◌≡◌ {A = ℕ} 100 0) × (cache_rotation_replicas 100 250 64 ≡ 1)
        ⊎ (0 < 100)
          × ((250 ≤ cache_rotation_replicas 100 250 64 * 100)
              ⊎ (cache_rotation_replicas 100 250 64 ≡ 64))
          × ((cache_rotation_replicas 100 250 64 ≡ 1)
              ⊎ ((cache_rotation_replicas 100 250 64 - 1) * 100 < 250)))
cache_rotation_replicas-bounds_example = cache_rotation_replicas-bounds 100 250 64 (omega arith)

-- beyond 2 ^ 53 the quotient is rounded: 3 d + 1 over d is a float 3
rounded_replicas : cache_rotation_replicas (2 ^ 52 + 1) (3 * (2 ^ 52 + 1) + 1) 64 ≡ 3
unfolding cache_rotation_replicas ceil_ℕ quotient
rounded_replicas = refl

-- 2 ^ 60 + 3 over 5 needs 58 digits
rounded_down : quotient (2 ^ 60 + 3) 5 ≡ (230_584_300_921_369_408, 1)
unfolding quotient
rounded_down = refl

-- a task on both GPUs and on one that the machine does not have
abbrev guided : TaskSpec
guided = record {
  task_key = "key";
  task_instance_id = "";
  block_index = pos 0;
  group_id = "core";
  algorithm = record hybrid { transfer_policy = none };
  algorithm_params = good_params;
  dataset = dataset;
  operation = ReductionOperation.sum;
  gpu_ids = pos 0 ∷ pos 1 ∷ pos 5 ∷ [];
  cpu_core_class = "all";
  cpu_thread_policy = "all_threads";
  cpu_numa_node = none;
  cpu_affinity = pos 5 ∷ [];
  gpu_worker_cpus = pos 0 ∷ pos 2 ∷ [];
  gpu_control_bindings = [];
  gpu_control_mode = "dedicated";
  memory_policy = "interleave";
  gpu_staging_numa = "auto";
}

abbrev equal : TaskSpec
equal = record guided { algorithm = record guided.algorithm { scheduler = "static_equal" } }

abbrev guided_estimate : Estimate
guided_estimate = sized 4 "exact" (pos 20)

guided-estimate : estimate builtins.int_of_text guided ≡ ok guided_estimate
unfolding estimate param get to_int contains
guided-estimate = refl

estimate-parts_example :
    (part : ℕ) × (estimate builtins.int_of_text equal ≡ ok (sized 4 "exact" (pos part)))
    × (1000 ≤ part * 4)
    × ((k : ℕ) → k < part → k * 4 < 1000)
estimate-parts_example =
    estimate-parts builtins.int_of_text equal 4 (omega arith) cons≢nil refl refl refl
      (inr (refl, refl))

abbrev half : ℕ → Float → ℕ
half bytes fraction = bytes / 2

abbrev table : List Row
table =
    rows_of builtins.int_of_text half guided machine (finite (pos 1) 1)
      ((pos 0, guided_estimate) ∷ (pos 1, guided_estimate) ∷ (pos 5, guided_estimate) ∷ [])

guided-table :
    (gpu_capacity_rows builtins.int_of_text half guided machine (finite (pos 1) 1) ≡ ok table)
    × (map (λ row. row.within_safe_budget) table ≡ true ∷ true ∷ [])
unfolding gpu_capacity_rows gpu_input_allocation_estimates estimate param get to_int contains
    keys_of filter rows_of add_row find_last ◌*ℤ◌
guided-table = (refl, refl)

gpu_capacity_rows-IsRow_example :
    All (IsRow guided machine) table
    × IsDistinct (map (λ row. row.gpu_id) table)
    × ((gpu : TopologyGpu)
        → In gpu machine.gpus
        → In gpu.index guided.gpu_ids
        → In gpu.index (map (λ row. row.gpu_id) table))
gpu_capacity_rows-IsRow_example =
    gpu_capacity_rows-IsRow builtins.int_of_text half guided machine (finite (pos 1) 1) table
      (λ free. div-le_self free 2) guided-table.0

guided-fits :
    validate_exact_gpu_memory_budget builtins.int_of_text half guided machine (finite (pos 1) 1)
    ≡ ok tt
unfolding validate_exact_gpu_memory_budget gpu_capacity_rows gpu_input_allocation_estimates estimate
    param get to_int contains keys_of filter rows_of add_row find_last ◌*ℤ◌ for_each
guided-fits = refl

validate_exact_gpu_memory_budget-fits_example :
    (rows : List Row) × (gpu_capacity_rows builtins.int_of_text half guided machine
        (finite (pos 1) 1)
      ≡ ok rows)
    × All
        (λ row.
          (row.estimate_kind == "exact") ≡ true
          → leb_ℤ row.estimated_input_bytes (pos row.gpu_free_bytes) ≡ true)
        rows
validate_exact_gpu_memory_budget-fits_example =
    validate_exact_gpu_memory_budget-fits builtins.int_of_text half guided machine
      (finite (pos 1) 1) (λ free. div-le_self free 2) guided-fits

-- an estimate of 50 repetitions, whatever the time of an iteration
abbrev fifty : Float → Float → Result ℤ
fifty target iteration_us = ok (pos 50)

measurement-accepted : validate_repetitions measurement ≡ ok tt
unfolding validate_repetitions
measurement-accepted = refl

fifty_chosen : choose_timing_repetitions fifty measurement (finite (pos 7) 0) ≡ ok (pos 50)
unfolding choose_timing_repetitions choose_repetitions clamp le_float ◌*ℤ◌
fifty_chosen = refl

validate_repetitions-Within_example :
    ((n : ℤ)
      → choose_energy_repetitions fifty measurement (finite (pos 7) 0) ≡ ok n
      → Within 10 1_000_000 n)
    × ((n : ℤ)
        → measurement.timing_repetitions ≡ Repetitions.auto
        → choose_timing_repetitions fifty measurement (finite (pos 7) 0) ≡ ok n
        → Within 30 100_000 n)
    × ((n : ℤ)
        → measurement.timing_repetitions ≡ Repetitions.fixed n
        → (choose_timing_repetitions fifty measurement (finite (pos 7) 0) ≡ ok n)
          × Within 3 1_000_000 n)
validate_repetitions-Within_example =
    validate_repetitions-Within fifty measurement (finite (pos 7) 0) measurement-accepted

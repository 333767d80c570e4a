-- ===== src/Preflight/Evaluate.antt =====
-- `_evaluate_preflight` of prbench/cli.py, and `cmd_preflight` after the plan. Of the report that it returns
-- only the entries that are computed from several others are kept.
use parallel_reduction_bench.Prelude.{
  ℕ, ◌^◌, Bool, true, false, not, ◌&&◌, Option, none, some, String, String_eq, List, [], ◌∷◌, ◌++◌,
  any, contains, find, leb, filter, ◌==◌, if◌then◌else◌,
}
use parallel_reduction_bench.Prelude.Int.{ℤ, pos}
use parallel_reduction_bench.Prelude.Float.{finite, le_float}
use parallel_reduction_bench.Prelude.Result.{Result, ok, ◌>>=◌}
use parallel_reduction_bench.Models.{
  RootConfig, SystemTopologyModel, operation_value, dtype_value, distribution_value,
}
use parallel_reduction_bench.Capacity.{Row}
use parallel_reduction_bench.Sweep.Plan.{TaskSpec}
use parallel_reduction_bench.Preflight.{
  Machine, Builtins, Note, warning, no_hmm, no_gds, float32_sum, note_if, status as status_of,
  is_fatal,
}
use parallel_reduction_bench.Preflight.Devices.{
  gpu_ids_of, cuda_visible_devices_problem, visible_note, energy_notes, gpu_processes,
  process_notes, idle_notes, class_notes, zone_notes,
}
use parallel_reduction_bench.Preflight.Memory.{
  tasks_by_dataset, missing_storage_bytes, all_dataset_notes, storage_notes, capacity_rows,
  headroom_notes, multi_sets, all_set_notes,
}
use parallel_reduction_bench.Preflight.Design.{design_warnings}

abbrev pub libcufile_paths : List String
libcufile_paths =
    "/usr/lib/x86_64-linux-gnu/libcufile.so" ∷ "/usr/local/cuda/lib64/libcufile.so"
    ∷ "/usr/local/cuda/targets/x86_64-linux/lib/libcufile.so" ∷ []

-- `_gds_diagnostics`: the entry "libcufile"
abbrev pub libcufile : (String → Bool) → Option String
libcufile exists = find exists libcufile_paths

abbrev pub is_missing : Option String → Bool
is_missing none = true
is_missing (some path) = path == ""

unfoldable pub path_notes : Bool → (String → Bool) → List TaskSpec → List Note
path_notes hmm_reported exists tasks =
    note_if
      (any (λ t. elim t.algorithm.memory_path [ none ↦ false | some path ↦ path == "hmm_system" ])
          tasks
        && not hmm_reported)
      (warning no_hmm)
    ++ note_if
        (any (λ t. t.algorithm.storage_policy == "gds") tasks && is_missing (libcufile exists))
        (warning no_gds)

-- a sum of many non-negative numbers of single precision
abbrev pub is_float32_sum : TaskSpec → Bool
is_float32_sum t =
    operation_value t.operation == "sum"
    && dtype_value t.dataset.dtype == "float32"
    && leb (2 ^ 24) t.dataset.size
    && contains ("ones" ∷ "uniform" ∷ []) (distribution_value t.dataset.distribution)
    && le_float (finite (pos 0) 0) t.dataset.low

unfoldable pub sum_notes : List TaskSpec → List Note
sum_notes tasks = note_if (any is_float32_sum tasks) (warning float32_sum)

pub record Report : Type 0 where
  pub status : String
  pub gpu_ids : List ℤ
  pub multi_gpu_sets : List (List ℤ)
  pub gpu_memory_capacity : List Row
  pub missing_dataset_bytes : ℕ
  pub configured_growth_limit_bytes : ℕ
  pub warnings : List Note
  pub fatal : List Note

module _ (builtins : Builtins) (config : RootConfig) (topology : SystemTopologyModel)
    (machine : Machine) (tasks : List TaskSpec) where
  -- the checks before the capacity rows
  unfoldable pub device_notes : List ℤ → List Note
  device_notes gpus =
      visible_note (cuda_visible_devices_problem topology machine.cuda_visible_devices)
      ++ energy_notes config.energy config.measurement.strict_preflight topology machine.energy_nvml
          machine.rapl_zones gpus
      ++ process_notes config.measurement (gpu_processes machine.process_nvml gpus)
      ++ idle_notes config.measurement machine.cpu_load machine.dirty
      ++ class_notes topology tasks

  abbrev pub ram_limit : ℕ
  ram_limit = builtins.scaled topology.total_ram_bytes config.measurement.max_dataset_ram_fraction

  abbrev pub storage_growth_limit : ℕ
  storage_growth_limit =
      builtins.scaled machine.disk_free config.measurement.max_dataset_storage_fraction_of_free

  abbrev pub missing_storage : ℕ
  missing_storage = missing_storage_bytes builtins machine.cache (tasks_by_dataset builtins tasks)

  unfoldable pub memory_notes : List Note
  memory_notes =
      all_dataset_notes builtins config.measurement ram_limit machine.available_ram
        (tasks_by_dataset builtins tasks)
      ++ storage_notes missing_storage storage_growth_limit

  -- the checks after the capacity rows, which only warn
  unfoldable pub late_notes : List Note
  late_notes =
      all_set_notes topology (multi_sets tasks)
      ++ path_notes machine.hmm_reported machine.exists tasks
      ++ design_warnings tasks
      ++ sum_notes tasks
      ++ zone_notes config.energy machine.rapl_zones

  abbrev pub all_notes : List Row → List Note
  all_notes rows =
      device_notes (gpu_ids_of tasks) ++ memory_notes ++ headroom_notes rows ++ late_notes

  abbrev pub report_of : List Row → Report
  report_of rows = record {
    status = status_of (all_notes rows);
    gpu_ids = gpu_ids_of tasks;
    multi_gpu_sets = multi_sets tasks;
    gpu_memory_capacity = rows;
    missing_dataset_bytes = missing_storage;
    configured_growth_limit_bytes = storage_growth_limit;
    warnings = filter (λ note. not (is_fatal note)) (all_notes rows);
    fatal = filter is_fatal (all_notes rows);
  }

  unfoldable pub evaluate_preflight : Result Report
  evaluate_preflight = do
    rows ← capacity_rows builtins topology config.measurement.gpu_memory_safety_fraction [] tasks
    ok (report_of rows)

  -- `cmd_preflight`: the exit code
  unfoldable pub preflight_code : Result ℕ
  preflight_code = do report ← evaluate_preflight; ok (if report.status == "failed" then 4 else 0)

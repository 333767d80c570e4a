-- ===== src/Examples/Preflights.antt =====
-- The preflight checks and `cmd_run` of prbench/cli.py on the sample machine.
use parallel_reduction_bench.Prelude.{
  ◌≡◌, ◌↔◌, refl, sym, ◌∙◌, true, false, none, some, List, [], ◌∷◌, inl, inr, any, all, find,
  find_last, filter, contains, dedupe, sort, insert, flat_map,
}
use parallel_reduction_bench.Prelude.Int.{pos, ◌*ℤ◌}
use parallel_reduction_bench.Prelude.Float.{finite, lt_float, le_float}
use parallel_reduction_bench.Prelude.Result.{ok, raise, value_error}
use parallel_reduction_bench.Prelude.Text.{le_text, split, lstrip, rstrip, signed, int_digits}
use parallel_reduction_bench.Models.{DatasetSpec, ReductionOperation, RootConfig}
use parallel_reduction_bench.Samples
use parallel_reduction_bench.Datasets.Cache.{cached_artifact}
use parallel_reduction_bench.Sweep.Plan.{TaskSpec}
use parallel_reduction_bench.Sweep.Params
use parallel_reduction_bench.Sweep.Params.{to_int}
use parallel_reduction_bench.Capacity.{
  param, estimate, keys_of, gpu_input_allocation_estimates, add_row, rows_of, gpu_capacity_rows,
  Row, sized, cache_rotation_replicas,
}
use parallel_reduction_bench.Store.{update, group_into}
use parallel_reduction_bench.Preflight.{Machine, Builtins, warning, confounded_classes}
use parallel_reduction_bench.Preflight.Devices.{
  gpu_ids_of, count_from, ints_of, token_problem, cuda_visible_devices_problem, diagnostics,
  counter_notes, strict_counter_notes, energy_notes, processes_loop, gpu_processes, process_notes,
  idle_notes, class_notes, zone_notes,
}
use parallel_reduction_bench.Preflight.Memory.{
  resident_bytes, missing_storage_bytes, dataset_notes, all_dataset_notes, capacity_rows,
  headroom_notes, le_tuple, multi_sets, selected, set_notes, all_set_notes,
}
use parallel_reduction_bench.Preflight.Design.{
  cover_all, differ, coverage_notes, dyadic, design_warnings,
}
use parallel_reduction_bench.Preflight.Design.Balanced.{IsBalanced}
use parallel_reduction_bench.Preflight.Design.Quiet.{design_warnings_iff}
use parallel_reduction_bench.Preflight.Evaluate.{
  Report, path_notes, sum_notes, device_notes, memory_notes, late_notes, report_of,
  evaluate_preflight,
}
use parallel_reduction_bench.Preflight.Keys.{Planned, IsKey}
use parallel_reduction_bench.Preflight.Ready.{Ready, evaluate_preflight-Ready}
use parallel_reduction_bench.Examples.Sessions.{sample_task}

abbrev performance_task : TaskSpec
performance_task = record sample_task { cpu_core_class = "performance" }

abbrev gpu_task : TaskSpec
gpu_task = record sample_task {
  task_key = "g";
  algorithm = record Samples.hybrid { transfer_policy = none };
  algorithm_params = Samples.good_params;
  gpu_ids = pos 1 ∷ pos 0 ∷ [];
}

abbrev some_tasks : List TaskSpec
some_tasks = performance_task ∷ gpu_task ∷ gpu_task ∷ []

abbrev config : RootConfig
config = record Samples.config {
  measurement = record Samples.measurement {
    cache_rotation_target_bytes = 0;
    strict_preflight = true;
  };
}

-- "0, 1", with a counter on each GPU and no process
abbrev pub idle_machine : Machine
idle_machine = record {
  cuda_visible_devices = some (b'0' ∷ b',' ∷ b' ' ∷ b'1' ∷ []);
  rapl_zones = "intel-rapl:0:package-0" ∷ [];
  energy_nvml = some (λ gpu. some (record { total_energy = true; power_usage = false }));
  process_nvml = some (λ gpu. some (record { compute = some []; graphics = none }));
  cpu_load = finite (pos 1) 0;
  dirty = false;
  available_ram = 64000;
  disk_free = 8000;
  cache = λ spec. record { data_bytes = none; metadata = none };
  hmm_reported = false;
  exists = λ path. false;
}

abbrev pub builtins : Builtins
builtins = record {
  json = λ spec. "{}";
  same_spec = λ a b. true;
  scaled = λ n fraction. n;
  int_of_text = λ s. raise value_error;
}

only_dataset : (spec : DatasetSpec) → Planned some_tasks spec → spec ≡ Samples.dataset
only_dataset spec (inl e) = e
only_dataset spec (inr (inl e)) = e
only_dataset spec (inr (inr (inl e))) = e
only_dataset spec (inr (inr (inr m))) = absurd m

one-IsKey : IsKey builtins some_tasks
one-IsKey a b p q same = only_dataset a p ∙ sym (only_dataset b q)

abbrev table : List Row
table =
    rows_of builtins.int_of_text builtins.scaled gpu_task Samples.machine (finite (pos 3) 2)
      ((pos 1, sized 4 "exact" (pos 20)) ∷ (pos 0, sized 4 "exact" (pos 20)) ∷ [])

abbrev good_report : Report
good_report = report_of builtins config Samples.machine idle_machine some_tasks table

status_ok :
    evaluate_preflight builtins config Samples.machine idle_machine some_tasks ≡ ok good_report
unfolding evaluate_preflight device_notes memory_notes late_notes path_notes sum_notes
    design_warnings cover_all differ coverage_notes dyadic le_text resident_bytes
    missing_storage_bytes dataset_notes all_dataset_notes capacity_rows headroom_notes le_tuple
    multi_sets selected set_notes all_set_notes gpu_ids_of count_from ints_of token_problem
    cuda_visible_devices_problem diagnostics counter_notes strict_counter_notes energy_notes
    processes_loop gpu_processes process_notes idle_notes class_notes zone_notes group_into update
    split lstrip rstrip signed int_digits any all find find_last filter contains dedupe sort insert
    flat_map lt_float le_float ◌*ℤ◌ cached_artifact cache_rotation_replicas param estimate keys_of
    gpu_input_allocation_estimates add_row rows_of gpu_capacity_rows to_int Params.get
status_ok = refl

status_passed : good_report.status ≡ "ok"
unfolding evaluate_preflight device_notes memory_notes late_notes path_notes sum_notes
    design_warnings cover_all differ coverage_notes dyadic le_text resident_bytes
    missing_storage_bytes dataset_notes all_dataset_notes capacity_rows headroom_notes le_tuple
    multi_sets selected set_notes all_set_notes gpu_ids_of count_from ints_of token_problem
    cuda_visible_devices_problem diagnostics counter_notes strict_counter_notes energy_notes
    processes_loop gpu_processes process_notes idle_notes class_notes zone_notes group_into update
    split lstrip rstrip signed int_digits any all find find_last filter contains dedupe sort insert
    flat_map lt_float le_float ◌*ℤ◌ cached_artifact cache_rotation_replicas param estimate keys_of
    gpu_input_allocation_estimates add_row rows_of gpu_capacity_rows to_int Params.get
status_passed = refl

evaluate_preflight-Ready_example : Ready builtins config Samples.machine idle_machine some_tasks
evaluate_preflight-Ready_example =
    evaluate_preflight-Ready builtins config Samples.machine idle_machine some_tasks one-IsKey
      good_report status_ok status_passed

-- the classes of CPUs run the same operations
abbrev class_tasks : List TaskSpec
class_tasks =
    performance_task ∷ record performance_task { cpu_core_class = "efficiency" } ∷ some_tasks

class_tasks-quiet : design_warnings class_tasks ≡ []
unfolding design_warnings cover_all differ coverage_notes dyadic le_text update any all contains
    sort insert ◌*ℤ◌ le_float
class_tasks-quiet = refl

design_warnings_iff_example : (design_warnings class_tasks ≡ []) ↔ IsBalanced class_tasks
design_warnings_iff_example = design_warnings_iff class_tasks

-- with another operation on the efficiency cores alone they do not
confounded :
    design_warnings (
      record sample_task { cpu_core_class = "efficiency"; operation = ReductionOperation.max }
      ∷ class_tasks)
    ≡ warning confounded_classes ∷ []
unfolding design_warnings cover_all differ coverage_notes dyadic le_text update any all contains
    sort insert ◌*ℤ◌ le_float
confounded = refl

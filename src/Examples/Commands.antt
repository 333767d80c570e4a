-- ===== src/Examples/Commands.antt =====
-- `cmd_run` of prbench/cli.py on a plan of one task.
use parallel_reduction_bench.Prelude.{
  arith, ◌≡◌, ◌≢◌, refl, sym, subst, ◌∙◌, false, none, List, [], ◌∷◌, inl, inr, any, all, find,
  find_last, filter, contains, dedupe, sort, insert, flat_map,
}
use parallel_reduction_bench.Prelude.Int.{pos, ◌*ℤ◌, ◌+ℤ◌}
use parallel_reduction_bench.Prelude.Float.{lt_float, le_float}
use parallel_reduction_bench.Prelude.Result.{Result, ok, raise, ok-injective, for_each}
use parallel_reduction_bench.Models.{DatasetSpec, RootConfig, Repetitions}
use parallel_reduction_bench.Samples
use parallel_reduction_bench.Datasets.Cache.{
  get_or_create, Stored, get_or_create-Stored, CacheEntry, Metadata, cached_artifact,
}
use parallel_reduction_bench.Sweep.Plan.{TaskSpec}
use parallel_reduction_bench.Capacity.{
  estimate, keys_of, gpu_input_allocation_estimates, rows_of, gpu_capacity_rows,
  cache_rotation_replicas, cache_rotated_resident_bytes,
}
use parallel_reduction_bench.Store.{get, update, group_into, count_into}
use parallel_reduction_bench.Validation.{same_int, to_int, validate}
use parallel_reduction_bench.Measurement.{
  validate_exact_gpu_memory_budget, choose_energy_repetitions, choose_repetitions, clamp,
}
use parallel_reduction_bench.Runner.Session.{
  external, append_telemetry, append_energy_batch, append_task, meter, read_worker_event,
  send_command,
}
use parallel_reduction_bench.Runner.Worker.{
  capture_telemetry, reap, collect, converse, dump_stage, energy_stage, finish, mark_started,
  mark_stopped, measure, measure_energy, on_ready, release_meter, run_probe, timing_stage,
  validate_event, run_worker,
}
use parallel_reduction_bench.Runner.Budgets.{resident_budget}
use parallel_reduction_bench.Runner.Task.{attempt, prepare, run_task}
use parallel_reduction_bench.Preflight.Devices.{
  gpu_ids_of, token_problem, cuda_visible_devices_problem, ints_of, count_from, diagnostics,
  strict_counter_notes, energy_notes, processes_loop, gpu_processes, process_notes, idle_notes,
  class_notes, zone_notes,
}
use parallel_reduction_bench.Prelude.Text.{le_text, split, lstrip, rstrip, signed, int_digits}
use parallel_reduction_bench.Preflight.Memory.{
  resident_bytes, unique_into, missing_storage_bytes, dataset_notes, all_dataset_notes,
  capacity_rows, headroom_notes, multi_sets, all_set_notes,
}
use parallel_reduction_bench.Preflight.Design.{cover_all, differ, coverage_notes, design_warnings}
use parallel_reduction_bench.Preflight.Evaluate.{
  path_notes, sum_notes, device_notes, memory_notes, late_notes, evaluate_preflight,
}
use parallel_reduction_bench.Preflight.Keys.{Planned, IsKey}
use parallel_reduction_bench.Campaign.{Answers, exit_code, run_tasks, run_campaign}
use parallel_reduction_bench.Campaign.Command.{Create, Outcome, prepare_datasets, cmd_run}
use parallel_reduction_bench.Campaign.Cached.{Stores}
use parallel_reduction_bench.Examples.Values.{five, lowest, lowest-IsDraw}
use parallel_reduction_bench.Datasets.{
  generate, generate_loop, generate_chunk, validate_integer_sum_bound, max_abs, sum_ℤ,
}
use parallel_reduction_bench.Campaign.Prepared.{Finished, cmd_run-Finished}
use parallel_reduction_bench.Examples.Sessions.{sample_task, ops, task_ops, reads, world}
use parallel_reduction_bench.Examples.Preflights.{idle_machine, builtins}

abbrev config : RootConfig
config = record Samples.config {
  measurement = record Samples.measurement {
    timing_repetitions = Repetitions.fixed (pos 2);
    cache_rotation_target_bytes = 0;
  };
}

-- a task on five integers, and the factory of the cache
abbrev small_task : TaskSpec
small_task = record sample_task { dataset = five }

abbrev create_cached : Create
create_cached spec entry = get_or_create builtins.same_spec lowest 2 spec entry

abbrev answer : Answers
answer = record { reads = reads 6; outcomes = []; alive = false }

abbrev outcome : Outcome
outcome =
    cmd_run builtins create_cached task_ops ops config Samples.machine idle_machine
      (λ index. answer) (ok (small_task ∷ [])) (world [])

command_succeeds : exit_code outcome.code ≡ 0
unfolding get_or_create generate generate_loop generate_chunk validate_integer_sum_bound max_abs
    sum_ℤ ◌+ℤ◌ cmd_run prepare_datasets evaluate_preflight device_notes memory_notes late_notes
    path_notes sum_notes design_warnings cover_all differ coverage_notes le_text resident_bytes
    missing_storage_bytes dataset_notes all_dataset_notes unique_into capacity_rows headroom_notes
    multi_sets all_set_notes gpu_ids_of count_from ints_of token_problem
    cuda_visible_devices_problem diagnostics strict_counter_notes energy_notes processes_loop
    gpu_processes process_notes idle_notes class_notes zone_notes group_into split lstrip rstrip
    signed int_digits all find dedupe sort insert flat_map cached_artifact capture_telemetry reap
    collect converse dump_stage energy_stage finish mark_started mark_stopped measure measure_energy
    on_ready release_meter run_probe timing_stage validate_event external append_telemetry
    append_energy_batch append_task meter read_worker_event send_command le_float lt_float
    choose_energy_repetitions choose_repetitions clamp ◌*ℤ◌ same_int to_int validate run_worker
    run_campaign run_tasks run_task attempt prepare resident_budget validate_exact_gpu_memory_budget
    gpu_capacity_rows gpu_input_allocation_estimates rows_of estimate keys_of
    cache_rotated_resident_bytes cache_rotation_replicas any filter find_last contains count_into
    get update for_each
command_succeeds = refl

one_dataset : (spec : DatasetSpec) → Planned (small_task ∷ []) spec → spec ≡ five
one_dataset spec (inl e) = e
one_dataset spec (inr m) = absurd m

planned-IsKey : (tasks : List TaskSpec) → ok (small_task ∷ []) ≡ ok tasks → IsKey builtins tasks
planned-IsKey tasks e =
    subst (IsKey builtins) (ok-injective e)
      (λ a b p q same. one_dataset a p ∙ sym (one_dataset b q))

retained_artifact :
    (spec : DatasetSpec) (result : Result Metadata × CacheEntry) (m : Metadata)
    → Stored builtins.same_spec lowest 2 spec result
    → result.0 ≡ ok m
    → cached_artifact builtins.same_spec spec result.1 ≢ none
retained_artifact spec (raise kind, entry) m stored made = absurd (cc made)
retained_artifact spec (ok found, entry) m stored made = λ missing. cc (sym stored ∙ missing)

planned-Stores :
    (tasks : List TaskSpec) → ok (small_task ∷ []) ≡ ok tasks → Stores builtins create_cached tasks
planned-Stores tasks e =
    subst (Stores builtins create_cached) (ok-injective e) (λ spec entry m p made.
      retained_artifact spec (create_cached spec entry) m
        (subst (λ s. Stored builtins.same_spec lowest 2 s (create_cached s entry))
          (sym (one_dataset spec p))
          (get_or_create-Stored builtins.same_spec lowest 2 five lowest-IsDraw refl (omega arith)
            refl entry))
        made)

cmd_run-Finished_example :
    Finished builtins create_cached config Samples.machine idle_machine
      (λ index. answer)
      (ok (small_task ∷ []))
      outcome
cmd_run-Finished_example =
    cmd_run-Finished builtins create_cached task_ops ops config Samples.machine idle_machine
      (λ index. answer) (world []) refl (ok (small_task ∷ [])) planned-IsKey planned-Stores
      command_succeeds

-- ===== src/Examples/Sessions.antt =====
-- prbench/runner.py and the loop of prbench/cli.py on one task with a worker that answers.
use parallel_reduction_bench.Prelude.{
  ℕ, ◌≡◌, refl, false, Option, none, some, String, List, [], ◌∷◌,
}
use parallel_reduction_bench.Prelude.Int.{pos}
use parallel_reduction_bench.Prelude.Float.{finite}
use parallel_reduction_bench.Prelude.Result.{Result, ok, raise, keyboard_interrupt, for_each}
use parallel_reduction_bench.Models.{RootConfig, Repetitions, ReductionOperation}
use parallel_reduction_bench.Samples
use parallel_reduction_bench.Sweep.Plan.{TaskSpec}
use parallel_reduction_bench.Validation.{Number, validate}
use parallel_reduction_bench.Examples.Verdicts.{exact}
use parallel_reduction_bench.Runner.Session.{WorkerEvent, World, Command}
use parallel_reduction_bench.Runner.Session.Keeps.{Post}
use parallel_reduction_bench.Runner.Worker.{DatasetArtifact, FloatOps, run_worker}
use parallel_reduction_bench.Runner.Worker.Order.{FollowsProtocol, run_worker-FollowsProtocol}
use parallel_reduction_bench.Runner.Budgets.{TaskOps}
use parallel_reduction_bench.Runner.Task.{run_task}
use parallel_reduction_bench.Runner.Task.Ended.{Returned, Raised, run_task-Ended}
use parallel_reduction_bench.Campaign.{Answers, exit_code, run_campaign}
use parallel_reduction_bench.Campaign.Success.{Complete, run_campaign-Complete}
use parallel_reduction_bench.Campaign.{run_tasks}
use parallel_reduction_bench.Runner.Worker.{
  capture_telemetry, reap, collect, converse, dump_stage, energy_stage, finish, mark_started,
  mark_stopped, measure, measure_energy, on_ready, release_meter, run_probe, timing_stage,
  validate_event,
}
use parallel_reduction_bench.Runner.Session.{
  external, append_telemetry, append_energy_batch, append_task, meter, read_worker_event,
  send_command,
}
use parallel_reduction_bench.Runner.Task.{attempt, prepare}
use parallel_reduction_bench.Runner.Budgets.{resident_budget}
use parallel_reduction_bench.Prelude.Float.{lt_float, le_float}
use parallel_reduction_bench.Capacity.{
  gpu_capacity_rows, gpu_input_allocation_estimates, rows_of, estimate, keys_of,
  cache_rotated_resident_bytes, cache_rotation_replicas,
}
use parallel_reduction_bench.Prelude.{any, filter, find_last, contains}
use parallel_reduction_bench.Measurement.{
  validate_exact_gpu_memory_budget, choose_energy_repetitions, choose_repetitions, clamp,
}
use parallel_reduction_bench.Prelude.Int.{◌*ℤ◌}
use parallel_reduction_bench.Store.{count_into, get, update}
use parallel_reduction_bench.Validation.{same_int, to_int}

abbrev pub sample_task : TaskSpec
sample_task = record {
  task_key = "k";
  task_instance_id = "k-0";
  block_index = pos 0;
  group_id = "core";
  algorithm = Samples.cpu_only;
  algorithm_params = [];
  dataset = Samples.dataset;
  operation = ReductionOperation.sum;
  gpu_ids = [];
  cpu_core_class = "all";
  cpu_thread_policy = "all_threads";
  cpu_numa_node = none;
  cpu_affinity = pos 0 ∷ pos 1 ∷ [];
  gpu_worker_cpus = [];
  gpu_control_bindings = [];
  gpu_control_mode = "dedicated";
  memory_policy = "default";
  gpu_staging_numa = "auto";
}

abbrev artifact : DatasetArtifact
artifact = record {
  size_bytes = 4000;
  reference_sum = Number.int (pos 6);
  reference_min = Number.int (pos 0);
  reference_max = Number.int (pos 3);
  sum_abs = finite (pos 6) 0;
}

abbrev pub ops : FloatOps
ops = record { estimated = λ target mean. ok (pos 40); arithmetic = exact }

abbrev pub task_ops : TaskOps
task_ops = record {
  quotient = λ a b. ok (finite (pos 0) 0);
  int_of_text = λ s. raise keyboard_interrupt;
  safe = λ free fraction. free;
  get_or_create = λ spec. ok artifact;
}

abbrev pub config : RootConfig
config = record Samples.config {
  measurement = record Samples.measurement { timing_repetitions = Repetitions.fixed (pos 2) };
}

abbrev event : String → Option Number → Result WorkerEvent
event name result = ok (record {
  event = name;
  mean_iteration_us = some (finite (pos 5) 0);
  warmup_median_us = none;
  result = result;
})

-- a worker whose second result is as given
abbrev pub reads : ℕ → List (Result WorkerEvent)
reads second =
    event "ready" none
    ∷ event "timing_done" none
    ∷ event "measure_done" (some (Number.int (pos 6)))
    ∷ event "result" (some (Number.int (pos 6)))
    ∷ event "result" (some (Number.int (pos second)))
    ∷ event "done" none
    ∷ []

abbrev pub world : List (Result WorkerEvent) → World
world rs = record {
  reads = rs;
  outcomes = [];
  alive = false;
  sent = [];
  telemetry = [];
  task_rows = [];
  repetition_rows = [];
  energy_rows = [];
  meters = [];
  energy_started = false;
  energy_stopped = false;
}

-- the commands of a complete session, newest first
sent-run_worker :
    (run_worker ops config sample_task 1 artifact (world (reads 5))).1.sent
    ≡ Command.dump ∷ Command.energy (pos 40) ∷ Command.timing (pos 2) ∷ []
unfolding capture_telemetry reap collect converse dump_stage energy_stage finish mark_started
    mark_stopped measure measure_energy on_ready release_meter run_probe timing_stage validate_event
    external append_telemetry append_energy_batch append_task meter read_worker_event send_command
    le_float lt_float choose_energy_repetitions choose_repetitions clamp ◌*ℤ◌ same_int to_int
    validate run_worker
sent-run_worker = refl

run_worker-FollowsProtocol_example :
    FollowsProtocol (run_worker ops config sample_task 1 artifact (world (reads 5))).1
run_worker-FollowsProtocol_example =
    run_worker-FollowsProtocol ops config sample_task 1 artifact (world (reads 5)) refl

-- a worker that is interrupted after it was ready
abbrev interrupted : World
interrupted = world (event "ready" none ∷ raise keyboard_interrupt ∷ [])

run_task-Ended_example :
    Post
      (λ _. Returned task_ops ops config Samples.machine sample_task 1 [] [])
      (Raised task_ops ops config Samples.machine sample_task 1 [] [])
      (run_task task_ops ops config Samples.machine sample_task 1 interrupted)
run_task-Ended_example =
    run_task-Ended task_ops ops config Samples.machine sample_task 1 [] [] interrupted refl refl

abbrev sample_plan : List (TaskSpec × Answers)
sample_plan = (sample_task, record { reads = reads 6; outcomes = []; alive = false }) ∷ []

success : exit_code (run_campaign task_ops ops config Samples.machine sample_plan (world [])).0 ≡ 0
unfolding capture_telemetry reap collect converse dump_stage energy_stage finish mark_started
    mark_stopped measure measure_energy on_ready release_meter run_probe timing_stage validate_event
    external append_telemetry append_energy_batch append_task meter read_worker_event send_command
    le_float lt_float choose_energy_repetitions choose_repetitions clamp ◌*ℤ◌ same_int to_int
    validate run_worker run_campaign run_tasks run_task attempt prepare resident_budget
    validate_exact_gpu_memory_budget gpu_capacity_rows gpu_input_allocation_estimates rows_of
    estimate keys_of cache_rotated_resident_bytes cache_rotation_replicas any filter find_last
    contains count_into get update for_each
success = refl

run_campaign-Complete_example :
    Complete
      (sample_task ∷ [])
      (run_campaign task_ops ops config Samples.machine sample_plan (world [])).1.task_rows
run_campaign-Complete_example =
    run_campaign-Complete task_ops ops config Samples.machine sample_plan (world []) refl success

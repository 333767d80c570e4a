-- ===== src/Runner/Task.antt =====
-- `run_task` of prbench/runner.py.
pub mod Ended
use parallel_reduction_bench.Prelude.{ℕ, Bool, true, false, String, List, if◌then◌else◌}
use parallel_reduction_bench.Prelude.Result.{Kind}
use parallel_reduction_bench.Models.{RootConfig, SystemTopologyModel}
use parallel_reduction_bench.Measurement.{validate_exact_gpu_memory_budget}
use parallel_reduction_bench.Sweep.Plan.{TaskSpec}
use parallel_reduction_bench.Runner.Session.{
  World, M, ◌>>=◌, ◌>>◌, pure, fail, lift, append_task, is_exception, catch,
}
use parallel_reduction_bench.Runner.Worker.{
  DatasetArtifact, FloatOps, task_row, capture_telemetry, wait_ready, run_worker,
}
use parallel_reduction_bench.Runner.Budgets.{
  TaskOps, validate_dataset_spec_memory_budget, validate_memory_budget,
}

module _ (task_ops : TaskOps) (ops : FloatOps) (config : RootConfig)
    (topology : SystemTopologyModel) (task : TaskSpec) (sequence_index : ℕ) where
  -- What comes before the worker.
  unfoldable pub prepare : M DatasetArtifact
  prepare = do
    lift (validate_dataset_spec_memory_budget task_ops config topology task)
    lift (
        validate_exact_gpu_memory_budget task_ops.int_of_text task_ops.safe task topology
          config.measurement.gpu_memory_safety_fraction)
    dataset ← lift (task_ops.get_or_create task.dataset)
    lift (validate_memory_budget task_ops config topology task dataset)
    wait_ready ops config task sequence_index
    capture_telemetry ops config task sequence_index "pre_task"
    pure dataset

  -- the body of the `try`
  unfoldable pub attempt : M (Unit {0})
  attempt = do dataset ← prepare; run_worker ops config task sequence_index dataset

  abbrev pub append_failed : M (Unit {0})
  append_failed = do
    capture_telemetry ops config task sequence_index "post_task_failed"
    append_task (task_row ops config task sequence_index "failed" 0)

  abbrev pub append_interrupted : M (Unit {0})
  append_interrupted = do
    capture_telemetry ops config task sequence_index "post_task_interrupted"
    append_task (task_row ops config task sequence_index "interrupted" 0)

  -- the two `except` clauses
  abbrev pub recover : Kind → M (Unit {0})
  recover kind = if is_exception kind then append_failed else (append_interrupted >> fail kind)

  unfoldable pub run_task : M (Unit {0})
  run_task = do capture_telemetry ops config task sequence_index "task_entry"; catch attempt recover

-- ===== src/Runner/Budgets.antt =====
-- The memory budgets that `run_task` of prbench/runner.py checks before it starts a worker.
use parallel_reduction_bench.Prelude.{ℕ, ◌==◌, String_eq, String, if◌then◌else◌, max}
use parallel_reduction_bench.Prelude.Float.{Float, lt_float}
use parallel_reduction_bench.Prelude.Int.{ℤ}
use parallel_reduction_bench.Prelude.Result.{Result, ok, ◌>>=◌, raise_if, memory_error}
use parallel_reduction_bench.Models.{RootConfig, SystemTopologyModel, DatasetSpec}
use parallel_reduction_bench.Capacity.{dataset_size_bytes}
use parallel_reduction_bench.Measurement.{dataset_resident_bytes}
use parallel_reduction_bench.Sweep.Plan.{TaskSpec}
use parallel_reduction_bench.Runner.Worker.{DatasetArtifact}

-- What `run_task` calls: the quotient of two integers as a float, `int` of a text, `int(free * fraction)`,
-- and the dataset factory.
pub record TaskOps : Type 0 where
  pub quotient : ℕ → ℕ → Result Float
  pub int_of_text : String → Result ℤ
  pub safe : ℕ → Float → ℕ
  pub get_or_create : DatasetSpec → Result DatasetArtifact

module _ (task_ops : TaskOps) (config : RootConfig) (topology : SystemTopologyModel) where
  -- The test of both budgets for memory, on the bytes of one copy of the dataset.
  unfoldable pub resident_budget : TaskSpec → ℕ → Result (Unit {0})
  resident_budget task bytes =
      if task.algorithm.storage_policy == "host_resident"
      then (do
        fraction ←
            task_ops.quotient (dataset_resident_bytes config.measurement bytes)
              (max 1 topology.total_ram_bytes)
        raise_if (lt_float config.measurement.max_dataset_ram_fraction fraction) memory_error)
      else ok tt

  abbrev pub validate_dataset_spec_memory_budget : TaskSpec → Result (Unit {0})
  validate_dataset_spec_memory_budget task = resident_budget task (dataset_size_bytes task.dataset)

  abbrev pub validate_memory_budget : TaskSpec → DatasetArtifact → Result (Unit {0})
  validate_memory_budget task dataset = resident_budget task dataset.size_bytes

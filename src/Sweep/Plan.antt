-- ===== src/Sweep/Plan.antt =====
-- `SweepPlanner` of prbench/sweep.py: the tasks of a group, and the instances of a campaign.
pub mod Runnable
pub mod Campaign
use parallel_reduction_bench.Prelude.{
  ℕ, zero, suc, Bool, ◌&&◌, Option, String, List, [], ◌∷◌, ◌++◌, map, is_empty, if◌then◌else◌,
}
use parallel_reduction_bench.Prelude.Int.{ℤ, pos, negsuc, ◌+ℤ◌}
use parallel_reduction_bench.Prelude.Result.{Result, ok, raise, value_error, ◌>>=◌, extend_each}
use parallel_reduction_bench.Models.{
  AlgorithmDefinition, AlgorithmRequest, DatasetSpec, ExperimentGroup, ReductionOperation,
  RootConfig, SystemTopologyModel, core_class_value, thread_policy_value, control_mode_value,
  operation_value,
}
use parallel_reduction_bench.Catalog
use parallel_reduction_bench.Catalog.{AlgorithmCatalog}
use parallel_reduction_bench.Topology.{resolve_cpu_pool}
use parallel_reduction_bench.Sweep.GpuSets.{resolve_gpu_sets}
use parallel_reduction_bench.Sweep.Params.{Combo, expand_params}
use parallel_reduction_bench.Sweep.Control.{Assignment, Binding, assign_gpu_control_cpus}

pub record TaskSpec : Type 0 where
  pub task_key : String
  pub task_instance_id : String
  pub block_index : ℤ
  pub group_id : String
  pub algorithm : AlgorithmDefinition
  pub algorithm_params : Combo
  pub dataset : DatasetSpec
  pub operation : ReductionOperation
  pub gpu_ids : List ℤ
  pub cpu_core_class : String
  pub cpu_thread_policy : String
  pub cpu_numa_node : Option ℤ
  pub cpu_affinity : List ℤ
  pub gpu_worker_cpus : List ℤ
  pub gpu_control_bindings : List Binding
  pub gpu_control_mode : String
  pub memory_policy : String
  pub gpu_staging_numa : String

-- What a task's key is a digest of.
pub record Identity : Type 0 where
  pub group : String
  pub algorithm : String
  pub params : Combo
  pub dataset : DatasetSpec
  pub operation : String
  pub gpus : List ℤ
  pub cpu_core_class : String
  pub cpu_thread_policy : String
  pub cpu_numa_node : Option ℤ
  pub cpu_explicit_ids : Option (List ℤ)
  pub cpu_affinity : List ℤ
  pub gpu_worker_cpus : List ℤ
  pub gpu_control_mode : String
  pub memory_policy : String
  pub gpu_staging_numa : String

-- Functions of the Python library that the planner calls: the digests of `stable_hash` (SHA-256 of
-- the canonical JSON), `random.Random(seed).shuffle`, and `int` of a text.
pub record Builtins : Type 0 where
  pub task_digest : Identity → String
  pub instance_digest : String → ℕ → String
  pub shuffle : ℤ → List TaskSpec → List TaskSpec
  pub int_of_text : String → Result ℤ

module _ (topology : SystemTopologyModel) where
  -- the compute pool, the workers and the bindings of one GPU set
  unfoldable pub place : ExperimentGroup → AlgorithmDefinition → List ℤ → Result Assignment
  place group definition gpu_ids = do
    cpu_pool ←
        resolve_cpu_pool topology (core_class_value group.hardware.cpu_core_class)
          (thread_policy_value group.hardware.cpu_thread_policy) group.hardware.cpu_numa_node
          group.hardware.cpu_explicit_ids
    placed ←
        (if definition.uses_gpu
          then assign_gpu_control_cpus topology cpu_pool gpu_ids
              (control_mode_value group.hardware.gpu_control_mode)
          else ok (record { remaining = cpu_pool; workers = []; bindings = [] }))
    if definition.uses_cpu && is_empty placed.remaining then raise value_error else ok placed

abbrev pub affinity : AlgorithmDefinition → Assignment → List ℤ
affinity definition placed = if definition.uses_cpu then placed.remaining else []

unfoldable pub identity :
    ExperimentGroup
    → DatasetSpec
    → ReductionOperation
    → AlgorithmDefinition
    → List ℤ
    → Assignment
    → Combo
    → Identity
identity group dataset operation definition gpu_ids placed params = record {
  group = group.id;
  algorithm = definition.id;
  params = params;
  dataset = dataset;
  operation = operation_value operation;
  gpus = gpu_ids;
  cpu_core_class = core_class_value group.hardware.cpu_core_class;
  cpu_thread_policy = thread_policy_value group.hardware.cpu_thread_policy;
  cpu_numa_node = group.hardware.cpu_numa_node;
  cpu_explicit_ids = group.hardware.cpu_explicit_ids;
  cpu_affinity = affinity definition placed;
  gpu_worker_cpus = placed.workers;
  gpu_control_mode = control_mode_value group.hardware.gpu_control_mode;
  memory_policy = group.hardware.memory_policy;
  gpu_staging_numa = group.hardware.gpu_staging_numa;
}

module _ (lib : Builtins) where
  unfoldable pub task :
      ExperimentGroup
      → DatasetSpec
      → ReductionOperation
      → AlgorithmDefinition
      → List ℤ
      → Assignment
      → Combo
      → TaskSpec
  unfolding identity
  task group dataset operation definition gpu_ids placed params = record {
    task_key = lib.task_digest (identity group dataset operation definition gpu_ids placed params);
    task_instance_id = "";
    block_index = negsuc 0;
    group_id = group.id;
    algorithm = definition;
    algorithm_params = params;
    dataset = dataset;
    operation = operation;
    gpu_ids = gpu_ids;
    cpu_core_class = core_class_value group.hardware.cpu_core_class;
    cpu_thread_policy = thread_policy_value group.hardware.cpu_thread_policy;
    cpu_numa_node = group.hardware.cpu_numa_node;
    cpu_affinity = affinity definition placed;
    gpu_worker_cpus = placed.workers;
    gpu_control_bindings = placed.bindings;
    gpu_control_mode = control_mode_value group.hardware.gpu_control_mode;
    memory_policy = group.hardware.memory_policy;
    gpu_staging_numa = group.hardware.gpu_staging_numa;
  }

  -- a task's copy in a block
  unfoldable pub instance_of : ℕ → TaskSpec → TaskSpec
  instance_of block item = record item {
    task_instance_id = lib.instance_digest item.task_key block;
    block_index = pos block;
  }

  -- `for block in range(...)`, with `left` blocks from `block` on
  unfoldable pub instances : ℤ → List TaskSpec → ℕ → ℕ → List TaskSpec
  instances seed base zero block = []
  instances seed base (suc left) block =
      lib.shuffle (seed +ℤ pos block) (map (instance_of block) base)
      ++ instances seed base left (suc block)

module _ (lib : Builtins) (catalog : AlgorithmCatalog) (topology : SystemTopologyModel) where
  -- The bodies of the nested loops of `_plan_group`, innermost first.
  unfoldable pub plan_gpu_set :
      ExperimentGroup
      → DatasetSpec
      → ReductionOperation
      → AlgorithmDefinition
      → List Combo
      → List ℤ
      → Result (List TaskSpec)
  plan_gpu_set group dataset operation definition params_grid gpu_ids = do
    placed ← place topology group definition gpu_ids
    ok (map (task lib group dataset operation definition gpu_ids placed) params_grid)

  unfoldable pub plan_request :
      ExperimentGroup → DatasetSpec → ReductionOperation → AlgorithmRequest → Result (List TaskSpec)
  plan_request group dataset operation request = do
    definition ← Catalog.get catalog request.id
    gpu_sets ← resolve_gpu_sets topology group.hardware definition
    params_grid ← expand_params lib.int_of_text request.params
    extend_each (plan_gpu_set group dataset operation definition params_grid) gpu_sets

  unfoldable pub plan_group : ExperimentGroup → Result (List TaskSpec)
  plan_group group =
      extend_each
        (λ dataset.
          extend_each
            (λ operation. extend_each (plan_request group dataset operation) group.algorithms)
            group.operations)
        group.datasets

  unfoldable pub plan : RootConfig → Result (List TaskSpec)
  plan config = do
    base ← extend_each plan_group config.experiments
    ok (instances lib config.measurement.randomization_seed base config.measurement.blocks 0)

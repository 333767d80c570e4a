-- ===== src/Runner/Command.antt =====
-- `_worker_command` of prbench/runner.py: the command line of a task's worker. An option is its flag with the value
-- whose text follows it.
pub mod Passes
use parallel_reduction_bench.Prelude.{
  ℕ, ◌^◌, max, Bool, true, false, ◌&&◌, not, Option, none, some, String, String_eq, List, [], ◌∷◌,
  ◌++◌, map, length, is_empty, find_last, sort, ◌==◌, if◌then◌else◌,
}
use parallel_reduction_bench.Prelude.Int.{ℤ, ℤ_eq, pos, negsuc, leb_ℤ}
use parallel_reduction_bench.Prelude.Float.{Float, finite}
use parallel_reduction_bench.Prelude.Result.{Result, ok, raise, key_error, ◌>>=◌}
use parallel_reduction_bench.Models.{
  Scalar, MeasurementConfig, SystemTopologyModel, TopologyGpu, dtype_value, operation_value,
}
use parallel_reduction_bench.Capacity.{text_or}
use parallel_reduction_bench.Energy.Record.{is_truthy}
use parallel_reduction_bench.Sweep.Params.{get}
use parallel_reduction_bench.Sweep.Plan.{TaskSpec}

-- What the text of an argument is made of: a text, a number, numbers between commas, or a parameter's value.
pub data Argument : Type 0 where
  text : String → Argument
  number : ℤ → Argument
  numbers : List ℤ → Argument
  value : Scalar → Argument

abbrev pub count : ℕ → Argument
count n = number (pos n)

-- the defaults that `params` starts with
abbrev pub defaults : List (String × Scalar)
defaults =
    ("block_size", Scalar.int (pos 256))
    ∷ ("chunk_size", Scalar.int (pos 1_048_576))
    ∷ ("min_chunk_size", Scalar.int (pos 65_536))
    ∷ ("max_chunk_size", Scalar.int (pos 16_777_216))
    ∷ ("guided_factor", Scalar.float (finite (pos 2) 0))
    ∷ ("target_chunk_ms", Scalar.float (finite (pos 5) 0))
    ∷ ("ema_alpha", Scalar.float (finite (pos 1) 2))
    ∷ ("pipeline_streams", Scalar.int (pos 4))
    ∷ ("pipeline_chunks", Scalar.int (pos 16))
    ∷ ("pipeline_chunk_elements", Scalar.int (pos 0))
    ∷ ("reuse_count", Scalar.int (pos 1))
    ∷ ("use_cuda_graphs", Scalar.bool false)
    ∷ ("cpu_fraction", Scalar.float (finite (negsuc 0) 0))
    ∷ []

-- `params[name]`, at what the task and the defaults have under the name
abbrev pub merged : Option Scalar → Option Scalar → Result Scalar
merged none none = raise key_error
merged none (some default) = ok default
merged (some v) default = ok v

abbrev pub value_of : TaskSpec → String → Result Scalar
value_of task name = merged (get task.algorithm_params name) (get defaults name)

-- the flags of the command, each with the name of the parameter whose value follows it
abbrev pub parameter_flags : List (String × String)
parameter_flags =
    ("--block-size", "block_size")
    ∷ ("--chunk-size", "chunk_size")
    ∷ ("--min-chunk-size", "min_chunk_size")
    ∷ ("--max-chunk-size", "max_chunk_size")
    ∷ ("--guided-factor", "guided_factor")
    ∷ ("--target-chunk-ms", "target_chunk_ms")
    ∷ ("--ema-alpha", "ema_alpha")
    ∷ ("--pipeline-streams", "pipeline_streams")
    ∷ ("--pipeline-chunks", "pipeline_chunks")
    ∷ ("--pipeline-chunk-elements", "pipeline_chunk_elements")
    ∷ ("--reuse-count", "reuse_count")
    ∷ ("--cpu-fraction", "cpu_fraction")
    ∷ []

unfoldable pub parameter_options :
    TaskSpec → List (String × String) → Result (List (String × Argument))
parameter_options task [] = ok []
parameter_options task ((flag, name) ∷ flags) = do
  v ← value_of task name
  rest ← parameter_options task flags
  ok ((flag, value v) ∷ rest)

-- The NUMA node of each GPU, -1 where the GPU or its node is not known.
abbrev pub node_or : Option ℤ → ℤ
node_or none = negsuc 0
node_or (some node) = node

abbrev pub node_of : Option TopologyGpu → ℤ
node_of none = negsuc 0
node_of (some gpu) = node_or gpu.numa_node

abbrev pub gpu_nodes : SystemTopologyModel → List ℤ → List ℤ
gpu_nodes topology gpus = map (λ id. node_of (find_last (λ g. g.index == id) topology.gpus)) gpus

pub record WorkerCommand : Type 0 where
  pub interleave : Option (List ℤ)
  pub worker_path : String
  pub options : List (String × Argument)
  pub cuda_graphs : Bool

module _ (m : MeasurementConfig) (topology : SystemTopologyModel) (worker_path data_path : String)
    (has_numactl : Bool) where
  abbrev pub task_options : TaskSpec → List (String × Argument)
  task_options task =
      ("--dataset", text data_path)
      ∷ ("--dtype", text (dtype_value task.dataset.dtype))
      ∷ ("--operation", text (operation_value task.operation))
      ∷ ("--count", count task.dataset.size)
      ∷ ("--scheduler", text task.algorithm.scheduler)
      ∷ ("--cpu-backend", text (text_or task.algorithm.cpu_backend "none"))
      ∷ ("--gpu-backend", text (text_or task.algorithm.gpu_backend "none"))
      ∷ ("--transfer-policy", text (text_or task.algorithm.transfer_policy "sync"))
      ∷ ("--memory-path", text (text_or task.algorithm.memory_path "default"))
      ∷ ("--storage-policy", text task.algorithm.storage_policy)
      ∷ ("--gpu-staging-numa", text task.gpu_staging_numa)
      ∷ ("--gpus", numbers task.gpu_ids)
      ∷ ("--gpu-numa-nodes", numbers (gpu_nodes topology task.gpu_ids))
      ∷ ("--cpu-affinity", numbers task.cpu_affinity)
      ∷ ("--gpu-worker-cpus", numbers task.gpu_worker_cpus)
      ∷ ("--cpu-threads", count (max 1 (length task.cpu_affinity)))
      ∷ ("--warmup-runs", count m.warmup_runs)
      ∷ ("--calibration-repetitions", count m.scheduler_calibration_repetitions)
      ∷ ("--calibration-bursts", count m.scheduler_calibration_bursts)
      ∷ ("--cache-rotation-target-bytes", count m.cache_rotation_target_bytes)
      ∷ ("--cache-rotation-max-replicas", count m.cache_rotation_max_replicas)
      ∷ []

  abbrev pub interleaves : TaskSpec → Bool
  interleaves task =
      task.algorithm.storage_policy == "host_resident"
      && task.memory_policy == "interleave"
      && has_numactl
      && not (is_empty topology.numa_nodes)

  unfoldable pub worker_command : TaskSpec → Result WorkerCommand
  worker_command task = do
    parameters ← parameter_options task parameter_flags
    graphs ← value_of task "use_cuda_graphs"
    ok (record {
      interleave = if interleaves task then some (sort leb_ℤ topology.numa_nodes) else none;
      worker_path = worker_path;
      options = task_options task ++ parameters;
      cuda_graphs = is_truthy graphs;
    })

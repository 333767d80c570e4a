-- ===== src/Samples.antt =====
-- A small machine and campaign on which the other modules' examples run: two sockets, four cores of
-- two threads, of which CPU 7 is offline, and two GPUs.
use parallel_reduction_bench.Prelude.{ℕ, true, false, none, some, String, List, [], ◌∷◌}
use parallel_reduction_bench.Prelude.Int.{ℤ, pos, negsuc}
use parallel_reduction_bench.Prelude.Float.{finite}
use parallel_reduction_bench.Prelude.Result.{raise, value_error}
use parallel_reduction_bench.Models.{
  AlgorithmDefinition, DatasetSpec, DType, ReductionOperation, Distribution, QuantizationMode,
  ExperimentGroup, HardwareConfig, CpuCoreClass, CpuThreadPolicy, GpuControlMode, GpuSet, Scalar,
  Param, MeasurementConfig, Repetitions, RootConfig, SystemTopologyModel, TopologyCpu, TopologyGpu,
}
use parallel_reduction_bench.Catalog.{AlgorithmCatalog}
use parallel_reduction_bench.Sweep.Plan.{Builtins}

abbrev cpu : ℕ → ℕ → ℕ → String → TopologyCpu
cpu id socket core class = record {
  cpu_id = pos id;
  socket_id = pos socket;
  core_id = pos core;
  numa_node = some (pos socket);
  online = true;
  core_class = class;
  core_class_source = "native_cpuid";
}

abbrev gpu : ℕ → ℕ → List ℤ → TopologyGpu
gpu index node cpus = record {
  index = pos index;
  name = "gpu";
  memory_bytes = 16000;
  memory_free_bytes = some 12000;
  compute_capability = some "8.0";
  numa_node = some (pos node);
  local_cpus = cpus;
}

abbrev pub gpu1 : TopologyGpu
gpu1 = gpu 1 1 (pos 2 ∷ pos 3 ∷ [])

abbrev pub cpu_ids : List ℤ
cpu_ids = pos 0 ∷ pos 1 ∷ pos 2 ∷ pos 3 ∷ pos 4 ∷ pos 5 ∷ pos 6 ∷ []

abbrev pub cpu0 : TopologyCpu
cpu0 = cpu 0 0 0 "performance"

abbrev pub cpu4 : TopologyCpu
cpu4 = cpu 4 0 0 "performance"

abbrev pub machine : SystemTopologyModel
machine = record {
  logical_cpus =
      cpu4
      ∷ cpu 5 0 1 "efficiency"
      ∷ cpu0
      ∷ cpu 1 0 1 "efficiency"
      ∷ cpu 2 1 0 "performance"
      ∷ cpu 3 1 1 "efficiency"
      ∷ cpu 6 1 0 "performance"
      ∷ record (cpu 7 1 1 "efficiency") { online = false }
      ∷ [];
  allowed_cpus = cpu_ids;
  numa_nodes = pos 1 ∷ pos 0 ∷ [];
  gpus = gpu 0 0 (pos 0 ∷ pos 1 ∷ []) ∷ gpu1 ∷ [];
  total_ram_bytes = 64000;
  nvml_available = true;
}

abbrev pub hybrid : AlgorithmDefinition
hybrid = record {
  id = "hybrid_dynamic";
  scheduler = "dynamic_guided";
  cpu_backend = some "openmp";
  gpu_backend = some "cuda";
  transfer_policy = some "async_pipeline";
  memory_path = none;
  storage_policy = "host_resident";
  uses_cpu = true;
  uses_gpu = true;
  supports_multi_gpu = true;
  min_gpus = 1;
  tunables = "min_chunk_size" ∷ "max_chunk_size" ∷ [];
}

abbrev pub cpu_only : AlgorithmDefinition
cpu_only = record hybrid {
  id = "cpu_openmp";
  scheduler = "cpu_only";
  transfer_policy = none;
  uses_gpu = false;
  supports_multi_gpu = false;
  min_gpus = 0;
  tunables = [];
}

abbrev pub catalog : AlgorithmCatalog
catalog = record { definitions = hybrid ∷ cpu_only ∷ [] }

abbrev pub dataset : DatasetSpec
dataset = record {
  size = 1000;
  dtype = DType.int32;
  distribution = Distribution.uniform;
  seed = pos 1;
  low = finite (negsuc 0) 0;
  high = finite (pos 1) 0;
  quantization = record { mode = QuantizationMode.none; digits = none; bits = none };
}

abbrev pub grid : List (String × Param)
grid =
    ("min_chunk_size", Param.many (Scalar.int (pos 10) ∷ Scalar.int (pos 30) ∷ []))
    ∷ ("max_chunk_size", Param.one (Scalar.int (pos 20)))
    ∷ []

abbrev pub good_params : List (String × Scalar)
good_params = ("min_chunk_size", Scalar.int (pos 10)) ∷ ("max_chunk_size", Scalar.int (pos 20)) ∷ []

abbrev pub hardware : HardwareConfig
hardware = record {
  cpu_core_class = CpuCoreClass.all;
  cpu_thread_policy = CpuThreadPolicy.all_threads;
  cpu_numa_node = none;
  cpu_explicit_ids = none;
  gpu_sets = GpuSet.named "each" ∷ GpuSet.named "pairs" ∷ GpuSet.single (pos 1) ∷ [];
  gpu_control_mode = GpuControlMode.dedicated;
  memory_policy = "interleave";
  gpu_staging_numa = "auto";
}

abbrev pub group : ExperimentGroup
group = record {
  id = "core";
  datasets = dataset ∷ [];
  algorithms =
      record { id = "hybrid_dynamic"; params = grid }
      ∷ record { id = "cpu_openmp"; params = [] }
      ∷ [];
  operations = ReductionOperation.sum ∷ [];
  hardware = hardware;
}

abbrev pub measurement : MeasurementConfig
measurement = record {
  warmup_runs = 5;
  scheduler_calibration_repetitions = 5;
  scheduler_calibration_bursts = 3;
  timing_repetitions = Repetitions.auto;
  timing_probe_repetitions = 10;
  timing_target_batch_seconds = finite (pos 1) 1;
  timing_min_repetitions = 30;
  timing_max_repetitions = 100_000;
  cache_rotation_target_bytes = 268_435_456;
  cache_rotation_max_replicas = 64;
  energy_batch_repetitions = Repetitions.auto;
  energy_target_batch_seconds = finite (pos 3) 0;
  energy_min_repetitions = 10;
  energy_max_repetitions = 1_000_000;
  blocks = 2;
  randomization_seed = pos 5;
  max_dataset_ram_fraction = finite (pos 1) 1;
  max_dataset_storage_fraction_of_free = finite (pos 1) 1;
  gpu_memory_safety_fraction = finite (pos 3) 2;
  thermal_safety_gpu_c = finite (pos 90) 0;
  thermal_safety_cpu_c = finite (pos 95) 0;
  thermal_wait_timeout_s = finite (pos 300) 0;
  strict_preflight = false;
  max_preflight_cpu_load_percent = finite (pos 5) 0;
  allow_gpu_graphics_processes = false;
}

abbrev pub config : RootConfig
config = record {
  measurement = measurement;
  energy = record { enable_cpu = true; enable_gpu = true };
  telemetry = record {
    enabled = true;
    capture_pre_post_timing = true;
    capture_pre_post_energy = false;
  };
  experiments = group ∷ [];
}

abbrev pub builtins : Builtins
builtins = record {
  task_digest = λ identity. identity.algorithm;
  instance_digest = λ key block. key;
  shuffle = λ seed tasks. tasks;
  int_of_text = λ s. raise value_error;
}

-- ===== src/Models.antt =====
-- prbench/models.py: the configuration and topology records. Fields that only travel to the
-- output files (labels, UUIDs, PCIe speeds, host names) are left out. A natural-number field is a
-- Python `int` that its `Field` constraint or its origin keeps non-negative.
use parallel_reduction_bench.Prelude.{ℕ, String, Bool, Option, List}
use parallel_reduction_bench.Prelude.Int.{ℤ}
use parallel_reduction_bench.Prelude.Float.{Float}

pub data DType : Type 0 where
  int32 int64 float32 float64 : DType

pub data ReductionOperation : Type 0 where
  sum min max : ReductionOperation

pub data Distribution : Type 0 where
  ones zeros uniform integers symmetric_uniform : Distribution

pub data QuantizationMode : Type 0 where
  none decimal binary_fraction : QuantizationMode

pub record QuantizationConfig : Type 0 where
  pub mode : QuantizationMode
  pub digits : Option ℕ
  pub bits : Option ℕ

pub record DatasetSpec : Type 0 where
  pub size : ℕ
  pub dtype : DType
  pub distribution : Distribution
  pub seed : ℤ
  pub low : Float
  pub high : Float
  pub quantization : QuantizationConfig

-- A scalar that YAML puts in a parameter: `dict[str, Any]` without nested containers.
pub data Scalar : Type 0 where
  int : ℤ → Scalar
  bool : Bool → Scalar
  float : Float → Scalar
  text : String → Scalar
  null : Scalar

-- A parameter's value: a scalar, or a list of scalars that the sweep expands.
pub data Param : Type 0 where
  one : Scalar → Param
  many : List Scalar → Param

pub record AlgorithmRequest : Type 0 where
  pub id : String
  pub params : List (String × Param)

pub data CpuCoreClass : Type 0 where
  all performance efficiency : CpuCoreClass

pub data CpuThreadPolicy : Type 0 where
  all_threads one_thread_per_core : CpuThreadPolicy

pub data GpuControlMode : Type 0 where
  dedicated shared : GpuControlMode

-- An entry of `gpu_sets: list[Any]`; `other` is any value that the planner does not read.
pub data GpuSet : Type 0 where
  named : String → GpuSet
  single : ℤ → GpuSet
  several : List ℤ → GpuSet
  other : GpuSet

pub record HardwareConfig : Type 0 where
  pub cpu_core_class : CpuCoreClass
  pub cpu_thread_policy : CpuThreadPolicy
  pub cpu_numa_node : Option ℤ
  pub cpu_explicit_ids : Option (List ℤ)
  pub gpu_sets : List GpuSet
  pub gpu_control_mode : GpuControlMode
  pub memory_policy : String
  pub gpu_staging_numa : String

-- `int | Literal["auto"]`
pub data Repetitions : Type 0 where
  auto : Repetitions
  fixed : ℤ → Repetitions

pub record MeasurementConfig : Type 0 where
  pub warmup_runs : ℕ
  pub scheduler_calibration_repetitions : ℕ
  pub scheduler_calibration_bursts : ℕ
  pub timing_repetitions : Repetitions
  pub timing_probe_repetitions : ℕ
  pub timing_target_batch_seconds : Float
  pub timing_min_repetitions : ℕ
  pub timing_max_repetitions : ℕ
  pub cache_rotation_target_bytes : ℕ
  pub cache_rotation_max_replicas : ℕ
  pub energy_batch_repetitions : Repetitions
  pub energy_target_batch_seconds : Float
  pub energy_min_repetitions : ℕ
  pub energy_max_repetitions : ℕ
  pub blocks : ℕ
  pub randomization_seed : ℤ
  pub max_dataset_ram_fraction : Float
  pub max_dataset_storage_fraction_of_free : Float
  pub gpu_memory_safety_fraction : Float
  pub thermal_safety_gpu_c : Float
  pub thermal_safety_cpu_c : Float
  pub thermal_wait_timeout_s : Float
  pub strict_preflight : Bool
  pub max_preflight_cpu_load_percent : Float
  pub allow_gpu_graphics_processes : Bool

pub record EnergyConfig : Type 0 where
  pub enable_cpu : Bool
  pub enable_gpu : Bool

pub record TelemetryConfig : Type 0 where
  pub enabled : Bool
  pub capture_pre_post_timing : Bool
  pub capture_pre_post_energy : Bool

pub record ExperimentGroup : Type 0 where
  pub id : String
  pub datasets : List DatasetSpec
  pub algorithms : List AlgorithmRequest
  pub operations : List ReductionOperation
  pub hardware : HardwareConfig

pub record RootConfig : Type 0 where
  pub measurement : MeasurementConfig
  pub energy : EnergyConfig
  pub telemetry : TelemetryConfig
  pub experiments : List ExperimentGroup

pub record AlgorithmDefinition : Type 0 where
  pub id : String
  pub scheduler : String
  pub cpu_backend : Option String
  pub gpu_backend : Option String
  pub transfer_policy : Option String
  pub memory_path : Option String
  pub storage_policy : String
  pub uses_cpu : Bool
  pub uses_gpu : Bool
  pub supports_multi_gpu : Bool
  pub min_gpus : ℕ
  pub tunables : List String

pub record TopologyCpu : Type 0 where
  pub cpu_id : ℤ
  pub socket_id : ℤ
  pub core_id : ℤ
  pub numa_node : Option ℤ
  pub online : Bool
  pub core_class : String
  pub core_class_source : String

pub record TopologyGpu : Type 0 where
  pub index : ℤ
  pub name : String
  pub memory_bytes : ℕ
  pub memory_free_bytes : Option ℕ
  pub compute_capability : Option String
  pub numa_node : Option ℤ
  pub local_cpus : List ℤ

-- `numa_nodes` are the keys of that dict.
pub record SystemTopologyModel : Type 0 where
  pub logical_cpus : List TopologyCpu
  pub allowed_cpus : List ℤ
  pub numa_nodes : List ℤ
  pub gpus : List TopologyGpu
  pub total_ram_bytes : ℕ
  pub nvml_available : Bool

-- the enums' `.value`
abbrev pub core_class_value : CpuCoreClass → String
core_class_value all = "all"
core_class_value performance = "performance"
core_class_value efficiency = "efficiency"

abbrev pub thread_policy_value : CpuThreadPolicy → String
thread_policy_value all_threads = "all_threads"
thread_policy_value one_thread_per_core = "one_thread_per_core"

abbrev pub control_mode_value : GpuControlMode → String
control_mode_value dedicated = "dedicated"
control_mode_value shared = "shared"

abbrev pub dtype_value : DType → String
dtype_value int32 = "int32"
dtype_value int64 = "int64"
dtype_value float32 = "float32"
dtype_value float64 = "float64"

abbrev pub distribution_value : Distribution → String
distribution_value ones = "ones"
distribution_value zeros = "zeros"
distribution_value uniform = "uniform"
distribution_value integers = "integers"
distribution_value symmetric_uniform = "symmetric_uniform"

abbrev pub operation_value : ReductionOperation → String
operation_value sum = "sum"
operation_value min = "min"
operation_value max = "max"

-- ===== src/Preflight.antt =====
-- The checks of `_evaluate_preflight` of prbench/cli.py before a campaign. What it appends to `fatal` and to
-- `warnings` is one list of notes here, in the order in which they are appended.
pub mod Devices
pub mod Passed
pub mod Memory
pub mod Design
pub mod Evaluate
pub mod Clear
pub mod Keys
pub mod Fits
pub mod Idle
pub mod Ready
use parallel_reduction_bench.Prelude.{
  ℕ, Bool, true, false, Option, String, List, [], ◌∷◌, any, if◌then◌else◌,
}
use parallel_reduction_bench.Prelude.Int.{ℤ}
use parallel_reduction_bench.Prelude.Float.{Float}
use parallel_reduction_bench.Prelude.Result.{Result}
use parallel_reduction_bench.Models.{DatasetSpec}
use parallel_reduction_bench.Capacity.{Row}
use parallel_reduction_bench.Datasets.Cache.{CacheEntry}

pub data VisibleDevices : Type 0 where
  not_numeric reordered : VisibleDevices

-- One for each message of the checks, with what the message names.
pub data Problem : Type 0 where
  visible_devices : VisibleDevices → Problem
  no_rapl no_nvml : Problem
  no_gpu_counter : ℤ → Problem
  compute_processes graphics_processes cpu_load dirty_tree incomplete_classes : Problem
  over_ram_limit over_available_ram : DatasetSpec → Problem
  over_storage_limit : Problem
  memory_headroom : Row → Problem
  heterogeneous_set spanning_set : List ℤ → Problem
  no_hmm no_gds : Problem
  confounded_classes confounded_control confounded_dtypes : Problem
  float32_sum several_rapl_zones : Problem

pub data Note : Type 0 where
  fatal warning : Problem → Note

abbrev pub is_fatal : Note → Bool
is_fatal (fatal problem) = true
is_fatal (warning problem) = false

abbrev pub note_if : Bool → Note → List Note
note_if true note = note ∷ []
note_if false note = []

-- `fatal.append(...)` in the first case, `warnings.append(...)` in the other
abbrev pub severity : Bool → Problem → Note
severity strict problem = if strict then fatal problem else warning problem

abbrev pub status : List Note → String
status notes = if any is_fatal notes then "failed" else "ok"

-- The counters that NVML can read on a GPU, and the processes it reports there; a call that raises is
-- `none`.
pub record Counters : Type 0 where
  pub total_energy : Bool
  pub power_usage : Bool

pub record Processes : Type 0 where
  pub compute : Option (List ℕ)
  pub graphics : Option (List ℕ)

-- What the machine answers to the checks. The calls of NVML are `none` where it is missing or does not
-- start, and for a GPU whose handle it does not give.
pub record Machine : Type 0 where
  pub cuda_visible_devices : Option (List ℕ)
  pub rapl_zones : List String
  pub energy_nvml : Option (ℤ → Option Counters)
  pub process_nvml : Option (ℤ → Option Processes)
  pub cpu_load : Float
  pub dirty : Bool
  pub available_ram : ℕ
  pub disk_free : ℕ
  pub cache : DatasetSpec → CacheEntry
  pub hmm_reported : Bool
  pub exists : String → Bool

-- Functions of the Python library: `model_dump_json` of a dataset, the equality of two as JSON,
-- `int(n * fraction)`, and `int` of a text.
pub record Builtins : Type 0 where
  pub json : DatasetSpec → String
  pub same_spec : DatasetSpec → DatasetSpec → Bool
  pub scaled : ℕ → Float → ℕ
  pub int_of_text : String → Result ℤ

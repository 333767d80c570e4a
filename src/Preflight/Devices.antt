-- ===== src/Preflight/Devices.antt =====
-- The checks on GPUs, energy counters, idleness and core classes of `_evaluate_preflight` of prbench/cli.py.
use parallel_reduction_bench.Prelude.{
  ℕ, zero, suc, ◌+◌, Bool, false, not, ◌||◌, ◌&&◌, Option, none, some, String, String_eq, ℕ_eq,
  list_eq, List, [], ◌∷◌, ◌++◌, map, length, is_empty, filter, any, all, find_last, dedupe,
  contains, sort, leb, flat_map, ◌==◌, if◌then◌else◌,
}
use parallel_reduction_bench.Prelude.Int.{ℤ, ℤ_eq, pos, leb_ℤ}
use parallel_reduction_bench.Prelude.Float.{Float, lt_float}
use parallel_reduction_bench.Prelude.Text.{strip, split, is_digit, int_of_codes}
use parallel_reduction_bench.Models.{
  EnergyConfig, MeasurementConfig, SystemTopologyModel, TopologyCpu,
}
use parallel_reduction_bench.Store.{group_by}
use parallel_reduction_bench.Sweep.Plan.{TaskSpec}
use parallel_reduction_bench.Preflight.{
  Counters, Processes, Note, fatal, warning, Problem, visible_devices, VisibleDevices, not_numeric,
  reordered, no_rapl, no_nvml, no_gpu_counter, compute_processes, graphics_processes, dirty_tree,
  incomplete_classes, several_rapl_zones, note_if, severity,
}

-- `sorted({gpu for task in tasks for gpu in task.gpu_ids})`
unfoldable pub gpu_ids_of : List TaskSpec → List ℤ
gpu_ids_of tasks = sort leb_ℤ (dedupe (flat_map (λ task. task.gpu_ids) tasks))

-- `range(n)` from a start
unfoldable pub count_from : ℕ → ℕ → List ℤ
count_from first zero = []
count_from first (suc n) = pos first ∷ count_from (first + 1) n

abbrev pub tokens_of : List ℕ → List (List ℕ)
tokens_of raw = filter (λ token. not (is_empty token)) (map strip (split b',' raw))

-- `int` of each token, where they are digits
unfoldable pub ints_of : List (List ℕ) → List ℤ
ints_of [] = []
ints_of (token ∷ tokens) = elim (int_of_codes token) [
  | none ↦ ints_of tokens
  | some n ↦ n ∷ ints_of tokens
]

-- `_cuda_visible_devices_problem`
unfoldable pub token_problem : SystemTopologyModel → List (List ℕ) → Option VisibleDevices
token_problem topology tokens =
    if is_empty tokens || not (all (all is_digit) tokens)
    then some not_numeric
    else if ints_of tokens == count_from 0 (length topology.gpus)
    then none
    else some reordered

unfoldable pub cuda_visible_devices_problem :
    SystemTopologyModel → Option (List ℕ) → Option VisibleDevices
cuda_visible_devices_problem topology none = none
cuda_visible_devices_problem topology (some raw) =
    if is_empty (strip raw) then none else token_problem topology (tokens_of raw)

abbrev pub visible_note : Option VisibleDevices → List Note
visible_note none = []
visible_note (some problem) = fatal (visible_devices problem) ∷ []

-- `NvmlEnergyMeter.diagnostics`: the entries of its rows that are read here
pub record Diagnostic : Type 0 where
  pub gpu_id : ℤ
  pub total_energy_counter_supported : Bool
  pub power_usage_supported : Bool

abbrev pub diagnostic : ℤ → Option Counters → Diagnostic
diagnostic gpu none = record {
  gpu_id = gpu;
  total_energy_counter_supported = false;
  power_usage_supported = false;
}
diagnostic gpu (some counters) = record {
  gpu_id = gpu;
  total_energy_counter_supported = counters.total_energy;
  power_usage_supported = counters.power_usage;
}

unfoldable pub diagnostics : Option (ℤ → Option Counters) → List ℤ → List Diagnostic
diagnostics none gpus = []
diagnostics (some nvml) gpus = map (λ gpu. diagnostic gpu (nvml gpu)) gpus

-- whether the GPU's row says that a counter can be read
abbrev pub is_supported : Option Diagnostic → Bool
is_supported none = false
is_supported (some item) = item.total_energy_counter_supported || item.power_usage_supported

unfoldable pub counter_notes : List Diagnostic → List ℤ → List Note
counter_notes rows [] = []
counter_notes rows (gpu ∷ gpus) =
    note_if (not (is_supported (find_last (λ row. row.gpu_id == gpu) rows)))
      (fatal (no_gpu_counter gpu))
    ++ counter_notes rows gpus

unfoldable pub strict_counter_notes :
    EnergyConfig → Bool → Option (ℤ → Option Counters) → List ℤ → List Note
strict_counter_notes energy strict nvml gpus =
    if strict && energy.enable_gpu && not (is_empty gpus)
    then counter_notes (if energy.enable_gpu then diagnostics nvml gpus else []) gpus
    else []

unfoldable pub energy_notes :
    EnergyConfig
    → Bool
    → SystemTopologyModel
    → Option (ℤ → Option Counters)
    → List String
    → List ℤ
    → List Note
energy_notes energy strict topology nvml zones gpus =
    note_if (energy.enable_cpu && is_empty zones) (fatal no_rapl)
    ++ note_if (energy.enable_gpu && not (is_empty gpus) && not topology.nvml_available)
        (fatal no_nvml)
    ++ strict_counter_notes energy strict nvml gpus

-- `sorted({int(p.pid) for p in processes})`, and nothing where the call raises
abbrev pub pids : Option (List ℕ) → List ℕ
pids none = []
pids (some processes) = sort leb (dedupe processes)

-- The rows of `_gpu_processes`: the GPU, its compute processes and its graphics processes. A GPU without a
-- handle ends the loop.
unfoldable pub processes_loop : (ℤ → Option Processes) → List ℤ → List (ℤ × List ℕ × List ℕ)
processes_loop nvml [] = []
processes_loop nvml (gpu ∷ gpus) = elim (nvml gpu) [
  | none ↦ []
  | some p ↦ (gpu, pids p.compute, pids p.graphics) ∷ processes_loop nvml gpus
]

unfoldable pub gpu_processes : Option (ℤ → Option Processes) → List ℤ → List (ℤ × List ℕ × List ℕ)
gpu_processes none gpus = []
gpu_processes (some nvml) gpus = processes_loop nvml gpus

unfoldable pub process_notes : MeasurementConfig → List (ℤ × List ℕ × List ℕ) → List Note
process_notes m rows =
    note_if (any (λ row. not (is_empty row.1)) rows) (fatal compute_processes)
    ++ note_if (any (λ row. not (is_empty row.2)) rows)
        (severity (m.strict_preflight && not m.allow_gpu_graphics_processes) graphics_processes)

unfoldable pub idle_notes : MeasurementConfig → Float → Bool → List Note
idle_notes m load dirty =
    note_if (lt_float m.max_preflight_cpu_load_percent load)
      (severity m.strict_preflight Problem.cpu_load)
    ++ note_if (m.strict_preflight && dirty) (fatal dirty_tree)

-- The allowed CPUs by their class.
abbrev pub classes_of : SystemTopologyModel → List (String × List TopologyCpu)
classes_of topology =
    group_by (λ cpu. cpu.core_class)
      (filter (λ cpu. contains topology.allowed_cpus cpu.cpu_id) topology.logical_cpus)

abbrev pub has_class : SystemTopologyModel → String → Bool
has_class topology core_class = contains (map (λ entry. entry.0) (classes_of topology)) core_class

abbrev pub asks_for_class : TaskSpec → Bool
asks_for_class task = contains ("performance" ∷ "efficiency" ∷ []) task.cpu_core_class

unfoldable pub class_notes : SystemTopologyModel → List TaskSpec → List Note
class_notes topology tasks =
    note_if
      (any asks_for_class tasks
        && (not (has_class topology "performance") || not (has_class topology "efficiency")))
      (fatal incomplete_classes)

unfoldable pub zone_notes : EnergyConfig → List String → List Note
zone_notes energy zones =
    note_if (energy.enable_cpu && leb 2 (length zones)) (warning several_rapl_zones)

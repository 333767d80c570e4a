-- ===== src/Examples/Records.antt =====
-- The energy meters, the idleness gate and the worker's command line of prbench on a sample task.
use parallel_reduction_bench.Prelude.{
  ℕ, ◌≡◌, refl, true, false, none, some, List, [], ◌∷◌, find, filter, contains, ◌==◌, if◌then◌else◌,
}
use parallel_reduction_bench.Prelude.Int.{ℤ, ℤ_eq, pos, ◌*ℤ◌}
use parallel_reduction_bench.Prelude.Float.{finite, lt_float}
use parallel_reduction_bench.Prelude.Result.{ok, for_each}
use parallel_reduction_bench.Models.{MeasurementConfig}
use parallel_reduction_bench.Samples
use parallel_reduction_bench.Sweep.Plan.{TaskSpec}
use parallel_reduction_bench.Energy.{trapezoids, integrate_clipped, integrate_samples}
use parallel_reduction_bench.Energy.Meters.{
  NvmlMeter, find_handles, nvml_meter, read_counters, start, GpuEnergies, Window, stop, Meters,
  Metrics, total_energy_counter, power_trapezoid_fallback,
}
use parallel_reduction_bench.Energy.Record.{EnergyRow}
use parallel_reduction_bench.Energy.Measured.{AreMeasured, stop-AreMeasured}
use parallel_reduction_bench.Runner.Session.{RepetitionRow}
use parallel_reduction_bench.Store.{group_into, update, get}
use parallel_reduction_bench.Store.Summary.{EnergyBatch, SummaryRow, summary_row, block_summary}
use parallel_reduction_bench.Store.Counted.{IsBlockRow, total_samples, block_summary-IsBlockRow}
use parallel_reduction_bench.Prelude.{Bool, String, All, dedupe, sort, insert}
use parallel_reduction_bench.Runner.Gate.{Nvml, validate_runtime_idleness}
use parallel_reduction_bench.Runner.Gate.Closed.{AreQuiet, validate_runtime_idleness-AreQuiet}
use parallel_reduction_bench.Runner.Command.{WorkerCommand, worker_command}
use parallel_reduction_bench.Runner.Command.Passes.{Passes, worker_command-Passes}
use parallel_reduction_bench.Examples.Sessions.{sample_task}

-- GPU 0 has a total counter, GPU 1 has none
abbrev nvml : NvmlMeter
nvml = record {
  gpu_ids = pos 0 ∷ pos 1 ∷ [];
  handles = (pos 0, true) ∷ (pos 1, false) ∷ [];
  available = true;
}

made :
    nvml_meter (some (λ gpu. if gpu == pos 0 then some true else some false)) (pos 0 ∷ pos 1 ∷ [])
    ≡ nvml
unfolding nvml_meter find_handles
made = refl

abbrev counters : List (ℤ × ℕ)
counters = (pos 0, 7) ∷ []

started : start (λ gpu. ok 7) nvml ≡ ok counters
unfolding read_counters
started = refl

abbrev window : Window
window = record {
  read = λ gpu. ok 10;
  samples = λ gpu. (20, 5) ∷ (30, 5) ∷ [];
  start_ns = 10;
  end_ns = 40;
}

-- three millijoules, and five milliwatts for thirty nanoseconds
abbrev energies : GpuEnergies
energies = record {
  total = 6_000_000_300;
  per_gpu =
      record { gpu_id = pos 0; energy = 6_000_000_000; method = total_energy_counter; samples = 2 }
      ∷ record { gpu_id = pos 1; energy = 300; method = power_trapezoid_fallback; samples = 2 }
      ∷ [];
}

stopped : stop window counters nvml.handles ≡ ok energies
unfolding stop find integrate_samples integrate_clipped trapezoids filter
stopped = refl

stop-AreMeasured_example : AreMeasured (λ gpu. ok 7) window nvml.handles energies
stop-AreMeasured_example =
    stop-AreMeasured (λ gpu. ok 7) window nvml counters energies refl started stopped

-- both components are asked for, but there is no RAPL zone
abbrev meters : Meters
meters = record { cpu = true; gpu = true; zones = []; nvml = nvml }

abbrev metrics : Metrics
metrics = record {
  cpu_energy = none;
  gpu_energy = some 6_000_000_300;
  gpu_energy_devices = energies.per_gpu;
}

abbrev row : EnergyRow
row = record {
  logical_reductions = pos 30;
  measured_component_energy = some (pos 6_000_000_300);
  cpu_energy_per_reduction = none;
  gpu_energy_per_reduction = some (record { numerator = pos 6_000_000_300; denominator = pos 30 });
  measured_energy_per_reduction =
      some (record { numerator = pos 6_000_000_300; denominator = pos 30 });
  energy_coverage = "gpu";
  energy_requested_components = "cpu_package" ∷ "gpu" ∷ [];
  energy_complete = false;
}

abbrev strict : MeasurementConfig
strict = record Samples.measurement { strict_preflight = true }

abbrev gpu_task : TaskSpec
gpu_task = record sample_task { gpu_ids = pos 1 ∷ [] }

-- the worker itself computes on the GPU
abbrev answering : Nvml
answering = record {
  init = ok tt;
  processes = λ gpu. ok (record { compute = some (42 ∷ []); graphics = none });
}

passes_gate :
    validate_runtime_idleness strict (42 ∷ []) (finite (pos 1) 0) (some answering) gpu_task ≡ ok tt
unfolding validate_runtime_idleness for_each contains filter lt_float ◌*ℤ◌
passes_gate = refl

validate_runtime_idleness-AreQuiet_example :
    (lt_float strict.max_preflight_cpu_load_percent (finite (pos 1) 0) ≡ false)
    × AreQuiet strict (42 ∷ []) (some answering) (pos 1 ∷ [])
validate_runtime_idleness-AreQuiet_example =
    validate_runtime_idleness-AreQuiet strict (42 ∷ []) (finite (pos 1) 0) (some answering) gpu_task
      refl passes_gate

worker_command-Passes_example :
    (made : WorkerCommand) × (worker_command strict Samples.machine "worker" "data" true gpu_task
      ≡ ok made)
    × Passes strict Samples.machine true gpu_task made
worker_command-Passes_example =
    worker_command-Passes strict Samples.machine "worker" "data" true gpu_task

-- two blocks of one task, of which one has two results, and a third result that failed
abbrev repetition : ℕ → String → Bool → RepetitionRow
repetition block status correct = record {
  task_key = "k";
  task_instance_id = "";
  block_index = pos block;
  status = status;
  is_correct = correct;
}

abbrev repetitions : List RepetitionRow
repetitions =
    repetition 0 "ok" true
    ∷ repetition 1 "ok" true
    ∷ repetition 0 "failed" true
    ∷ repetition 0 "ok" false
    ∷ []

abbrev batches : List EnergyBatch
batches =
    record { task_key = "k"; block_index = pos 1; status = "ok"; energy_coverage = "gpu" } ∷ []

abbrev block_row : ℕ → ℕ → ℕ → ℕ → String → SummaryRow
block_row block samples correct energies coverage = record {
  task_key = "k";
  block_index = some (pos block);
  samples = samples;
  correct = correct;
  task_instances = none;
  energy_batches = energies;
  energy_coverage = coverage ∷ [];
}

two_blocks :
    block_summary repetitions batches [] ≡ block_row 0 2 1 0 "none" ∷ block_row 1 1 1 1 "gpu" ∷ []
unfolding block_summary summary_row group_into update get filter dedupe contains sort insert
two_blocks = refl

block_summary-IsBlockRow_example :
    All (IsBlockRow repetitions batches []) (block_summary repetitions batches [])
    × (total_samples repetitions batches [] (block_summary repetitions batches []) ≡ 3)
unfolding filter
block_summary-IsBlockRow_example = block_summary-IsBlockRow repetitions batches []

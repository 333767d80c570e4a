-- ===== src/Energy/Meters.antt =====
-- `NvmlEnergyMeter` and `CompositeEnergyMeter` of prbench/energy.py, between their start and their stop. The
-- samples of the polling thread are input. Energies are exact: doubled picojoules, of which a millijoule has
-- 2 * 10 ^ 9, a microjoule 2 * 10 ^ 6, and a milliwatt in a nanosecond 2.
use parallel_reduction_bench.Prelude.{
  ℕ, ◌+◌, ◌-◌, ◌*◌, ◌^◌, Bool, true, false, not, ◌&&◌, Option, none, some, String, List, [], ◌∷◌,
  length, is_empty, find, ◌==◌, if◌then◌else◌,
}
use parallel_reduction_bench.Prelude.Int.{ℤ, ℤ_eq, pos, ◌*ℤ◌}
use parallel_reduction_bench.Prelude.Result.{Result, ok, ◌>>=◌}
use parallel_reduction_bench.Energy.{RaplZone, delta_j, integrate_samples}

-- What NVML gives when the meter is made: for each GPU no handle, or whether its total counter can be read.
abbrev pub Handles : Type 0
Handles = List (ℤ × Bool)

pub record NvmlMeter : Type 0 where
  pub gpu_ids : List ℤ
  pub handles : Handles
  pub available : Bool

abbrev pub add_handle : ℤ → Bool → Bool × Handles → Bool × Handles
add_handle gpu supported (complete, handles) = (complete, (gpu, supported) ∷ handles)

-- whether each GPU has a handle, and the handles before the first without
unfoldable pub find_handles : (ℤ → Option Bool) → List ℤ → Bool × Handles
find_handles answer [] = (true, [])
find_handles answer (gpu ∷ gpus) = elim (answer gpu) [
  | none ↦ (false, [])
  | some supported ↦ add_handle gpu supported (find_handles answer gpus)
]

-- `__init__`; NVML is missing or does not start in the first case
unfoldable pub nvml_meter : Option (ℤ → Option Bool) → List ℤ → NvmlMeter
nvml_meter none gpus = record { gpu_ids = gpus; handles = []; available = false }
nvml_meter (some answer) gpus =
    let (complete, handles) = find_handles answer gpus in
    record { gpu_ids = gpus; handles = handles; available = complete && not (is_empty handles) }

-- The counters at the start, in millijoules.
unfoldable pub read_counters : (ℤ → Result ℕ) → Handles → Result (List (ℤ × ℕ))
read_counters read [] = ok []
read_counters read ((gpu, supported) ∷ handles) =
    if supported
    then (do value ← read gpu; rest ← read_counters read handles; ok ((gpu, value) ∷ rest))
    else read_counters read handles

abbrev pub start : (ℤ → Result ℕ) → NvmlMeter → Result (List (ℤ × ℕ))
start read meter = if meter.available then read_counters read meter.handles else ok []

pub data Method : Type 0 where
  total_energy_counter power_trapezoid_fallback : Method

pub record GpuEnergy : Type 0 where
  pub gpu_id : ℤ
  pub energy : ℕ
  pub method : Method
  pub samples : ℕ

pub record GpuEnergies : Type 0 where
  pub total : ℕ
  pub per_gpu : List GpuEnergy

abbrev pub per_millijoule : ℕ
per_millijoule = 2 * 10 ^ 9

abbrev pub start_of : List (ℤ × ℕ) → ℤ → Option (ℤ × ℕ)
start_of counters gpu = find (λ entry. entry.0 == gpu) counters

-- What the meters read at the stop.
pub record Window : Type 0 where
  pub read : ℤ → Result ℕ
  pub samples : ℤ → List (ℕ × ℕ)
  pub start_ns : ℕ
  pub end_ns : ℕ

module _ (window : Window) (counters : List (ℤ × ℕ)) where
  abbrev pub sampled : ℤ → Result GpuEnergy
  sampled gpu = do
    energy ← integrate_samples (window.samples gpu) window.start_ns window.end_ns
    ok (record {
      gpu_id = gpu;
      energy = energy;
      method = power_trapezoid_fallback;
      samples = length (window.samples gpu);
    })

  -- `max(0.0, ...)`: a counter that was reset counts as no energy
  abbrev pub counted : ℤ → ℕ → Result GpuEnergy
  counted gpu start_mj = do
    end_mj ← window.read gpu
    ok (record {
      gpu_id = gpu;
      energy = per_millijoule * (end_mj - start_mj);
      method = total_energy_counter;
      samples = length (window.samples gpu);
    })

  abbrev pub energy_of : ℤ → Bool → Option (ℤ × ℕ) → Result GpuEnergy
  energy_of gpu true (some (_, start_mj)) = counted gpu start_mj
  energy_of gpu true none = sampled gpu
  energy_of gpu false started = sampled gpu

  abbrev pub add_energy : GpuEnergy → GpuEnergies → GpuEnergies
  add_energy e rest = record { total = e.energy + rest.total; per_gpu = e ∷ rest.per_gpu }

  -- `stop`
  unfoldable pub stop : Handles → Result GpuEnergies
  stop [] = ok (record { total = 0; per_gpu = [] })
  stop ((gpu, supported) ∷ handles) = do
    energy ← energy_of gpu supported (start_of counters gpu)
    rest ← stop handles
    ok (add_energy energy rest)

-- The meters of one batch; `cpu` and `gpu` say which were asked for.
pub record Meters : Type 0 where
  pub cpu : Bool
  pub gpu : Bool
  pub zones : List RaplZone
  pub nvml : NvmlMeter

pub record Metrics : Type 0 where
  pub cpu_energy : Option ℤ
  pub gpu_energy : Option ℕ
  pub gpu_energy_devices : List GpuEnergy

abbrev pub has_rapl : Meters → Bool
has_rapl meters = meters.cpu && not (is_empty meters.zones)

abbrev pub has_nvml : Meters → Bool
has_nvml meters = meters.gpu && meters.nvml.available

abbrev pub per_microjoule : ℕ
per_microjoule = 2 * 10 ^ 6

abbrev pub metrics_of : Option ℤ → Option GpuEnergies → Metrics
metrics_of cpu none = record { cpu_energy = cpu; gpu_energy = none; gpu_energy_devices = [] }
metrics_of cpu (some energies) = record {
  cpu_energy = cpu;
  gpu_energy = some energies.total;
  gpu_energy_devices = energies.per_gpu;
}

module _ (meters : Meters) (rapl_start : List (String × ℕ)) (rapl_read : Result (List (String × ℕ)))
    (counters : List (ℤ × ℕ)) (window : Window) where
  abbrev pub stop_cpu : Result (Option ℤ)
  stop_cpu =
      if has_rapl meters
      then (do
        end ← rapl_read
        ok (some ((delta_j meters.zones rapl_start end).0 *ℤ pos per_microjoule)))
      else ok none

  abbrev pub stop_gpu : Result (Option GpuEnergies)
  stop_gpu =
      if has_nvml meters
      then (do energies ← stop window counters meters.nvml.handles; ok (some energies))
      else ok none

  -- `CompositeEnergyMeter.stop`
  unfoldable pub stop_meters : Result Metrics
  stop_meters = do cpu ← stop_cpu; gpu ← stop_gpu; ok (metrics_of cpu gpu)

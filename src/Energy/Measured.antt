-- ===== src/Energy/Measured.antt =====
-- What the meters of prbench/energy.py measure, and when a row of the energy file is complete.
use parallel_reduction_bench.Prelude.{
  ℕ, ◌+◌, ◌-◌, ◌*◌, ◌≡◌, refl, sym, ap, subst, ◌∙◌, inl, inr, ◌↔◌, Bool, true, false, not,
  Bool-cases, some, List, [], ◌∷◌, is_empty, All, All-imp, find, ◌==◌,
}
use parallel_reduction_bench.Prelude.Int.{ℤ, ℤ_eq}
use parallel_reduction_bench.Prelude.Result.{Result, ok, ◌>>=◌, >>=-eq-ok, ok-injective}
use parallel_reduction_bench.Energy.{integrate_samples}
use parallel_reduction_bench.Energy.Meters.{
  Handles, total_energy_counter, power_trapezoid_fallback, GpuEnergy, GpuEnergies, Window,
  per_millijoule, start_of, start, read_counters, NvmlMeter, energy_of, stop, Meters, Metrics,
  has_rapl, has_nvml,
}
use parallel_reduction_bench.Energy.Record.{
  EnergyRow, gpu_part, sum_available, is_some, coverage_of,
}

-- `begun` is what the GPUs' counters read at the start.
module _ (begun : ℤ → Result ℕ) (window : Window) where
  -- For a GPU whose total counter can be read, the energy is the difference of the readings at the start and at
  -- the stop, and 0 where the counter went back; for another one it is the integral of the samples.
  abbrev pub IsMeasured : ℤ × Bool → GpuEnergy → Type 0
  IsMeasured (gpu, true) e =
      (e.gpu_id ≡ gpu)
      × (e.method ≡ total_energy_counter)
      × ((start_mj end_mj : ℕ) × (begun gpu ≡ ok start_mj)
          × (window.read gpu ≡ ok end_mj)
          × (e.energy ≡ per_millijoule * (end_mj - start_mj)))
  IsMeasured (gpu, false) e =
      (e.gpu_id ≡ gpu)
      × (e.method ≡ power_trapezoid_fallback)
      × (integrate_samples (window.samples gpu) window.start_ns window.end_ns ≡ ok e.energy)

  abbrev pub total_of : List GpuEnergy → ℕ
  total_of [] = 0
  total_of (e ∷ energies) = e.energy + total_of energies

  -- one entry for each handle, in their order
  abbrev pub EachMeasured : Handles → List GpuEnergy → Type 0
  EachMeasured [] [] = Unit
  EachMeasured [] (e ∷ energies) = ⊥
  EachMeasured (handle ∷ handles) [] = ⊥
  EachMeasured (handle ∷ handles) (e ∷ energies) =
      IsMeasured handle e × EachMeasured handles energies

  pub record AreMeasured (handles : Handles) (energies : GpuEnergies) : Type 0 where
    pub total : energies.total ≡ total_of energies.per_gpu
    pub each : EachMeasured handles energies.per_gpu

  -- The counter of each supported GPU was read at the start.
  abbrev Started : List (ℤ × ℕ) → ℤ × Bool → Type 0
  Started counters (gpu, true) =
      (start_mj : ℕ) × (start_of counters gpu ≡ some (gpu, start_mj)) × (begun gpu ≡ ok start_mj)
  Started counters (gpu, false) = Unit

  Started-skip :
      (other : ℤ) (v : ℕ) (counters : List (ℤ × ℕ)) (handle : ℤ × Bool)
      → begun other ≡ ok v
      → Started counters handle
      → Started ((other, v) ∷ counters) handle
  unfolding find
  Started-skip other v counters (gpu, false) read h = tt
  Started-skip other v counters (gpu, true) read (start_mj, found, r) =
      elim (Bool-cases (other == gpu)) [
        | inl same ↦
            let q : other ≡ gpu = (ℤ_eq.test_iff other gpu).0 same in
            (v, rw same (ap (λ g. some (g, v)) q), ap begun (sym q) ∙ read)
        | inr differs ↦ (start_mj, rw differs found, r)
      ]

  read_counters-Started :
      (handles : Handles) (counters : List (ℤ × ℕ))
      → read_counters begun handles ≡ ok counters
      → All (Started counters) handles
  unfolding read_counters find
  read_counters-Started [] counters h = tt
  read_counters-Started ((gpu, false) ∷ handles) counters h =
      (tt, read_counters-Started handles counters h)
  read_counters-Started ((gpu, true) ∷ handles) counters h =
      let (v, read, h') = >>=-eq-ok (begun gpu) _ h in
      let (rest, later, h'') = >>=-eq-ok (read_counters begun handles) _ h' in
      subst (λ c. All (Started c) ((gpu, true) ∷ handles)) (ok-injective h'')
        (
          (v, rw ((ℤ_eq.test_iff gpu gpu).1 refl) refl, read),
          All-imp handles (λ handle s. Started-skip gpu v rest handle read s)
              (read_counters-Started handles rest later),
        )

  energy_of-IsMeasured :
      (counters : List (ℤ × ℕ)) (gpu : ℤ) (supported : Bool) (e : GpuEnergy)
      → Started counters (gpu, supported)
      → energy_of window counters gpu supported (start_of counters gpu) ≡ ok e
      → IsMeasured (gpu, supported) e
  energy_of-IsMeasured counters gpu true e (start_mj, found, begun_at) h =
      let (end_mj, made, h') = >>=-eq-ok (window.read gpu) _ (rw found at h) in
      rw (← ok-injective h') (refl, refl, (start_mj, end_mj, begun_at, made, refl))
  energy_of-IsMeasured counters gpu false e started h =
      let (energy, made, h') =
        >>=-eq-ok (integrate_samples (window.samples gpu) window.start_ns window.end_ns) _ h in
      rw (← ok-injective h') (refl, refl, made)

  stop-Started :
      (counters : List (ℤ × ℕ)) (handles : Handles) (energies : GpuEnergies)
      → All (Started counters) handles
      → stop window counters handles ≡ ok energies
      → AreMeasured handles energies
  unfolding stop
  stop-Started counters [] energies started h =
      rw (← ok-injective h) (record { total = refl; each = tt })
  stop-Started counters ((gpu, supported) ∷ handles) energies started h =
      let (e, made, h') =
        >>=-eq-ok (energy_of window counters gpu supported (start_of counters gpu)) _ h in
      let (rest, others, h'') = >>=-eq-ok (stop window counters handles) _ h' in
      let later = stop-Started counters handles rest started.1 others in
      rw (← ok-injective h'') (record {
        total = ap (λ n. e.energy + n) later.total;
        each = (energy_of-IsMeasured counters gpu supported e started.0 made, later.each);
      })

  -- Between a start and a stop of the GPU meter that both return, the stop has one entry for each handle, in
  -- their order, and its total is the sum of theirs. If the total counter of the handle's GPU can be read, the entry
  -- is measured by it: the difference of its readings at the start and at the stop, 0 where it went back.
  -- Otherwise the entry is the integral of the GPU's samples over the window.
  pub stop-AreMeasured :
      (meter : NvmlMeter) (counters : List (ℤ × ℕ)) (energies : GpuEnergies)
      → meter.available ≡ true
      → start begun meter ≡ ok counters
      → stop window counters meter.handles ≡ ok energies
      → AreMeasured meter.handles energies
  stop-AreMeasured meter counters energies available h k =
      stop-Started counters meter.handles energies
        (read_counters-Started meter.handles counters (rw available at h)) k

-- What a meter was asked for is measured.
abbrev Answers : Bool → Bool → Type 0
Answers asked available = asked ≡ true → available ≡ true

-- What a row of the energy file says of the meters: the components that were measured are those whose meter
-- was available, the energy is their sum, and the row is complete just if each meter that was asked for was.
pub record IsComplete (meters : Meters) (metrics : Metrics) (row : EnergyRow) : Type 0 where
  pub cpu : is_some metrics.cpu_energy ≡ has_rapl meters
  pub gpu : is_some metrics.gpu_energy ≡ has_nvml meters
  pub measured : row.measured_component_energy ≡ sum_available metrics.cpu_energy (gpu_part metrics)
  pub coverage : row.energy_coverage ≡ coverage_of (has_rapl meters) (has_nvml meters)
  pub complete : (row.energy_complete ≡ true) ↔ (
      Answers meters.cpu (not (is_empty meters.zones)) × Answers meters.gpu meters.nvml.available)
  pub reductions :
      (energy : ℤ)
      → row.measured_component_energy ≡ some energy
      → row.measured_energy_per_reduction
        ≡ some (record { numerator = energy; denominator = row.logical_reductions })

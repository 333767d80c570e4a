-- ===== src/Preflight/Passed.antt =====
-- What single checks of `_evaluate_preflight` of prbench/cli.py say where they find nothing fatal.
use parallel_reduction_bench.Prelude.{
  ℕ, ℕ_eq, ◌≡◌, refl, sym, ap₂, subst, ◌∙◌, inl, inr, leb, dedupe, In-dedupe, In-sort, Option-cases,
  none, some, Bool, true, false, not, ◌&&◌, Option, String, List, [], ◌∷◌, is_empty, any, All,
  All-of, In, if◌then◌else◌, arith,
}
use parallel_reduction_bench.Prelude.Int.{ℤ}
use parallel_reduction_bench.Prelude.Float.{lt_float}
use parallel_reduction_bench.Models.{
  EnergyConfig, MeasurementConfig, SystemTopologyModel, TopologyCpu,
}
use parallel_reduction_bench.Sweep.Plan.{TaskSpec}
use parallel_reduction_bench.Preflight.{
  Machine, Processes, Counters, fatal, no_rapl, no_nvml, dirty_tree, incomplete_classes,
  compute_processes, graphics_processes, Problem, note_if, severity,
}
use parallel_reduction_bench.Preflight.Clear.{IsClear, IsClear-append, IsClear-note_if}
use parallel_reduction_bench.Preflight.Devices.{
  diagnostics, counter_notes, strict_counter_notes, energy_notes, gpu_processes, pids,
  processes_loop, process_notes, idle_notes, asks_for_class, class_notes,
}
use parallel_reduction_bench.Preflight.Idle.{
  IsReadable, counter_notes-IsReadable, any-empty, has_class-cpu,
}

-- An allowed CPU of a class.
abbrev pub HasCpu : SystemTopologyModel → String → Type 0
HasCpu topology core_class =
    (cpu : TopologyCpu) × In cpu topology.logical_cpus
    × In cpu.cpu_id topology.allowed_cpus
    × (cpu.core_class ≡ core_class)

-- The energy that is to be measured can be: there is a RAPL zone, and NVML if there are GPUs, and where the
-- checks are strict each GPU has a counter.
pub record IsMetered (energy : EnergyConfig) (strict : Bool) (topology : SystemTopologyModel)
    (machine : Machine) (gpus : List ℤ) : Type 0 where
  pub cpu : energy.enable_cpu ≡ true → is_empty machine.rapl_zones ≡ false
  pub nvml : energy.enable_gpu ≡ true → All (λ gpu. topology.nvml_available ≡ true) gpus
  pub counters :
      strict ≡ true → energy.enable_gpu ≡ true → All (IsReadable machine.energy_nvml) gpus

-- No process is in the list, where there is one.
abbrev pub Free : Option (List ℕ) → Type 0
Free none = Unit
Free (some listed) = listed ≡ []

abbrev FreeThen : (Processes → Option (List ℕ)) → Option Processes → Type 0 → Type 0
FreeThen list_of none later = Unit
FreeThen list_of (some p) later = Free (list_of p) × later

-- The lists of the GPUs are free, up to the first GPU that NVML has no handle for.
abbrev pub AreFree : (Processes → Option (List ℕ)) → (ℤ → Option Processes) → List ℤ → Type 0
AreFree list_of nvml [] = Unit
AreFree list_of nvml (gpu ∷ gpus) = FreeThen list_of (nvml gpu) (AreFree list_of nvml gpus)

-- The same, where there is NVML.
abbrev pub NoneListed :
    (Processes → Option (List ℕ)) → Option (ℤ → Option Processes) → List ℤ → Type 0
NoneListed list_of none gpus = Unit
NoneListed list_of (some nvml) gpus = AreFree list_of nvml gpus

-- No one else computes, as far as NVML tells: it lists no compute process on the GPUs, and where the checks are
-- strict no graphics process unless that is allowed, and then the CPUs are idle and the working tree is
-- clean.
pub record IsIdle (m : MeasurementConfig) (machine : Machine) (gpus : List ℤ) : Type 0 where
  pub compute : NoneListed (λ p. p.compute) machine.process_nvml gpus
  pub graphics :
      m.strict_preflight ≡ true
      → m.allow_gpu_graphics_processes ≡ false
      → NoneListed (λ p. p.graphics) machine.process_nvml gpus
  pub load :
      m.strict_preflight ≡ true → lt_float m.max_preflight_cpu_load_percent machine.cpu_load ≡ false
  pub clean : m.strict_preflight ≡ true → machine.dirty ≡ false

no_pids : (list : Option (List ℕ)) → pids list ≡ [] → Free list
no_pids none h = tt
no_pids (some []) h = refl
no_pids (some (p ∷ listed)) h = absurd (
    subst (λ xs. In p xs) h
      (In-sort leb p (dedupe (p ∷ listed)) (In-dedupe p (p ∷ listed) (inl refl))))

-- `row` takes from a row what `list_of` takes from the answer of NVML.
module _ (list_of : Processes → Option (List ℕ)) (row : ℤ × List ℕ × List ℕ → List ℕ)
    (same : (gpu : ℤ) (p : Processes)
      → row (gpu, pids p.compute, pids p.graphics) ≡ pids (list_of p)) where
  processes_loop-AreFree :
      (nvml : ℤ → Option Processes) (gpus : List ℤ)
      → All (λ r. row r ≡ []) (processes_loop nvml gpus)
      → AreFree list_of nvml gpus
  unfolding processes_loop
  processes_loop-AreFree nvml [] h = tt
  processes_loop-AreFree nvml (gpu ∷ gpus) h = elim (Option-cases (nvml gpu)) [
    | inl e ↦ rw e tt
    | inr (p, e) ↦
        let (first, later) = rw (All, e) at h in
        rw e
          (no_pids (list_of p) (sym (same gpu p) ∙ first), processes_loop-AreFree nvml gpus later)
  ]

  gpu_processes-NoneListed :
      (nvml : Option (ℤ → Option Processes)) (gpus : List ℤ)
      → All (λ r. row r ≡ []) (gpu_processes nvml gpus)
      → NoneListed list_of nvml gpus
  unfolding gpu_processes
  gpu_processes-NoneListed none gpus h = tt
  gpu_processes-NoneListed (some nvml) gpus h = processes_loop-AreFree nvml gpus h

module _ (energy : EnergyConfig) where
  nvml-available :
      (available : Bool) (gpus : List ℤ)
      → (energy.enable_gpu && not (is_empty gpus) && not available) ≡ false
      → energy.enable_gpu ≡ true
      → All (λ gpu. available ≡ true) gpus
  nvml-available available [] h enabled = tt
  nvml-available available (gpu ∷ gpus) h enabled =
      let found : available ≡ true = ground arith in
      All-of (λ _. available ≡ true) (gpu ∷ gpus) (λ _. found)

  counters-clear :
      (strict : Bool) (nvml : Option (ℤ → Option Counters)) (gpus : List ℤ)
      → IsClear (strict_counter_notes energy strict nvml gpus)
      → strict ≡ true
      → energy.enable_gpu ≡ true
      → All (IsReadable nvml) gpus
  unfolding strict_counter_notes
  counters-clear strict nvml [] clear is_strict enabled = tt
  counters-clear strict nvml (gpu ∷ gpus) clear is_strict enabled =
      counter_notes-IsReadable nvml (gpu ∷ gpus) (gpu ∷ gpus) (
        subst
          (λ b.
            IsClear (if b then counter_notes (diagnostics nvml (gpu ∷ gpus)) (gpu ∷ gpus) else []))
          (ap₂ (λ a b. a && b && true) is_strict enabled)
          (subst
            (λ b. IsClear (
              if strict && energy.enable_gpu && true
              then counter_notes (if b then diagnostics nvml (gpu ∷ gpus) else []) (gpu ∷ gpus)
              else []))
            enabled clear))

pub IsMetered-clear :
    (energy : EnergyConfig) (strict : Bool) (topology : SystemTopologyModel) (machine : Machine)
    (gpus : List ℤ)
    → IsClear (energy_notes energy strict topology machine.energy_nvml machine.rapl_zones gpus)
    → IsMetered energy strict topology machine gpus
unfolding energy_notes
IsMetered-clear energy strict topology machine gpus clear =
    let (both, counted) =
      IsClear-append _ (strict_counter_notes energy strict machine.energy_nvml gpus) clear in
    let (rapl, nvml) =
      IsClear-append (note_if (energy.enable_cpu && is_empty machine.rapl_zones) (fatal no_rapl)) _
        both in
    let no_zone = IsClear-note_if _ no_rapl rapl in
    record {
      cpu = λ enabled. ground arith;
      nvml = nvml-available energy topology.nvml_available gpus (IsClear-note_if _ no_nvml nvml);
      counters = counters-clear energy strict machine.energy_nvml gpus counted;
    }

-- A problem that is fatal in a strict run is absent from one that is clear.
severe :
    (test strict : Bool) (problem : Problem)
    → IsClear (note_if test (severity strict problem))
    → strict ≡ true
    → test ≡ false
severe test strict problem clear is_strict =
    IsClear-note_if test problem
      (subst (λ b. IsClear (note_if test (severity b problem))) is_strict clear)

pub IsIdle-clear :
    (m : MeasurementConfig) (machine : Machine) (gpus : List ℤ)
    → IsClear (process_notes m (gpu_processes machine.process_nvml gpus))
    → IsClear (idle_notes m machine.cpu_load machine.dirty)
    → IsIdle m machine gpus
unfolding process_notes idle_notes
IsIdle-clear m machine gpus processes idle =
    let rows = gpu_processes machine.process_nvml gpus in
    let busy = any (λ row. not (is_empty row.1)) rows in
    let drawing = any (λ row. not (is_empty row.2)) rows in
    let forbidden = m.strict_preflight && not m.allow_gpu_graphics_processes in
    let loaded = lt_float m.max_preflight_cpu_load_percent machine.cpu_load in
    let (compute, graphics) =
      IsClear-append (note_if busy (fatal compute_processes))
        (note_if drawing (severity forbidden graphics_processes)) processes in
    let (load, dirty) =
      IsClear-append (note_if loaded (severity m.strict_preflight Problem.cpu_load)) _ idle in
    let dirty_test = IsClear-note_if (m.strict_preflight && machine.dirty) dirty_tree dirty in
    record {
      compute =
          gpu_processes-NoneListed (λ p. p.compute) (λ row. row.1) (λ gpu p. refl)
            machine.process_nvml gpus
            (any-empty (λ row. row.1) rows (IsClear-note_if busy compute_processes compute));
      graphics = λ strict not_allowed.
          gpu_processes-NoneListed (λ p. p.graphics) (λ row. row.2) (λ gpu p. refl)
            machine.process_nvml gpus
            (any-empty (λ row. row.2) rows
              (severe drawing forbidden graphics_processes graphics (ground arith)));
      load = severe loaded m.strict_preflight Problem.cpu_load load;
      clean = λ strict. ground arith;
    }

pub classes-clear :
    (topology : SystemTopologyModel) (tasks : List TaskSpec)
    → IsClear (class_notes topology tasks)
    → any asks_for_class tasks ≡ true
    → HasCpu topology "performance" × HasCpu topology "efficiency"
unfolding class_notes
classes-clear topology tasks clear asks =
    let test = IsClear-note_if _ incomplete_classes clear in
    (
      has_class-cpu topology "performance" (ground arith),
      has_class-cpu topology "efficiency" (ground arith),
    )

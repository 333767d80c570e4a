-- ===== src/Preflight/Ready.antt =====
-- What a passed `_evaluate_preflight` of prbench/cli.py says of the machine and the tasks.
use parallel_reduction_bench.Prelude.{
  ◌≤◌, ◌≡◌, ap, subst, ◌∙◌, ◌⊎◌, true, List, [], any, All-In, In, arith,
}
use parallel_reduction_bench.Prelude.Int.{ℤ}
use parallel_reduction_bench.Prelude.Result.{Result, ok, >>=-eq-ok, ok-injective}
use parallel_reduction_bench.Models.{RootConfig, SystemTopologyModel}
use parallel_reduction_bench.Capacity.{Row}
use parallel_reduction_bench.Sweep.Plan.{TaskSpec}
use parallel_reduction_bench.Preflight.{Builtins, Machine, over_storage_limit, status}
use parallel_reduction_bench.Preflight.Clear.{
  IsClear, IsClear-append, IsClear-note_if, status-IsClear, status-cases,
}
use parallel_reduction_bench.Preflight.Devices.{
  gpu_ids_of, visible_note, cuda_visible_devices_problem, energy_notes, gpu_processes,
  process_notes, idle_notes, asks_for_class, class_notes,
}
use parallel_reduction_bench.Preflight.Memory.{
  is_host_resident, resident_bytes, unique_datasets, storage_notes, capacity_rows, headroom_notes,
  task_identity,
}
use parallel_reduction_bench.Preflight.Keys.{
  IsKey, total_bytes, missing, missing_storage_bytes_unique,
}
use parallel_reduction_bench.Preflight.Fits.{
  FitsGpus, capacity_rows-Represented, all_dataset_notes-fits,
}
use parallel_reduction_bench.Preflight.Idle.{IsIdentity, visible-IsIdentity}
use parallel_reduction_bench.Preflight.Evaluate.{
  Report, device_notes, memory_notes, late_notes, all_notes, ram_limit, storage_growth_limit,
  missing_storage, report_of, evaluate_preflight,
}
use parallel_reduction_bench.Preflight.Passed.{
  HasCpu, IsMetered, IsIdle, IsMetered-clear, IsIdle-clear, classes-clear,
}

-- What the tasks need is there.
pub record Ready (builtins : Builtins) (config : RootConfig) (topology : SystemTopologyModel)
    (machine : Machine) (tasks : List TaskSpec) : Type 0 where
  pub devices : IsIdentity topology machine.cuda_visible_devices
  pub metered :
      IsMetered config.energy config.measurement.strict_preflight topology machine
        (gpu_ids_of tasks)
  pub idle : IsIdle config.measurement machine (gpu_ids_of tasks)
  pub classes :
      any asks_for_class tasks ≡ true → HasCpu topology "performance" × HasCpu topology "efficiency"
  pub ram :
      (task : TaskSpec)
      → In task tasks
      → is_host_resident task ≡ true
      → resident_bytes config.measurement task.dataset
        ≤ ram_limit builtins config topology machine tasks
  pub storage :
      total_bytes (missing builtins machine.cache (unique_datasets builtins tasks))
      ≤ storage_growth_limit builtins config topology machine tasks
  pub gpus :
      (task : TaskSpec)
      → In task tasks
      → (u : TaskSpec) × In u tasks
        × (task_identity u ≡ task_identity task)
        × FitsGpus builtins topology config.measurement.gpu_memory_safety_fraction u

module _ (builtins : Builtins) (config : RootConfig) (topology : SystemTopologyModel)
    (machine : Machine) (tasks : List TaskSpec) where
  abbrev gpus : List ℤ
  gpus = gpu_ids_of tasks

  Ready-clear :
      IsKey builtins tasks
      → (rows : List Row)
      → capacity_rows builtins topology config.measurement.gpu_memory_safety_fraction [] tasks
        ≡ ok rows
      → IsClear (all_notes builtins config topology machine tasks rows)
      → Ready builtins config topology machine tasks
  unfolding device_notes memory_notes
  Ready-clear injective rows made clear =
      let (most, late) =
        IsClear-append _ (late_notes builtins config topology machine tasks) clear in
      let (early, headroom) = IsClear-append _ (headroom_notes rows) most in
      let (devices, memory) =
        IsClear-append (device_notes builtins config topology machine tasks gpus)
          (memory_notes builtins config topology machine tasks) early in
      let (upto_idle, classes) = IsClear-append _ (class_notes topology tasks) devices in
      let (upto_processes, idle) =
        IsClear-append _ (idle_notes config.measurement machine.cpu_load machine.dirty) upto_idle in
      let (upto_energy, processes) =
        IsClear-append _
          (process_notes config.measurement (gpu_processes machine.process_nvml gpus))
          upto_processes in
      let (visible, energy) =
        IsClear-append
          (visible_note (cuda_visible_devices_problem topology machine.cuda_visible_devices))
          (energy_notes config.energy config.measurement.strict_preflight topology
            machine.energy_nvml machine.rapl_zones gpus)
          upto_energy in
      let limit = storage_growth_limit builtins config topology machine tasks in
      let (ram, storage) =
        IsClear-append _
          (storage_notes (missing_storage builtins config topology machine tasks) limit) memory in
      let stored = IsClear-note_if _ over_storage_limit storage in
      let bytes = missing_storage_bytes_unique builtins machine.cache tasks in
      record {
        devices = visible-IsIdentity topology machine.cuda_visible_devices visible;
        metered =
            IsMetered-clear config.energy config.measurement.strict_preflight topology machine gpus
              energy;
        idle = IsIdle-clear config.measurement machine gpus processes idle;
        classes = classes-clear topology tasks classes;
        ram =
            all_dataset_notes-fits builtins config.measurement
              (ram_limit builtins config topology machine tasks) machine.available_ram tasks
              injective ram;
        storage = subst (λ n. n ≤ limit) bytes (ground arith);
        gpus = λ task m.
            All-In _ task tasks
              (capacity_rows-Represented builtins topology
                config.measurement.gpu_memory_safety_fraction tasks rows made headroom)
              m;
      }

  abbrev table : Result (List Row)
  table = capacity_rows builtins topology config.measurement.gpu_memory_safety_fraction [] tasks

  -- The status is that of the notes on some table of capacity rows.
  status-from :
      (report : Report)
      → evaluate_preflight builtins config topology machine tasks ≡ ok report
      → (rows : List Row) × (table ≡ ok rows)
        × (status (all_notes builtins config topology machine tasks rows) ≡ report.status)
  unfolding evaluate_preflight
  status-from report h =
      let (rows, made, h') =
        >>=-eq-ok table (λ rows. ok (report_of builtins config topology machine tasks rows)) h in
      (rows, made, ap (λ r. r.status) (ok-injective h'))

  pub evaluate_preflight-cases :
      (report : Report)
      → evaluate_preflight builtins config topology machine tasks ≡ ok report
      → (report.status ≡ "failed") ⊎ (report.status ≡ "ok")
  evaluate_preflight-cases report h =
      let (rows, made, same) = status-from report h in
      subst (λ s. (s ≡ "failed") ⊎ (s ≡ "ok")) same
        (status-cases (all_notes builtins config topology machine tasks rows))

  -- If the checks pass, the machine is ready for the tasks. Where the energy of CPUs is measured there is a RAPL
  -- zone, and where that of GPUs is and tasks use some there is NVML; in a strict run each of the GPUs then has
  -- a counter that can be read. Where NVML answers, it lists no compute process on the GPUs, and in a strict run
  -- no graphics process unless that is allowed; this is said of the GPUs before the first that NVML has no
  -- handle for, and of the lists that can be read. In a strict run the CPU load is not over the maximum and
  -- the working tree is clean. The devices are not reordered, and the core classes asked for exist. Each
  -- dataset that is needed on the host fits the memory allowed for it with its replicas, the datasets still to
  -- be generated fit the storage allowed, and each task, or one with the same key and GPUs, fits the memory of
  -- its GPUs as `run_task` checks it. The hypothesis: two of the tasks' datasets with one JSON text are the
  -- same.
  pub evaluate_preflight-Ready :
      IsKey builtins tasks
      → (report : Report) → evaluate_preflight builtins config topology machine tasks ≡ ok report
      → report.status ≡ "ok"
      → Ready builtins config topology machine tasks
  evaluate_preflight-Ready injective report h passed =
      let (rows, made, same) = status-from report h in
      Ready-clear injective rows made
        (status-IsClear (all_notes builtins config topology machine tasks rows) (same ∙ passed))

-- ===== src/Preflight/Memory.antt =====
-- The checks on memory, storage and GPU sets of `_evaluate_preflight` of prbench/cli.py.
use parallel_reduction_bench.Prelude.{
  ℕ, ◌+◌, ◌*◌, Bool, true, false, ◌||◌, ◌&&◌, none, some, String, String_eq, ℕ_eq, list_eq, pair_eq,
  List, [], ◌∷◌, ◌++◌, map, length, filter, any, find_last, dedupe, contains, sort, ltb, ◌==◌,
  if◌then◌else◌,
}
use parallel_reduction_bench.Prelude.Int.{ℤ, ℤ_eq, leb_ℤ}
use parallel_reduction_bench.Prelude.Float.{Float, finite}
use parallel_reduction_bench.Prelude.Result.{Result, ok, ◌>>=◌}
use parallel_reduction_bench.Models.{
  DatasetSpec, MeasurementConfig, SystemTopologyModel, TopologyGpu,
}
use parallel_reduction_bench.Capacity.{
  Row, dataset_size_bytes, cache_rotation_replicas, gpu_capacity_rows,
}
use parallel_reduction_bench.Datasets.Cache.{CacheEntry, cached_artifact}
use parallel_reduction_bench.Store.{group_by, update}
use parallel_reduction_bench.Sweep.Plan.{TaskSpec}
use parallel_reduction_bench.Preflight.{
  Note, fatal, warning, over_ram_limit, over_available_ram, over_storage_limit, memory_headroom,
  heterogeneous_set, spanning_set, note_if, Builtins,
}

abbrev pub is_host_resident : TaskSpec → Bool
is_host_resident task = task.algorithm.storage_policy == "host_resident"

-- The bytes that a worker keeps of a dataset which some task needs on the host.
unfoldable pub resident_bytes : MeasurementConfig → DatasetSpec → ℕ
resident_bytes m dataset =
    dataset_size_bytes dataset
    * cache_rotation_replicas (dataset_size_bytes dataset) m.cache_rotation_target_bytes
        m.cache_rotation_max_replicas

abbrev pub storage_notes : ℕ → ℕ → List Note
storage_notes missing limit = note_if (ltb limit missing) (fatal over_storage_limit)

abbrev pub task_identity : TaskSpec → String × List ℤ
task_identity task = (task.task_key, task.gpu_ids)

-- the factor of `int(available_ram * 0.85)`, as the nearest double
abbrev pub most : Float
most = finite (ℤ.pos 7_656_119_366_529_843) 53

module _ (builtins : Builtins) where
  abbrev pub tasks_by_dataset : List TaskSpec → List (String × List TaskSpec)
  tasks_by_dataset tasks = group_by (λ task. builtins.json task.dataset) tasks

  -- `unique_datasets` of `cmd_run`: the first dataset with each key
  unfoldable pub unique_into :
      List (String × DatasetSpec) → List TaskSpec → List (String × DatasetSpec)
  unique_into found [] = found
  unique_into found (task ∷ tasks) =
      unique_into (update (λ kept. kept) task.dataset (builtins.json task.dataset) found) tasks

  abbrev pub unique_datasets : List TaskSpec → List DatasetSpec
  unique_datasets tasks = map (λ entry. entry.1) (unique_into [] tasks)

  abbrev pub is_cached : (DatasetSpec → CacheEntry) → DatasetSpec → Bool
  is_cached cache dataset = elim (cached_artifact builtins.same_spec dataset (cache dataset)) [
    | none ↦ false
    | some artifact ↦ true
  ]

  -- a group has a first task
  abbrev pub missing_bytes : (DatasetSpec → CacheEntry) → List TaskSpec → ℕ
  missing_bytes cache [] = 0
  missing_bytes cache (task ∷ tasks) =
      if is_cached cache task.dataset then 0 else dataset_size_bytes task.dataset

  unfoldable pub missing_storage_bytes :
      (DatasetSpec → CacheEntry) → List (String × List TaskSpec) → ℕ
  missing_storage_bytes cache [] = 0
  missing_storage_bytes cache ((key, related) ∷ groups) =
      missing_bytes cache related + missing_storage_bytes cache groups

  unfoldable pub dataset_notes : MeasurementConfig → ℕ → ℕ → List TaskSpec → List Note
  dataset_notes m ram_limit available_ram [] = []
  dataset_notes m ram_limit available_ram (task ∷ tasks) =
      let host_required = any is_host_resident (task ∷ tasks) in
      let resident = if host_required then resident_bytes m task.dataset else 0 in
      if host_required && ltb ram_limit resident
      then fatal (over_ram_limit task.dataset) ∷ []
      else note_if (host_required && ltb (builtins.scaled available_ram most) resident)
          (warning (over_available_ram task.dataset))

  unfoldable pub all_dataset_notes :
      MeasurementConfig → ℕ → ℕ → List (String × List TaskSpec) → List Note
  all_dataset_notes m ram_limit available_ram [] = []
  all_dataset_notes m ram_limit available_ram ((key, related) ∷ groups) =
      dataset_notes m ram_limit available_ram related
      ++ all_dataset_notes m ram_limit available_ram groups

  -- The capacity rows of the tasks, where tasks with one key and the same GPUs count once.
  unfoldable pub capacity_rows :
      SystemTopologyModel → Float → List (String × List ℤ) → List TaskSpec → Result (List Row)
  capacity_rows topology fraction seen [] = ok []
  capacity_rows topology fraction seen (task ∷ tasks) = elim (contains seen (task_identity task)) [
    | true ↦ capacity_rows topology fraction seen tasks
    | false ↦ do
      rows ← gpu_capacity_rows builtins.int_of_text builtins.scaled task topology fraction
      rest ← capacity_rows topology fraction (task_identity task ∷ seen) tasks
      ok (rows ++ rest)
  ]

abbrev pub headroom_note : Row → List Note
headroom_note row =
    if row.within_safe_budget
    then []
    else (if row.estimate_kind == "exact"
        then fatal (memory_headroom row)
        else warning (memory_headroom row))
      ∷ []

unfoldable pub headroom_notes : List Row → List Note
headroom_notes [] = []
headroom_notes (row ∷ rows) = headroom_note row ++ headroom_notes rows

-- `tuple`s of integers in order
unfoldable pub le_tuple : List ℤ → List ℤ → Bool
le_tuple [] b = true
le_tuple (x ∷ a) [] = false
le_tuple (x ∷ a) (y ∷ b) = let rest = le_tuple a b in if x == y then rest else leb_ℤ x y

unfoldable pub multi_sets : List TaskSpec → List (List ℤ)
multi_sets tasks =
    sort le_tuple
      (dedupe (map (λ task. task.gpu_ids) (filter (λ task. ltb 1 (length task.gpu_ids)) tasks)))

-- The GPUs of a set that the machine has.
unfoldable pub selected : SystemTopologyModel → List ℤ → List TopologyGpu
selected topology [] = []
selected topology (gpu ∷ gpus) = elim (find_last (λ g. g.index == gpu) topology.gpus) [
  | none ↦ selected topology gpus
  | some found ↦ found ∷ selected topology gpus
]

-- an optional text as a value that can be compared
abbrev pub capability : TopologyGpu → ℕ × String
capability gpu = elim gpu.compute_capability [ none ↦ (0, "") | some cc ↦ (1, cc) ]

abbrev pub numa_nodes : List TopologyGpu → List ℤ
numa_nodes [] = []
numa_nodes (gpu ∷ gpus) = elim gpu.numa_node [
  | none ↦ numa_nodes gpus
  | some node ↦ node ∷ numa_nodes gpus
]

unfoldable pub set_notes : SystemTopologyModel → List ℤ → List Note
set_notes topology gpu_set =
    let gpus = selected topology gpu_set in
    note_if
      (ltb 1 (length (dedupe (map (λ g. g.name) gpus)))
        || ltb 1 (length (dedupe (map capability gpus))))
      (warning (heterogeneous_set gpu_set))
    ++ note_if (ltb 1 (length (dedupe (numa_nodes gpus)))) (warning (spanning_set gpu_set))

unfoldable pub all_set_notes : SystemTopologyModel → List (List ℤ) → List Note
all_set_notes topology [] = []
all_set_notes topology (gpu_set ∷ sets) = set_notes topology gpu_set ++ all_set_notes topology sets

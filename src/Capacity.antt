-- ===== src/Capacity.antt =====
-- prbench/capacity.py: how much memory the inputs of a task take on each GPU, and how many replicas
-- of a dataset a timing loop rotates through.
pub mod Rotation
pub mod Split
pub mod Rows
use parallel_reduction_bench.Prelude.{
  ℕ, zero, suc, ◌+◌, ◌-◌, ◌*◌, ◌/◌, ◌%◌, ◌^◌, ltb, min, max, Bool, true, false, not, ◌||◌, ◌&&◌,
  Option, none, some, String, List, [], ◌∷◌, map, ◌==◌, ℕ_eq, String_eq, length, contains, filter,
  find_last, is_empty, leb, if◌then◌else◌,
}
use parallel_reduction_bench.Prelude.Int.{ℤ, ℤ_eq, pos, negsuc, leb_ℤ, sub_ℕ, min_ℤ, ◌*ℤ◌}
use parallel_reduction_bench.Prelude.Float.{Float}
use parallel_reduction_bench.Prelude.Result.{
  Result, ok, raise, value_error, zero_division_error, ◌>>=◌,
}
use parallel_reduction_bench.Models.{
  DType, int32, int64, float32, float64, DatasetSpec, SystemTopologyModel, TopologyGpu,
}
use parallel_reduction_bench.Sweep.Params.{get, to_int}
use parallel_reduction_bench.Sweep.Plan.{TaskSpec}

-- `_DTYPE_BYTES`, at a member of the enum
abbrev pub dtype_size_bytes : DType → ℕ
dtype_size_bytes int32 = 4
dtype_size_bytes float32 = 4
dtype_size_bytes int64 = 8
dtype_size_bytes float64 = 8

abbrev pub dataset_size_bytes : DatasetSpec → ℕ
dataset_size_bytes dataset = dataset.size * dtype_size_bytes dataset.dtype

abbrev pub exact_ceil : ℕ → ℕ → ℕ
exact_ceil n d = (n + (d - 1)) / d

-- the nearest integer, of two the even one
abbrev round_half_even : ℕ → ℕ → ℕ
round_half_even n d =
    if ltb (2 * (n % d)) d
    then n / d
    else if ltb d (2 * (n % d))
    then n / d + 1
    else n / d + (n / d) % 2

-- the number of binary digits of n, if there are at most `fuel` of them
unfoldable bits : ℕ → ℕ → ℕ
bits zero n = 0
bits (suc fuel) n = let rest = bits fuel (n / 2) in if n == 0 then 0 else suc rest

-- The float that is nearest to n / d, as a fraction of integers. Its 53 digits are those of a normal float
-- that is 1/2 or more; the integers of the code are below 2 ^ 1024.
unfoldable pub quotient : ℕ → ℕ → ℕ × ℕ
unfolding bits
quotient n d =
    let e = bits 1024 (n / d) in
    if leb e 53
    then (round_half_even (n * 2 ^ (53 - e)) d, 2 ^ (53 - e))
    else (round_half_even n (d * 2 ^ (e - 53)) * 2 ^ (e - 53), 1)

-- `math.ceil(n / d)` for a divisor that is not 0. The code divides in floating point: up to 2 ^ 53 no
-- rounding can reach an integer, and a quotient between 0 and 1 is not rounded to 0.
unfoldable pub ceil_ℕ : ℕ → ℕ → ℕ
ceil_ℕ n d =
    if leb n (2 ^ 53)
    then exact_ceil n d
    else if leb n d
    then 1
    else exact_ceil (quotient n d).0 (quotient n d).1

-- the floor of the same quotient
unfoldable pub floor_ℕ : ℕ → ℕ → ℕ
floor_ℕ n d = if leb n (2 ^ 53) then n / d else (quotient n d).0 / (quotient n d).1

abbrev pub ceil_div : ℕ → ℤ → Result ℤ
ceil_div n (pos zero) = raise zero_division_error
ceil_div n (pos (suc d)) = ok (pos (ceil_ℕ n (suc d)))
ceil_div n (negsuc d) = ok (sub_ℕ 0 (floor_ℕ n (suc d)))

unfoldable pub cache_rotation_replicas : ℕ → ℕ → ℕ → ℕ
cache_rotation_replicas dataset_bytes target_bytes max_replicas =
    if leb dataset_bytes 0 || leb target_bytes 0
    then 1
    else max 1 (min max_replicas (ceil_ℕ target_bytes dataset_bytes))

unfoldable pub cache_rotated_resident_bytes : ℕ → ℕ → ℕ → ℕ
cache_rotated_resident_bytes dataset_bytes target_bytes max_replicas =
    dataset_bytes * cache_rotation_replicas dataset_bytes target_bytes max_replicas

-- The keys of a dict that is built from a list of keys: each once, where it first appears.
unfoldable pub keys_of : List ℤ → List ℤ
keys_of [] = []
keys_of (key ∷ keys) = key ∷ filter (λ k. not (k == key)) (keys_of keys)

-- The estimate for one GPU; `kind` says what it is worth.
pub record Estimate : Type 0 where
  pub input_bytes : ℤ
  pub kind : String
  pub elements : ℤ

-- `str(value or default)`
abbrev pub text_or : Option String → String → String
text_or none default = default
text_or (some value) default = if value == "" then default else value

abbrev pub managed_paths : List String
managed_paths =
    "zero_copy" ∷ "hmm_system" ∷ "managed_fault" ∷ "managed_prefetch" ∷ "managed_advised" ∷ []

abbrev pub sized : ℕ → String → ℤ → Estimate
sized item kind elements = record {
  input_bytes = elements *ℤ pos item;
  kind = kind;
  elements = elements;
}

module _ (int_of_text : String → Result ℤ) where
  -- `_param`
  unfoldable pub param : TaskSpec → String → ℤ → Result ℤ
  param task name default = elim (get task.algorithm_params name) [
    | none ↦ ok default
    | some v ↦ to_int int_of_text v
  ]

  -- The device buffers of a pipeline over `n` elements.
  unfoldable pub pipeline_elements : TaskSpec → ℕ → Result ℤ
  pipeline_elements task n = do
    streams ← param task "pipeline_streams" (pos 4)
    chunk_elements ← param task "pipeline_chunk_elements" (pos 0)
    capacity ←
        (if leb_ℤ chunk_elements (pos 0)
          then (do chunks ← param task "pipeline_chunks" (pos 16); ceil_div n chunks)
          else ok (min_ℤ (pos n) chunk_elements))
    ok (capacity *ℤ streams)

  -- The bounded device chunks of file streaming and chunked execution.
  unfoldable pub chunked_elements : TaskSpec → Bool → ℕ → Result ℤ
  chunked_elements task pipelined n = do
    first ← (if pipelined then param task "pipeline_chunk_elements" (pos 0) else ok (pos 0))
    chunk ← (if leb_ℤ first (pos 0) then param task "chunk_size" (pos (2 ^ 20)) else ok first)
    streams ← (if pipelined then param task "pipeline_streams" (pos 4) else ok (pos 1))
    ok (min_ℤ (pos n) chunk *ℤ streams)

  -- a part of the dataset, kept whole or pipelined
  unfoldable pub split_elements : TaskSpec → Bool → ℕ → Result ℤ
  split_elements task pipelined n = if pipelined then pipeline_elements task n else ok (pos n)

  -- The estimate for each GPU of a task that has GPUs.
  unfoldable pub estimate : TaskSpec → Result Estimate
  estimate task =
      let n = task.dataset.size in
      let item = dtype_size_bytes task.dataset.dtype in
      let g = length task.gpu_ids in
      let scheduler = task.algorithm.scheduler in
      let pipelined = text_or task.algorithm.transfer_policy "sync" == "async_pipeline" in
      let memory_path = text_or task.algorithm.memory_path "default" in
      let storage = task.algorithm.storage_policy in
      if contains managed_paths memory_path
      then ok (record { input_bytes = pos 0; kind = "managed_or_host_mapped"; elements = pos n })
      else if (storage == "file_stream" || storage == "gds")
          || (memory_path == "chunked_sync" || memory_path == "pinned_direct")
      then (do elements ← chunked_elements task pipelined n; ok (sized item "exact" elements))
      else if scheduler == "gpu_only"
      then (do elements ← split_elements task pipelined n; ok (sized item "exact" elements))
      else if scheduler == "gpu_static_equal"
      then (do
        elements ← split_elements task pipelined (ceil_ℕ n g)
        ok (sized item "exact" elements))
      else if scheduler == "gpu_static_profiled"
      then ok (sized item "reference" (pos (ceil_ℕ n g)))
      else if scheduler == "static_equal"
      then (do
        elements ← split_elements task pipelined (ceil_ℕ n (g + 1))
        ok (sized item "exact" elements))
      else if scheduler == "static_profiled"
      then (if pipelined
          then (do elements ← pipeline_elements task n; ok (sized item "upper_bound" elements))
          else ok (sized item "reference" (pos (ceil_ℕ n (g + 1)))))
      else if scheduler == "dynamic_fixed"
      then (do
        chunk ← param task "chunk_size" (pos (2 ^ 20))
        ok (sized item "exact" (min_ℤ (pos n) chunk)))
      else if scheduler == "dynamic_guided" || scheduler == "dynamic_adaptive"
      then (do
        chunk ← param task "max_chunk_size" (pos (2 ^ 24))
        ok (sized item "exact" (min_ℤ (pos n) chunk)))
      else ok (sized item "reference" (pos n))

  -- The dict has each GPU once, in the order in which the ids first appear.
  unfoldable pub gpu_input_allocation_estimates : TaskSpec → Result (List (ℤ × Estimate))
  gpu_input_allocation_estimates task =
      if is_empty task.gpu_ids
      then ok []
      else do e ← estimate task; ok (map (λ gpu. (gpu, e)) (keys_of task.gpu_ids))

-- One row of the capacity table.
pub record Row : Type 0 where
  pub task_key : String
  pub algorithm_id : String
  pub memory_path : Option String
  pub storage_policy : String
  pub gpu_id : ℤ
  pub gpu_name : String
  pub estimate_kind : String
  pub estimated_input_bytes : ℤ
  pub gpu_total_bytes : ℕ
  pub gpu_free_bytes : ℕ
  pub safe_budget_bytes : ℕ
  pub within_safe_budget : Bool

abbrev pub free_bytes : TopologyGpu → ℕ
free_bytes gpu = elim gpu.memory_free_bytes [ none ↦ gpu.memory_bytes | some free ↦ free ]

-- `safe` is `int(free * safety_fraction)`: the fraction of a number of bytes, in floating point.
module _ (int_of_text : String → Result ℤ) (safe : ℕ → Float → ℕ) where
  abbrev pub capacity_row : TaskSpec → Float → ℤ × Estimate → TopologyGpu → Row
  capacity_row task safety_fraction entry gpu = record {
    task_key = task.task_key;
    algorithm_id = task.algorithm.id;
    memory_path = task.algorithm.memory_path;
    storage_policy = task.algorithm.storage_policy;
    gpu_id = entry.0;
    gpu_name = gpu.name;
    estimate_kind = entry.1.kind;
    estimated_input_bytes = entry.1.input_bytes;
    gpu_total_bytes = gpu.memory_bytes;
    gpu_free_bytes = free_bytes gpu;
    safe_budget_bytes = safe (free_bytes gpu) safety_fraction;
    within_safe_budget = leb_ℤ entry.1.input_bytes (pos (safe (free_bytes gpu) safety_fraction));
  }

  -- an id without a GPU gives no row
  unfoldable pub add_row :
      TaskSpec → Float → ℤ × Estimate → Option TopologyGpu → List Row → List Row
  add_row task safety_fraction entry none rest = rest
  add_row task safety_fraction entry (some gpu) rest =
      capacity_row task safety_fraction entry gpu ∷ rest

  -- The loop over the estimates; `by_id` keeps the last GPU with an index.
  unfoldable pub rows_of : TaskSpec → SystemTopologyModel → Float → List (ℤ × Estimate) → List Row
  rows_of task topology safety_fraction [] = []
  rows_of task topology safety_fraction (entry ∷ entries) =
      add_row task safety_fraction entry (find_last (λ g. g.index == entry.0) topology.gpus)
        (rows_of task topology safety_fraction entries)

  unfoldable pub gpu_capacity_rows : TaskSpec → SystemTopologyModel → Float → Result (List Row)
  gpu_capacity_rows task topology safety_fraction = do
    estimates ← gpu_input_allocation_estimates int_of_text task
    ok (rows_of task topology safety_fraction estimates)

-- ===== src/Capacity/Split.antt =====
-- The estimates of prbench/capacity.py for datasets that are split evenly, and for tasks that are not
-- pipelined.
use parallel_reduction_bench.Prelude.{
  ℕ, ◌+◌, ◌*◌, ◌≤◌, ◌<◌, ◌≡◌, ◌≢◌, refl, false, ◌⊎◌, inl, inr, arith, none, length, String, List,
  [], ◌∷◌, ◌^◌, contains, ◌==◌, String_eq,
}
use parallel_reduction_bench.Prelude.Int.{ℤ, pos}
use parallel_reduction_bench.Prelude.Result.{Result, ok}
use parallel_reduction_bench.Capacity.{
  text_or, ceil_ℕ, split_elements, estimate, sized, dtype_size_bytes,
}
use parallel_reduction_bench.Capacity.Rotation.{ceil_covers, ceil_least}
use parallel_reduction_bench.Sweep.Plan.{TaskSpec}

length-pos : (xs : List ℤ) → xs ≢ [] → 0 < length xs
length-pos [] h = absurd (h refl)
length-pos (x ∷ xs) h = omega arith

module _ (int_of_text : String → Result ℤ) (task : TaskSpec) where
  -- An even split between the GPUs alone (`gpu_static_equal`) or between the CPUs and the GPUs
  -- (`static_equal`), of a dataset in host memory without a pipeline or a memory path, is estimated at
  -- the smallest part with which that many parts hold the dataset, if it has at most 2 ^ 53 elements.
  pub estimate-parts :
      (parts : ℕ)
      → task.dataset.size ≤ 2 ^ 53
      → task.gpu_ids ≢ []
      → task.algorithm.memory_path ≡ none
      → task.algorithm.storage_policy ≡ "host_resident"
      → (text_or task.algorithm.transfer_policy "sync" == "async_pipeline") ≡ false
      → (task.algorithm.scheduler ≡ "gpu_static_equal") × (parts ≡ length task.gpu_ids)
        ⊎ (task.algorithm.scheduler ≡ "static_equal") × (parts ≡ length task.gpu_ids + 1)
      → (part : ℕ) × (estimate int_of_text task
          ≡ ok (sized (dtype_size_bytes task.dataset.dtype) "exact" (pos part)))
        × (task.dataset.size ≤ part * parts)
        × ((k : ℕ) → k < part → k * parts < task.dataset.size)
  unfolding estimate split_elements contains
  estimate-parts parts small some path storage sync (inl (scheduler, same)) = rw same (
    ceil_ℕ task.dataset.size (length task.gpu_ids),
    rw (sync, path, storage, scheduler) refl,
    ceil_covers task.dataset.size (length task.gpu_ids) (length-pos task.gpu_ids some) small,
    λ k. ceil_least task.dataset.size (length task.gpu_ids) k (length-pos task.gpu_ids some) small,
  )
  estimate-parts parts small some path storage sync (inr (scheduler, same)) = rw same (
    ceil_ℕ task.dataset.size (length task.gpu_ids + 1),
    rw (sync, path, storage, scheduler) refl,
    ceil_covers task.dataset.size (length task.gpu_ids + 1) (omega arith) small,
    λ k. ceil_least task.dataset.size (length task.gpu_ids + 1) k (omega arith) small,
  )

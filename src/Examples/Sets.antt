-- ===== src/Examples/Sets.antt =====
-- `_resolve_gpu_sets` of prbench/sweep.py on the sample machine.
use parallel_reduction_bench.Prelude.{
  ◌≡◌, ◌≤◌, ◌↔◌, In, length, refl, true, List, [], ◌∷◌, All, IsDistinct, contains, any,
}
use parallel_reduction_bench.Prelude.Int.{ℤ, pos}
use parallel_reduction_bench.Prelude.Result.{ok, extend_each}
use parallel_reduction_bench.Models.{GpuSet}
use parallel_reduction_bench.Samples.{machine, hardware, hybrid}
use parallel_reduction_bench.Sweep.GpuSets.{
  singles, pairs, resolve_entry, unique_sets, resolve_gpu_sets,
}
use parallel_reduction_bench.Sweep.GpuSets.Laws.{Fits}
use parallel_reduction_bench.Sweep.GpuSets.Resolved.{IsNamed, resolve_gpu_sets_iff}

abbrev all_sets : List (List ℤ)
all_sets = (pos 0 ∷ []) ∷ (pos 1 ∷ []) ∷ (pos 0 ∷ pos 1 ∷ []) ∷ []

machine-all_sets : resolve_gpu_sets machine hardware hybrid ≡ ok all_sets
unfolding resolve_gpu_sets resolve_entry unique_sets singles pairs extend_each contains any
machine-all_sets = refl

resolve_gpu_sets_iff_example :
    ((s : List ℤ)
      → In s all_sets ↔ IsNamed machine hardware hybrid s × (hybrid.min_gpus ≤ length s))
    × All (Fits (pos 0 ∷ pos 1 ∷ []) hybrid) all_sets
    × IsDistinct all_sets
resolve_gpu_sets_iff_example =
    resolve_gpu_sets_iff machine hardware hybrid all_sets refl (λ none. cc none) machine-all_sets

abbrev meant_pairs : List (List ℤ)
meant_pairs = (pos 0 ∷ pos 1 ∷ []) ∷ []

pairs_resolved : resolve_entry (pos 0 ∷ pos 1 ∷ []) true (GpuSet.named "pairs") ≡ ok meant_pairs
unfolding resolve_entry pairs
pairs_resolved = refl

abbrev three : List ℤ
three = pos 4 ∷ pos 7 ∷ pos 9 ∷ []

-- ===== src/Sweep/GpuSets.antt =====
-- `_resolve_gpu_sets` of prbench/sweep.py.
pub mod Laws
pub mod Resolved
use parallel_reduction_bench.Prelude.{
  ℕ, Bool, not, ◌&&◌, ◌||◌, List, [], ◌∷◌, ◌++◌, map, ◌==◌, ℕ_eq, String_eq, list_eq, length, any,
  contains, is_empty, ltb, if◌then◌else◌,
}
use parallel_reduction_bench.Prelude.Int.{ℤ, ℤ_eq}
use parallel_reduction_bench.Prelude.Result.{Result, ok, raise, value_error, ◌>>=◌, extend_each}
use parallel_reduction_bench.Models.{
  GpuSet, named, single, several, other, AlgorithmDefinition, SystemTopologyModel, HardwareConfig,
}

-- `[[gpu] for gpu in available]`
unfoldable pub singles : List ℤ → List (List ℤ)
singles = map (λ gpu. gpu ∷ [])

-- `itertools.combinations(available, 2)`
unfoldable pub pairs : List ℤ → List (List ℤ)
pairs [] = []
pairs (x ∷ xs) = map (λ y. x ∷ y ∷ []) xs ++ pairs xs

-- the sets that one entry of `gpu_sets` stands for
unfoldable pub resolve_entry : List ℤ → Bool → GpuSet → Result (List (List ℤ))
resolve_entry available multi (named raw) =
    if raw == "each"
    then ok (singles available)
    else if raw == "pairs" || raw == "all_pairs"
    then (if multi then ok (pairs available) else raise value_error)
    else if raw == "all"
    then (if multi then ok (available ∷ []) else ok (singles available))
    else raise value_error
resolve_entry available multi (single raw) = ok ((raw ∷ []) ∷ [])
resolve_entry available multi (several raw) = ok (raw ∷ [])
resolve_entry available multi other = raise value_error

-- The second loop: `seen` holds the sets that were kept so far.
unfoldable pub unique_sets :
    List ℤ → AlgorithmDefinition → List (List ℤ) → List (List ℤ) → Result (List (List ℤ))
unique_sets available definition seen [] = ok []
unique_sets available definition seen (gpu_set ∷ resolved) =
    let skip = unique_sets available definition seen resolved in
    let take = unique_sets available definition (gpu_set ∷ seen) resolved in
    if contains seen gpu_set
    then skip
    else if any (λ g. not (contains available g)) gpu_set
    then raise value_error
    else if ltb (length gpu_set) definition.min_gpus
    then skip
    else if not definition.supports_multi_gpu && not (length gpu_set == 1)
    then raise value_error
    else (do unique ← take; ok (gpu_set ∷ unique))

unfoldable pub resolve_gpu_sets :
    SystemTopologyModel → HardwareConfig → AlgorithmDefinition → Result (List (List ℤ))
resolve_gpu_sets topology hardware definition =
    let available = map (λ gpu. gpu.index) topology.gpus in
    if not definition.uses_gpu then ok ([] ∷ []) else if is_empty available then ok [] else do
      resolved ←
          extend_each (resolve_entry available definition.supports_multi_gpu) hardware.gpu_sets
      unique_sets available definition [] resolved

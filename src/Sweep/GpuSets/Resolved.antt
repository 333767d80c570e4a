-- ===== src/Sweep/GpuSets/Resolved.antt =====
-- Which sets `_resolve_gpu_sets` of prbench/sweep.py returns.
use parallel_reduction_bench.Prelude.{
  ◌≤◌, ◌≡◌, ◌≢◌, ◌↔◌, true, inl, inr, List, [], ◌∷◌, map, length, All, All-imp, All-In, All-self,
  In, IsDistinct,
}
use parallel_reduction_bench.Prelude.Int.{ℤ}
use parallel_reduction_bench.Prelude.Result.{ok}
use parallel_reduction_bench.Prelude.Loops.{extend_each-All}
use parallel_reduction_bench.Models.{
  GpuSet, AlgorithmDefinition, SystemTopologyModel, HardwareConfig,
}
use parallel_reduction_bench.Sweep.GpuSets.{resolve_entry, unique_sets, resolve_gpu_sets}
use parallel_reduction_bench.Sweep.GpuSets.Laws.{
  Fits, unique_sets_cases, resolve_gpu_sets_cases, resolve_gpu_sets-Fits, resolve_gpu_sets_complete,
}

module _ (available : List ℤ) (definition : AlgorithmDefinition) (P : List ℤ → Type 0) where
  unique_sets-All :
      (seen resolved sets : List (List ℤ))
      → unique_sets available definition seen resolved ≡ ok sets
      → All P resolved
      → All (λ s. P s × (definition.min_gpus ≤ length s)) sets
  unfolding unique_sets
  unique_sets-All seen [] sets h all = let e : [] ≡ sets = cc in rw (← e) tt
  unique_sets-All seen (gpu_set ∷ resolved) sets h all =
      elim (unique_sets_cases available definition seen resolved sets gpu_set h) [
        | inl (skip, _) ↦ unique_sets-All seen resolved sets skip all.1
        | inr (unique, new, fits, take, e) ↦
            rw e ((all.0, fits.enough), unique_sets-All (gpu_set ∷ seen) resolved unique take all.1)
      ]

abbrev pub gpu_indices : SystemTopologyModel → List ℤ
gpu_indices topology = map (λ gpu. gpu.index) topology.gpus

-- The set is one that an entry of `gpu_sets` stands for.
pub record IsNamed (topology : SystemTopologyModel) (hardware : HardwareConfig)
    (definition : AlgorithmDefinition) (gpu_set : List ℤ) : Type 0 where
  pub entry : GpuSet
  pub listed : In entry hardware.gpu_sets
  pub meant : List (List ℤ)
  pub resolves : resolve_entry (gpu_indices topology) definition.supports_multi_gpu entry ≡ ok meant
  pub held : In gpu_set meant

module _ (topology : SystemTopologyModel) (hardware : HardwareConfig)
    (definition : AlgorithmDefinition) (sets : List (List ℤ)) where
  -- On a machine with GPUs, the sets resolved for an algorithm that uses GPUs are exactly those that an
  -- entry of `gpu_sets` stands for and that have as many GPUs as the algorithm needs. They are pairwise
  -- different, and each holds GPUs of the machine only, and exactly one if the algorithm cannot use
  -- several.
  pub resolve_gpu_sets_iff :
      definition.uses_gpu ≡ true
      → topology.gpus ≢ []
      → resolve_gpu_sets topology hardware definition ≡ ok sets
      → ((s : List ℤ)
          → In s sets ↔ IsNamed topology hardware definition s × (definition.min_gpus ≤ length s))
        × All (Fits (gpu_indices topology) definition) sets
        × IsDistinct sets
  resolve_gpu_sets_iff uses gpus h =
      let (fits, distinct) = resolve_gpu_sets-Fits topology hardware definition sets uses h in
      (
        λ s. (
          All-In (λ t. Named t × (definition.min_gpus ≤ length t)) s sets all_named,
          λ (n, enough).
              resolve_gpu_sets_complete topology hardware definition sets n.entry n.meant s uses h
                gpus n.listed n.resolves n.held enough,
        ),
        fits,
        distinct,
      )
    where
      Named : List ℤ → Type 0
      Named t = IsNamed topology hardware definition t

      all_named : All (λ t. Named t × (definition.min_gpus ≤ length t)) sets
      all_named = elim (resolve_gpu_sets_cases topology hardware definition sets uses h) [
        | inl (no_gpu, _) ↦ absurd (gpus no_gpu)
        | inr (resolved, r, u) ↦
            unique_sets-All (gpu_indices topology) definition Named [] resolved sets u (
              extend_each-All _ Named hardware.gpu_sets resolved
                (λ entry meant m e.
                  All-imp meant
                    (λ t i. record {
                      entry = entry;
                      listed = m;
                      meant = meant;
                      resolves = e;
                      held = i;
                    })
                    (All-self meant))
                r)
      ]

-- ===== src/Sweep/Control/Preference.antt =====
-- Which CPUs `_assign_gpu_control_cpus` of prbench/sweep.py prefers.
use parallel_reduction_bench.Prelude.{
  ◌≡◌, refl, true, false, ◌⊎◌, inl, inr, none, some, String, List, [], ◌∷◌, ◌++◌, arith,
  Option-cases, contains, contains_self, dedupe, dedupe-All, In-dedupe, filter, filter-All, find,
  sort, In-sort, sort-All, All, All-filter, All-In, In, In-filter,
}
use parallel_reduction_bench.Prelude.Int.{ℤ, ℤ_eq, leb_ℤ}
use parallel_reduction_bench.Models.{TopologyGpu, SystemTopologyModel}
use parallel_reduction_bench.Sweep.Control.{numa_local, tiers, is_free, choose}
use parallel_reduction_bench.Sweep.Control.Cores.{choose-free}
use parallel_reduction_bench.Sweep.Control.Enough.{choose-none}

module _ (topology : SystemTopologyModel) (cpu_pool : List ℤ) (used : List (ℤ × ℤ)) where
  -- the three tiers of CPUs of the compute pool, and the rest
  abbrev pool_tiers : TopologyGpu → List (String × List ℤ)
  pool_tiers gpu =
      (
        "pci_local_selected",
        filter (contains cpu_pool) (filter (contains topology.allowed_cpus) gpu.local_cpus),
      )
      ∷ ("numa_local_selected", filter (contains cpu_pool) (numa_local topology gpu))
      ∷ ("selected_pool", filter (contains topology.allowed_cpus) (sort leb_ℤ (dedupe cpu_pool)))
      ∷ []

  abbrev fallback_tiers : TopologyGpu → List (String × List ℤ)
  fallback_tiers gpu =
      ("pci_local_fallback", filter (contains topology.allowed_cpus) gpu.local_cpus)
      ∷ ("numa_local_fallback", numa_local topology gpu)
      ∷ ("global_fallback", sort leb_ℤ (dedupe topology.allowed_cpus))
      ∷ []

  tiers-eq :
      (gpu : TopologyGpu) → tiers topology cpu_pool gpu ≡ pool_tiers gpu ++ fallback_tiers gpu
  unfolding tiers
  tiers-eq gpu = refl

  choose-append :
      (ts us : List (String × List ℤ)) (found : String × ℤ)
      → choose topology used (ts ++ us) ≡ some found
      → (choose topology used ts ≡ some found) ⊎ (choose topology used ts ≡ none)
  unfolding choose
  choose-append [] us found h = inr refl
  choose-append ((name, candidates) ∷ ts) us found h =
      elim (Option-cases (find (is_free topology used) candidates)) [
        | inl missing ↦ elim (choose-append ts us found (ground arith)) [
          | inl e ↦ inl (ground arith)
          | inr e ↦ inr (ground arith)
        ]
        | inr (c, here) ↦ inl (ground arith)
      ]

  pool_tiers-contains :
      (gpu : TopologyGpu)
      → All (λ tier. All (λ c. contains cpu_pool c ≡ true) tier.1) (pool_tiers gpu)
  pool_tiers-contains gpu =
      let P = λ (c : ℤ). contains cpu_pool c ≡ true in
      (
        filter-All (contains cpu_pool) _,
        (
          filter-All (contains cpu_pool) _,
          (All-filter P _ _ (sort-All leb_ℤ P _ (dedupe-All P _ (contains_self cpu_pool))), tt),
        ),
      )

  -- A worker outside the compute pool is chosen only if no allowed CPU of the pool is on a known
  -- core that is free.
  pub choose-prefers_pool :
      (gpu : TopologyGpu) (found : String × ℤ)
      → choose topology used (tiers topology cpu_pool gpu) ≡ some found
      → (contains cpu_pool found.1 ≡ true)
        ⊎ ((c : ℤ)
            → In c cpu_pool
            → contains topology.allowed_cpus c ≡ true
            → is_free topology used c ≡ false)
  choose-prefers_pool gpu found h =
      elim (choose-append (pool_tiers gpu) (fallback_tiers gpu) found (rw (← tiers-eq gpu) h)) [
        | inl e ↦
            inl
              (choose-free topology (λ c. contains cpu_pool c ≡ true) used (pool_tiers gpu) found
                (pool_tiers-contains gpu) e).0
        | inr e ↦ inr (λ c m allowed.
            All-In (λ x. is_free topology used x ≡ false) c _
              (choose-none topology used (pool_tiers gpu) e).1.1.0
              (In-filter c (contains topology.allowed_cpus) _
                (In-sort leb_ℤ c _ (In-dedupe c cpu_pool m)) allowed))
      ]

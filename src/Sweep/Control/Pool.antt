-- ===== src/Sweep/Control/Pool.antt =====
-- What `_assign_gpu_control_cpus` of prbench/sweep.py leaves of the compute pool.
use parallel_reduction_bench.Prelude.{
  ◌≡◌, refl, sym, ap, ◌∙◌, subst, Bool, true, not, none, some, List, [], ◌∷◌, map, arith, String_eq,
  pair_eq, contains, filter,
}
use parallel_reduction_bench.Prelude.Int.{ℤ, ℤ_eq}
use parallel_reduction_bench.Prelude.Result.{ok, ok-injective}
use parallel_reduction_bench.Models.{SystemTopologyModel}
use parallel_reduction_bench.Sweep.Control.{
  Assignment, choice_key, core_key, off_core, take_core, assign_loop, assign_gpu_control_cpus,
}
use parallel_reduction_bench.Sweep.Control.Cores.{core_of, assign_loop-cons}

module _ (topology : SystemTopologyModel) where
  -- `c` lies on none of the cores.
  abbrev pub off_cores : List (ℤ × ℤ) → ℤ → Bool
  off_cores cores c = elim (core_key topology c) [ none ↦ true | some k ↦ not (contains cores k) ]

  filter-off_core :
      (key : ℤ × ℤ) (cores : List (ℤ × ℤ)) (pool : List ℤ)
      → filter (off_cores cores) (filter (off_core topology key) pool)
        ≡ filter (off_cores (key ∷ cores)) pool
  unfolding filter contains
  filter-off_core key cores [] = refl
  filter-off_core key cores (c ∷ pool) = ground (arith, filter-off_core key cores pool)

  filter-off_none : (pool : List ℤ) → filter (off_cores []) pool ≡ pool
  unfolding filter contains
  filter-off_none [] = refl
  filter-off_none (c ∷ pool) = ground (arith, filter-off_none pool)

module _ (topology : SystemTopologyModel) (cpu_pool : List ℤ) where
  assign_loop-dedicated :
      (used : List (ℤ × ℤ)) (remaining gpu_ids : List ℤ) (a : Assignment)
      → assign_loop topology cpu_pool "dedicated" used remaining gpu_ids ≡ ok a
      → a.remaining ≡ filter (off_cores topology (map core_of a.bindings)) remaining
  unfolding assign_loop
  assign_loop-dedicated used remaining [] a h =
      subst
        (λ (x : Assignment).
          x.remaining ≡ filter (off_cores topology (map core_of x.bindings)) remaining)
        (ok-injective h) (sym (filter-off_none topology remaining))
  assign_loop-dedicated used remaining (gpu_id ∷ gpu_ids) a h =
      let (choice, rest, e, e', same) =
        assign_loop-cons topology cpu_pool "dedicated" used remaining gpu_id gpu_ids a h in
      subst
        (λ (x : Assignment).
          x.remaining ≡ filter (off_cores topology (map core_of x.bindings)) remaining)
        (sym same)
        (assign_loop-dedicated (choice_key choice ∷ used)
            (take_core topology "dedicated" (choice_key choice) remaining) gpu_ids rest e'
          ∙ filter-off_core topology (choice_key choice) (map core_of rest.bindings) remaining)

  assign_loop-shared :
      (used : List (ℤ × ℤ)) (remaining gpu_ids : List ℤ) (a : Assignment)
      → assign_loop topology cpu_pool "shared" used remaining gpu_ids ≡ ok a
      → a.remaining ≡ remaining
  unfolding assign_loop
  assign_loop-shared used remaining [] a h =
      ap (λ (x : Assignment). x.remaining) (sym (ok-injective h))
  assign_loop-shared used remaining (gpu_id ∷ gpu_ids) a h =
      let (choice, rest, e, e', same) =
        assign_loop-cons topology cpu_pool "shared" used remaining gpu_id gpu_ids a h in
      ap (λ (x : Assignment). x.remaining) same
      ∙ assign_loop-shared (choice_key choice ∷ used)
          (take_core topology "shared" (choice_key choice) remaining) gpu_ids rest e'

  -- In dedicated mode the compute pool keeps, in order, exactly the CPUs that lie on no control core.
  pub assign_gpu_control_cpus-dedicated :
      (gpu_ids : List ℤ) (a : Assignment)
      → assign_gpu_control_cpus topology cpu_pool gpu_ids "dedicated" ≡ ok a
      → a.remaining ≡ filter (off_cores topology (map core_of a.bindings)) cpu_pool
  unfolding assign_gpu_control_cpus
  assign_gpu_control_cpus-dedicated [] a h =
      subst
        (λ (x : Assignment).
          x.remaining ≡ filter (off_cores topology (map core_of x.bindings)) cpu_pool)
        (ok-injective h) (sym (filter-off_none topology cpu_pool))
  assign_gpu_control_cpus-dedicated (g ∷ gs) a h = assign_loop-dedicated [] cpu_pool (g ∷ gs) a h

  -- In shared mode the compute pool is left as it was.
  pub assign_gpu_control_cpus-shared :
      (gpu_ids : List ℤ) (a : Assignment)
      → assign_gpu_control_cpus topology cpu_pool gpu_ids "shared" ≡ ok a
      → a.remaining ≡ cpu_pool
  unfolding assign_gpu_control_cpus
  assign_gpu_control_cpus-shared [] a h =
      ap (λ (x : Assignment). x.remaining) (sym (ok-injective h))
  assign_gpu_control_cpus-shared (g ∷ gs) a h = assign_loop-shared [] cpu_pool (g ∷ gs) a h

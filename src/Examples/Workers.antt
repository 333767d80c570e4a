-- ===== src/Examples/Workers.antt =====
-- `_assign_gpu_control_cpus` of prbench/sweep.py on the sample machine.
use parallel_reduction_bench.Prelude.{
  ◌≡◌, refl, true, false, String_eq, ◌⊎◌, inl, inr, some, List, [], ◌∷◌, All, In, IsDistinct, arith,
  contains, filter, find, find_last, dedupe, sort, insert, map,
}
use parallel_reduction_bench.Prelude.Int.{ℤ, ℤ_eq, pos}
use parallel_reduction_bench.Prelude.Result.{ok, require}
use parallel_reduction_bench.Samples.{machine, gpu1}
use parallel_reduction_bench.Topology.{cpu_by_id}
use parallel_reduction_bench.Sweep.Control.{
  Assignment, core_key, numa_local, tiers, is_free, choose, choose_for, assign_loop,
  assign_gpu_control_cpus,
}
use parallel_reduction_bench.Sweep.Control.Cores.{
  IsAssigned, core_of, assign_gpu_control_cpus-IsAssigned,
}
use parallel_reduction_bench.Sweep.Control.Pool.{off_cores, assign_gpu_control_cpus-dedicated}
use parallel_reduction_bench.Sweep.Control.Enough.{IsFreeCore, assign_gpu_control_cpus-total}
use parallel_reduction_bench.Sweep.Control.Preference.{choose-prefers_pool}

abbrev pool : List ℤ
pool = pos 0 ∷ pos 4 ∷ pos 5 ∷ pos 2 ∷ []

abbrev both : List ℤ
both = pos 0 ∷ pos 1 ∷ []

-- GPU 0 takes core (0, 0), and GPU 1 takes core (1, 0).
abbrev dedicated_cpus : Assignment
dedicated_cpus = record {
  remaining = pos 5 ∷ [];
  workers = pos 0 ∷ pos 2 ∷ [];
  bindings =
      record {
        gpu_id = pos 0;
        cpu_id = pos 0;
        socket_id = pos 0;
        core_id = pos 0;
        numa_node = some (pos 0);
        gpu_numa_node = some (pos 0);
        locality = "pci_local_selected";
        mode = "dedicated";
      }
      ∷ record {
        gpu_id = pos 1;
        cpu_id = pos 2;
        socket_id = pos 1;
        core_id = pos 0;
        numa_node = some (pos 1);
        gpu_numa_node = some (pos 1);
        locality = "pci_local_selected";
        mode = "dedicated";
      }
      ∷ [];
}

machine-dedicated : assign_gpu_control_cpus machine pool both "dedicated" ≡ ok dedicated_cpus
unfolding assign_gpu_control_cpus assign_loop choose_for choose tiers numa_local is_free core_key
    cpu_by_id find find_last filter contains dedupe sort insert require
machine-dedicated = refl

abbrev shared_cpus : Assignment
shared_cpus = record {
  remaining = pool;
  workers = pos 0 ∷ [];
  bindings =
      record {
        gpu_id = pos 0;
        cpu_id = pos 0;
        socket_id = pos 0;
        core_id = pos 0;
        numa_node = some (pos 0);
        gpu_numa_node = some (pos 0);
        locality = "pci_local_selected";
        mode = "shared";
      }
      ∷ [];
}

machine-shared : assign_gpu_control_cpus machine pool (pos 0 ∷ []) "shared" ≡ ok shared_cpus
unfolding assign_gpu_control_cpus assign_loop choose_for choose tiers numa_local is_free core_key
    cpu_by_id find find_last filter contains dedupe sort insert require
machine-shared = refl

assign_gpu_control_cpus-IsAssigned_example : IsAssigned machine [] both dedicated_cpus
assign_gpu_control_cpus-IsAssigned_example =
    assign_gpu_control_cpus-IsAssigned machine pool "dedicated" both dedicated_cpus
      machine-dedicated

assign_gpu_control_cpus-dedicated_example :
    pos 5 ∷ [] ≡ filter (off_cores machine (map core_of dedicated_cpus.bindings)) pool
assign_gpu_control_cpus-dedicated_example =
    assign_gpu_control_cpus-dedicated machine pool both dedicated_cpus machine-dedicated

abbrev two_cores : List (ℤ × ℤ)
two_cores = (pos 0, pos 1) ∷ (pos 1, pos 0) ∷ []

cores_differ : IsDistinct two_cores
cores_differ = ((λ i. elim i [ inl e ↦ absurd (ground arith) | inr b ↦ b ]), ((λ z. z), tt))

two_cores-IsFreeCore : All (IsFreeCore machine []) two_cores
unfolding core_key cpu_by_id find_last contains
two_cores-IsFreeCore = (
  record { cpu_id = pos 5; cpu_allowed = refl; cpu_core = refl; unused = refl },
  (record { cpu_id = pos 2; cpu_allowed = refl; cpu_core = refl; unused = refl }, tt),
)

assign_gpu_control_cpus-total_example :
    (a : Assignment) × (assign_gpu_control_cpus machine pool both "dedicated" ≡ ok a)
assign_gpu_control_cpus-total_example =
    assign_gpu_control_cpus-total machine pool "dedicated" both two_cores refl
      (inl refl, (inr (inl refl), tt)) cores_differ two_cores-IsFreeCore (omega arith)

-- Both cores of the second GPU's CPUs are in use, and the pool holds CPU 5 only.
abbrev used_cores : List (ℤ × ℤ)
used_cores = (pos 1, pos 0) ∷ (pos 1, pos 1) ∷ []

machine-choice :
    choose machine used_cores (tiers machine (pos 5 ∷ []) gpu1) ≡ some ("selected_pool", pos 5)
unfolding choose tiers numa_local is_free core_key cpu_by_id find find_last filter contains dedupe
    sort insert
machine-choice = refl

choose-prefers_pool_example :
    (contains (pos 5 ∷ []) (pos 5) ≡ true)
    ⊎ ((c : ℤ)
        → In c (pos 5 ∷ [])
        → contains machine.allowed_cpus c ≡ true
        → is_free machine used_cores c ≡ false)
choose-prefers_pool_example =
    choose-prefers_pool machine (pos 5 ∷ []) used_cores gpu1 ("selected_pool", pos 5) machine-choice

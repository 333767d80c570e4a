-- ===== src/Topology.antt =====
-- prbench/topology.py: which logical CPUs an experiment may compute on. Discovery (sysfs, NVML)
-- is input: a `SystemTopologyModel`.
pub mod Cores
pub mod Candidates
pub mod Pool
pub mod Classes
pub mod CpuList
use parallel_reduction_bench.Prelude.{
  Bool, true, false, not, ◌&&◌, ◌||◌, Option, none, some, String, List, [], ◌∷◌, map, ◌==◌,
  String_eq, pair_eq, filter, contains, is_empty, find_last, sort, if◌then◌else◌,
}
use parallel_reduction_bench.Prelude.Int.{ℤ, ℤ_eq, leb_ℤ}
use parallel_reduction_bench.Prelude.Result.{Result, ok, raise, value_error, ◌>>=◌}
use parallel_reduction_bench.Models.{TopologyCpu, SystemTopologyModel}

-- The physical core of a logical CPU.
abbrev pub core_key : TopologyCpu → ℤ × ℤ
core_key cpu = (cpu.socket_id, cpu.core_id)

-- `cpu_by_id.get(cpu_id)`: the dict keeps the last CPU with an id
unfoldable pub cpu_by_id : SystemTopologyModel → ℤ → Option TopologyCpu
cpu_by_id topology cpu_id = find_last (λ cpu. cpu.cpu_id == cpu_id) topology.logical_cpus

-- `sorted(..., key=lambda x: x.cpu_id)`
abbrev pub id_le : TopologyCpu → TopologyCpu → Bool
id_le a b = leb_ℤ a.cpu_id b.cpu_id

abbrev pub usable : List ℤ → TopologyCpu → Bool
usable allowed cpu = cpu.online && contains allowed cpu.cpu_id

-- The loop of `choose_one_thread_per_core`, over the CPUs in order of id.
unfoldable pub choose_loop : List ℤ → List (ℤ × ℤ) → List TopologyCpu → List ℤ
choose_loop allowed seen [] = []
choose_loop allowed seen (cpu ∷ cpus) =
    let skip = choose_loop allowed seen cpus in
    let take = choose_loop allowed (core_key cpu ∷ seen) cpus in
    if not cpu.online || not (contains allowed cpu.cpu_id)
    then skip
    else if contains seen (core_key cpu)
    then skip
    else cpu.cpu_id ∷ take

unfoldable pub choose_one_thread_per_core : SystemTopologyModel → List ℤ → List ℤ
choose_one_thread_per_core topology allowed =
    choose_loop allowed [] (sort id_le topology.logical_cpus)

-- `c not in allowed or c not in cpu_by_id or not cpu_by_id[c].online`
unfoldable pub unavailable : SystemTopologyModel → ℤ → Bool
unavailable topology c =
    not (contains topology.allowed_cpus c)
    || elim (cpu_by_id topology c) [ none ↦ true | some cpu ↦ not cpu.online ]

unfoldable pub explicit_pool : SystemTopologyModel → List ℤ → Result (List ℤ)
explicit_pool topology ids =
    if is_empty (filter (unavailable topology) ids) then ok ids else raise value_error

abbrev pub on_node : Option ℤ → TopologyCpu → Bool
on_node none cpu = true
on_node (some node) cpu = elim cpu.numa_node [ none ↦ false | some n ↦ n == node ]

-- the candidates on the NUMA node that was asked for
unfoldable pub node_candidates : SystemTopologyModel → Option ℤ → Result (List TopologyCpu)
node_candidates topology none = ok (filter (usable topology.allowed_cpus) topology.logical_cpus)
node_candidates topology (some node) =
    let found =
      filter (on_node (some node)) (filter (usable topology.allowed_cpus) topology.logical_cpus) in
    if is_empty found then raise value_error else ok found

-- the candidates of the core class that was asked for
unfoldable pub class_candidates : String → List TopologyCpu → Result (List TopologyCpu)
class_candidates core_class candidates =
    if core_class == "performance" || core_class == "efficiency"
    then (let found = filter (λ c. c.core_class == core_class) candidates in
        if is_empty found then raise value_error else ok found)
    else if core_class == "all"
    then ok candidates
    else raise value_error

-- the end of `resolve_cpu_pool`, at the sorted ids
unfoldable pub with_policy : SystemTopologyModel → String → List ℤ → Result (List ℤ)
with_policy topology thread_policy selected =
    if thread_policy == "one_thread_per_core"
    then ok (choose_one_thread_per_core topology selected)
    else if thread_policy == "all_threads"
    then ok selected
    else raise value_error

unfoldable pub resolve_cpu_pool :
    SystemTopologyModel → String → String → Option ℤ → Option (List ℤ) → Result (List ℤ)
resolve_cpu_pool topology core_class thread_policy numa_node (some explicit_ids) =
    explicit_pool topology explicit_ids
resolve_cpu_pool topology core_class thread_policy numa_node none = do
  local ← node_candidates topology numa_node
  candidates ← class_candidates core_class local
  with_policy topology thread_policy (map (λ c. c.cpu_id) (sort id_le candidates))

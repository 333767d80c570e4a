-- ===== src/Sweep/Control.antt =====
-- `_assign_gpu_control_cpus` of prbench/sweep.py: one control CPU for each GPU of a set.
pub mod Cores
pub mod Pool
pub mod Enough
pub mod Preference
use parallel_reduction_bench.Prelude.{
  Bool, true, false, not, ◌&&◌, ◌||◌, Option, none, some, String, List, [], ◌∷◌, map, ◌==◌,
  String_eq, pair_eq, contains, dedupe, filter, find, is_empty, sort, if◌then◌else◌,
}
use parallel_reduction_bench.Prelude.Int.{ℤ, ℤ_eq, leb_ℤ}
use parallel_reduction_bench.Prelude.Result.{
  Result, ok, raise, require, value_error, assertion_error, ◌>>=◌,
}
use parallel_reduction_bench.Models.{TopologyCpu, TopologyGpu, SystemTopologyModel}
use parallel_reduction_bench.Topology

-- The entry of `bindings` for one GPU.
pub record Binding : Type 0 where
  pub gpu_id : ℤ
  pub cpu_id : ℤ
  pub socket_id : ℤ
  pub core_id : ℤ
  pub numa_node : Option ℤ
  pub gpu_numa_node : Option ℤ
  pub locality : String
  pub mode : String

-- What the method returns: the compute pool that is left, the workers, and their bindings.
pub record Assignment : Type 0 where
  pub remaining : List ℤ
  pub workers : List ℤ
  pub bindings : List Binding

-- the choice for one GPU: its tier, the GPU, the chosen id and its CPU
pub record Choice : Type 0 where
  pub locality : String
  pub gpu : TopologyGpu
  pub chosen : ℤ
  pub cpu : TopologyCpu

abbrev pub choice_key : Choice → ℤ × ℤ
choice_key choice = (choice.cpu.socket_id, choice.cpu.core_id)

abbrev pub binding : String → ℤ → Choice → Binding
binding mode gpu_id choice = record {
  gpu_id = gpu_id;
  cpu_id = choice.chosen;
  socket_id = choice.cpu.socket_id;
  core_id = choice.cpu.core_id;
  numa_node = choice.cpu.numa_node;
  gpu_numa_node = choice.gpu.numa_node;
  locality = choice.locality;
  mode = mode;
}

module _ (topology : SystemTopologyModel) where
  -- the inner function `core_key`
  unfoldable pub core_key : ℤ → Option (ℤ × ℤ)
  core_key cpu_id = elim (Topology.cpu_by_id topology cpu_id) [
    | none ↦ none
    | some cpu ↦ some (cpu.socket_id, cpu.core_id)
  ]

  abbrev pub same_node : Option ℤ → TopologyCpu → Bool
  same_node none cpu = false
  same_node (some node) cpu = elim cpu.numa_node [ none ↦ false | some n ↦ n == node ]

  unfoldable pub numa_local : TopologyGpu → List ℤ
  numa_local gpu =
      map (λ c. c.cpu_id)
        (filter (λ c. contains topology.allowed_cpus c.cpu_id && same_node gpu.numa_node c)
          topology.logical_cpus)

  -- the candidates for one GPU, best tier first
  unfoldable pub tiers : List ℤ → TopologyGpu → List (String × List ℤ)
  tiers cpu_pool gpu =
      let allowed = topology.allowed_cpus in
      let local = filter (contains allowed) gpu.local_cpus in
      let selected = filter (contains allowed) (sort leb_ℤ (dedupe cpu_pool)) in
      ("pci_local_selected", filter (contains cpu_pool) local)
      ∷ ("numa_local_selected", filter (contains cpu_pool) (numa_local gpu))
      ∷ ("selected_pool", selected)
      ∷ ("pci_local_fallback", local)
      ∷ ("numa_local_fallback", numa_local gpu)
      ∷ ("global_fallback", sort leb_ℤ (dedupe allowed))
      ∷ []

  -- `key is None or key in used_control_cores` fails
  unfoldable pub is_free : List (ℤ × ℤ) → ℤ → Bool
  is_free used candidate = elim (core_key candidate) [
    | none ↦ false
    | some key ↦ not (contains used key)
  ]

  -- The loops over the tiers and their candidates, up to the first free one.
  unfoldable pub choose : List (ℤ × ℤ) → List (String × List ℤ) → Option (String × ℤ)
  choose used [] = none
  choose used ((tier_name, candidates) ∷ rest) =
      let later = choose used rest in
      elim (find (is_free used) candidates) [
        | some candidate ↦ some (tier_name, candidate)
        | none ↦ later
      ]

  -- `core_key(c) != key`
  abbrev pub off_core : ℤ × ℤ → ℤ → Bool
  off_core key c = elim (core_key c) [ none ↦ true | some k ↦ not (k == key) ]

  unfoldable pub choose_for : List ℤ → List (ℤ × ℤ) → ℤ → Result Choice
  choose_for cpu_pool used gpu_id = do
    gpu ← require value_error (find (λ item. item.index == gpu_id) topology.gpus)
    found ← require value_error (choose used (tiers cpu_pool gpu))
    cpu ← require assertion_error (Topology.cpu_by_id topology found.1)
    ok (record { locality = found.0; gpu = gpu; chosen = found.1; cpu = cpu })

  -- `if mode == "dedicated": remaining = [...]`
  abbrev pub take_core : String → ℤ × ℤ → List ℤ → List ℤ
  take_core mode key remaining =
      if mode == "dedicated" then filter (off_core key) remaining else remaining

  -- The loop over the GPUs.
  unfoldable pub assign_loop : List ℤ → String → List (ℤ × ℤ) → List ℤ → List ℤ → Result Assignment
  assign_loop cpu_pool mode used remaining [] =
      ok (record { remaining = remaining; workers = []; bindings = [] })
  assign_loop cpu_pool mode used remaining (gpu_id ∷ gpu_ids) = do
    choice ← choose_for cpu_pool used gpu_id
    rest ←
        assign_loop cpu_pool mode (choice_key choice ∷ used)
          (take_core mode (choice_key choice) remaining) gpu_ids
    ok (record {
      remaining = rest.remaining;
      workers = choice.chosen ∷ rest.workers;
      bindings = binding mode gpu_id choice ∷ rest.bindings;
    })

  unfoldable pub assign_gpu_control_cpus : List ℤ → List ℤ → String → Result Assignment
  assign_gpu_control_cpus cpu_pool gpu_ids mode =
      if is_empty gpu_ids
      then ok (record { remaining = cpu_pool; workers = []; bindings = [] })
      else if not (mode == "dedicated" || mode == "shared")
      then raise value_error
      else assign_loop cpu_pool mode [] cpu_pool gpu_ids

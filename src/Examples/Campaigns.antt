-- ===== src/Examples/Campaigns.antt =====
-- `SweepPlanner.plan` of prbench/sweep.py on the sample campaign.
use mathlib.Core.List.{Permᴰ}
use mathlib.Core.List.Permᴰ
use parallel_reduction_bench.Prelude.{
  ◌*◌, ◌≡◌, refl, List, [], All, length, any, contains, dedupe, filter, find, find_last, sort,
  insert,
}
use parallel_reduction_bench.Prelude.Result.{Result, ok, raise, extend_each, require}
use parallel_reduction_bench.Samples.{machine, catalog, config, builtins}
use parallel_reduction_bench.Catalog.{get}
use parallel_reduction_bench.Topology.{
  cpu_by_id, node_candidates, class_candidates, with_policy, resolve_cpu_pool,
}
use parallel_reduction_bench.Sweep.GpuSets.{
  singles, pairs, resolve_entry, unique_sets, resolve_gpu_sets,
}
use parallel_reduction_bench.Sweep.Params
use parallel_reduction_bench.Sweep.Params.{to_int, combos, check_combo, keep_valid, expand_params}
use parallel_reduction_bench.Sweep.Control.{
  core_key, numa_local, tiers, is_free, choose, choose_for, assign_loop, assign_gpu_control_cpus,
}
use parallel_reduction_bench.Sweep.Plan.{
  TaskSpec, place, identity, task, instance_of, instances, plan_gpu_set, plan_request, plan_group,
  plan,
}
use parallel_reduction_bench.Sweep.Plan.Runnable.{IsRunnable}
use parallel_reduction_bench.Sweep.Plan.Campaign.{
  Shuffles, copies, InBlock, plan-perm, plan-IsRunnable,
}

abbrev get_or : Result (List TaskSpec) → List TaskSpec
get_or (ok tasks) = tasks
get_or (raise kind) = []

abbrev planned : List TaskSpec
planned = get_or (plan builtins catalog machine config)

-- three GPU sets for the hybrid algorithm, and one CPU-only task, in each of two blocks
config-plan : (plan builtins catalog machine config ≡ ok planned) × (length planned ≡ 8)
unfolding plan instances instance_of plan_group plan_request plan_gpu_set place task identity get
    expand_params keep_valid check_combo Params.get to_int combos resolve_gpu_sets resolve_entry
    unique_sets singles pairs resolve_cpu_pool node_candidates class_candidates with_policy
    assign_gpu_control_cpus assign_loop choose_for choose tiers numa_local is_free core_key
    cpu_by_id extend_each require find find_last filter contains any dedupe sort insert
config-plan = (refl, refl)

identity-Shuffles : Shuffles builtins
identity-Shuffles seed tasks = Permᴰ.refl tasks

plan-perm_example :
    (base : List TaskSpec) × (extend_each (plan_group builtins catalog machine) config.experiments
      ≡ ok base)
    × Permᴰ planned (copies builtins identity-Shuffles base 2 0)
    × (length planned ≡ 2 * length base)
plan-perm_example =
    plan-perm builtins identity-Shuffles catalog machine config planned config-plan.0

plan-IsRunnable_example :
    All
      (λ t. IsRunnable builtins catalog machine t × InBlock builtins identity-Shuffles 2 t)
      planned
plan-IsRunnable_example =
    plan-IsRunnable builtins identity-Shuffles catalog machine config planned config-plan.0

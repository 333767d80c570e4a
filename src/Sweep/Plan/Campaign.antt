-- ===== src/Sweep/Plan/Campaign.antt =====
-- `SweepPlanner.plan` of prbench/sweep.py: the blocks of a campaign.
use mathlib.Core.List.{Permᴰ}
use mathlib.Core.List.Permᴰ
use parallel_reduction_bench.Prelude.{
  ℕ, zero, suc, ◌+◌, ◌*◌, ◌≤◌, ◌<◌, ◌≡◌, refl, ◌∙◌, subst, List, [], ◌++◌, map, arith, length,
  length-append, length-map, All, All-append, All-map, All-imp,
}
use parallel_reduction_bench.Prelude.Int.{ℤ, pos, ◌+ℤ◌}
use parallel_reduction_bench.Prelude.Result.{ok, >>=-eq-ok, ok-injective, extend_each}
use parallel_reduction_bench.Prelude.Loops.{extend_each-All}
use parallel_reduction_bench.Prelude.Permutations.{Perm-All, Perm-length, Perm-append}
use parallel_reduction_bench.Models.{RootConfig, SystemTopologyModel}
use parallel_reduction_bench.Catalog.{AlgorithmCatalog}
use parallel_reduction_bench.Sweep.Plan.{
  TaskSpec, Builtins, instance_of, instances, plan_group, plan,
}
use parallel_reduction_bench.Sweep.Plan.Runnable.{IsRunnable, plan_group-IsRunnable}

-- `random.Random(seed).shuffle` permutes its list.
abbrev pub Shuffles : Builtins → Type 0
Shuffles lib = (seed : ℤ) (tasks : List TaskSpec) → Permᴰ (lib.shuffle seed tasks) tasks

module _ (lib : Builtins) (shuffles : Shuffles lib) where
  -- The base tasks once for each of `left` blocks from `block` on, in order.
  abbrev pub copies : List TaskSpec → ℕ → ℕ → List TaskSpec
  copies base zero block = []
  copies base (suc left) block = map (instance_of lib block) base ++ copies base left (suc block)

  instances-perm :
      (seed : ℤ) (base : List TaskSpec) (left block : ℕ)
      → Permᴰ (instances lib seed base left block) (copies base left block)
  unfolding instances
  instances-perm seed base zero block = Permᴰ.nil
  instances-perm seed base (suc left) block =
      Perm-append (shuffles (seed +ℤ pos block) (map (instance_of lib block) base))
        (instances-perm seed base left (suc block))

  length-copies :
      (base : List TaskSpec) (left block : ℕ) → length (copies base left block) ≡ left * length base
  length-copies base zero block = omega arith
  length-copies base (suc left) block = omega (
    arith,
    length-append (map (instance_of lib block) base) (copies base left (suc block)),
    length-map base (instance_of lib block),
    length-copies base left (suc block),
  )

  -- The instance belongs to a block below the bound, and its id is the digest of its key and block.
  pub record InBlock (bound : ℕ) (t : TaskSpec) : Type 0 where
    pub block : ℕ
    pub below : block < bound
    pub index : t.block_index ≡ pos block
    pub instance_id : t.task_instance_id ≡ lib.instance_digest t.task_key block

  copies-All :
      (P : TaskSpec → Type 0) (base : List TaskSpec) (left block bound : ℕ)
      → block + left ≤ bound
      → All P base
      → ((t : TaskSpec) (b : ℕ) → P t → P (instance_of lib b t))
      → All (λ t. P t × InBlock bound t) (copies base left block)
  unfolding instance_of
  copies-All P base zero block bound fits h keep = tt
  copies-All P base (suc left) block bound fits h keep =
      All-append _ (map (instance_of lib block) base) (copies base left (suc block))
        (All-map _ (instance_of lib block) base (
          All-imp base
            (λ t p. (
              keep t block p,
              record { block = block; below = omega arith; index = refl; instance_id = refl },
            ))
            h))
        (copies-All P base left (suc block) bound (omega arith) h keep)

  module _ (catalog : AlgorithmCatalog) (topology : SystemTopologyModel) (config : RootConfig)
      (all : List TaskSpec) where
    -- If the shuffle permutes its list, a plan that is returned is a permutation of one instance of
    -- every task of every group for each block; it has as many instances as there are blocks times
    -- tasks.
    pub plan-perm :
        plan lib catalog topology config ≡ ok all
        → (base : List TaskSpec) × (extend_each (plan_group lib catalog topology) config.experiments
            ≡ ok base)
          × Permᴰ all (copies base config.measurement.blocks 0)
          × (length all ≡ config.measurement.blocks * length base)
    unfolding plan
    plan-perm h =
        let m = config.measurement in
        let (base, e, e') =
          >>=-eq-ok (extend_each (plan_group lib catalog topology) config.experiments) _ h in
        let perm =
          subst (λ xs. Permᴰ xs (copies base m.blocks 0)) (ok-injective e')
            (instances-perm m.randomization_seed base m.blocks 0) in
        (base, e, perm, Perm-length perm ∙ length-copies base m.blocks 0)

    -- If the shuffle permutes its list, every task instance of a plan that is returned can run on
    -- the machine: its algorithm is in the catalog, its GPUs fit the algorithm and have one control
    -- CPU each on pairwise different cores, its compute CPUs are online and allowed and there is
    -- one if the algorithm needs it, and its parameters pass the checks of the grid. It carries the
    -- index of a block of the campaign and the id that belongs to its key and block.
    pub plan-IsRunnable :
        plan lib catalog topology config ≡ ok all
        → All (λ t. IsRunnable lib catalog topology t × InBlock config.measurement.blocks t) all
    unfolding instance_of
    plan-IsRunnable h =
        let m = config.measurement in
        let (base, e, perm, _) = plan-perm h in
        Perm-All _ (Permᴰ.symm perm) (
          copies-All (IsRunnable lib catalog topology) base m.blocks 0 m.blocks (omega arith)
            (extend_each-All (plan_group lib catalog topology) (IsRunnable lib catalog topology)
              config.experiments base
              (λ group tasks _. plan_group-IsRunnable lib catalog topology group tasks) e)
            (λ t b r. record {
              known = r.known;
              gpus = r.gpus;
              no_gpus = r.no_gpus;
              control = r.control;
              cpus = r.cpus;
              no_cpus = r.no_cpus;
              online = r.online;
              checked = r.checked;
            }))

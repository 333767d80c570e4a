-- ===== src/Sweep/Plan/Runnable.antt =====
-- Every task that `SweepPlanner` of prbench/sweep.py plans can run on the machine.
use parallel_reduction_bench.Prelude.{
  ◌≡◌, refl, sym, ap, ◌∙◌, subst, Bool, true, false, ◌&&◌, inl, inr, none, String, List, [], ◌∷◌,
  map, arith, String_eq, Bool-cases, is_empty, All, All-filter, All-map, All-imp, All-self, All-In,
  In, if◌then◌else◌,
}
use mathlib.Core.List.{cons≢nil}
use parallel_reduction_bench.Prelude.Int.{ℤ}
use parallel_reduction_bench.Prelude.Result.{
  Result, ok, raise, value_error, >>=-eq-ok, ok-injective,
}
use parallel_reduction_bench.Prelude.Loops.{extend_each-All}
use parallel_reduction_bench.Models.{
  AlgorithmDefinition, AlgorithmRequest, DatasetSpec, ExperimentGroup, ReductionOperation, Param,
  SystemTopologyModel, GpuControlMode, dedicated, shared, core_class_value, thread_policy_value,
  control_mode_value,
}
use parallel_reduction_bench.Catalog
use parallel_reduction_bench.Catalog.{AlgorithmCatalog}
use parallel_reduction_bench.Topology.{resolve_cpu_pool}
use parallel_reduction_bench.Topology.Pool.{IsCandidate, resolve_cpu_pool-online}
use parallel_reduction_bench.Sweep.GpuSets.{resolve_gpu_sets}
use parallel_reduction_bench.Sweep.GpuSets.Laws.{
  Fits, resolve_gpu_sets-Fits, resolve_gpu_sets-trivial,
}
use parallel_reduction_bench.Sweep.Params.{Combo, check_combo, expand_params, get}
use parallel_reduction_bench.Sweep.Params.Valid.{expand_params_iff}
use parallel_reduction_bench.Sweep.Control.{Assignment, assign_gpu_control_cpus}
use parallel_reduction_bench.Sweep.Control.Cores.{IsAssigned, assign_gpu_control_cpus-IsAssigned}
use parallel_reduction_bench.Sweep.Control.Pool.{
  assign_gpu_control_cpus-dedicated, assign_gpu_control_cpus-shared,
}
use parallel_reduction_bench.Sweep.Plan.{
  TaskSpec, Builtins, place, task, plan_gpu_set, plan_request, plan_group,
}

-- The algorithm has the GPUs, control CPUs and compute CPUs that it needs, and its parameters pass
-- the checks of the grid.
pub record IsRunnable (lib : Builtins) (catalog : AlgorithmCatalog) (topology : SystemTopologyModel)
    (t : TaskSpec) : Type 0 where
  pub known : In t.algorithm catalog.definitions
  pub gpus :
      t.algorithm.uses_gpu ≡ true
      → Fits (map (λ gpu. gpu.index) topology.gpus) t.algorithm t.gpu_ids
  pub no_gpus : t.algorithm.uses_gpu ≡ false → (t.gpu_ids ≡ []) × (t.gpu_worker_cpus ≡ [])
  pub control :
      t.algorithm.uses_gpu ≡ true
      → IsAssigned topology [] t.gpu_ids (record {
        remaining = [];
        workers = t.gpu_worker_cpus;
        bindings = t.gpu_control_bindings;
      })
  pub cpus : t.algorithm.uses_cpu ≡ true → is_empty t.cpu_affinity ≡ false
  pub no_cpus : t.algorithm.uses_cpu ≡ false → t.cpu_affinity ≡ []
  pub online : All (IsCandidate topology "all" none) t.cpu_affinity
  pub checked : check_combo lib.int_of_text t.algorithm_params ≡ ok none

module _ (topology : SystemTopologyModel) where
  -- What `place` returns.
  record IsPlaced (definition : AlgorithmDefinition) (gpu_ids : List ℤ) (placed : Assignment)
      : Type 0 where
    control : definition.uses_gpu ≡ true → IsAssigned topology [] gpu_ids placed
    no_control : definition.uses_gpu ≡ false → placed.workers ≡ []
    cpus : definition.uses_cpu ≡ true → is_empty placed.remaining ≡ false
    online : All (IsCandidate topology "all" none) placed.remaining

  remaining-online :
      (mode : GpuControlMode) (pool gpu_ids : List ℤ) (placed : Assignment)
      → assign_gpu_control_cpus topology pool gpu_ids (control_mode_value mode) ≡ ok placed
      → All (IsCandidate topology "all" none) pool
      → All (IsCandidate topology "all" none) placed.remaining
  remaining-online dedicated pool gpu_ids placed e h =
      rw (assign_gpu_control_cpus-dedicated topology pool gpu_ids placed e)
        (All-filter (IsCandidate topology "all" none) _ pool h)
  remaining-online shared pool gpu_ids placed e h =
      rw (assign_gpu_control_cpus-shared topology pool gpu_ids placed e) h

  place-IsPlaced :
      (group : ExperimentGroup) (definition : AlgorithmDefinition) (gpu_ids : List ℤ)
      (placed : Assignment)
      → place topology group definition gpu_ids ≡ ok placed
      → IsPlaced definition gpu_ids placed
  unfolding place
  place-IsPlaced group definition gpu_ids placed h =
      let hw = group.hardware in
      let (pool, e, h₁) =
        >>=-eq-ok
          (resolve_cpu_pool topology (core_class_value hw.cpu_core_class)
            (thread_policy_value hw.cpu_thread_policy) hw.cpu_numa_node hw.cpu_explicit_ids)
          _ h in
      let (got, e', h₂) = >>=-eq-ok (assign pool) _ h₁ in
      let (enough, same) = last got h₂ in
      subst (IsPlaced definition gpu_ids) same (
        assigned pool got enough
          (resolve_cpu_pool-online topology _ _ hw.cpu_numa_node hw.cpu_explicit_ids pool e) e')
    where
      mode : GpuControlMode
      mode = group.hardware.gpu_control_mode

      assign : List ℤ → Result Assignment
      assign pool =
          if definition.uses_gpu
          then assign_gpu_control_cpus topology pool gpu_ids (control_mode_value mode)
          else ok (record { remaining = pool; workers = []; bindings = [] })

      last :
          (got : Assignment)
          → (if definition.uses_cpu && is_empty got.remaining then raise value_error else ok got)
            ≡ ok placed
          → (definition.uses_cpu ≡ true → is_empty got.remaining ≡ false) × (got ≡ placed)
      last got e = (λ u. ground arith, ground arith)

      assigned :
          (pool : List ℤ) (got : Assignment)
          → (definition.uses_cpu ≡ true → is_empty got.remaining ≡ false)
          → All (IsCandidate topology "all" none) pool
          → assign pool ≡ ok got
          → IsPlaced definition gpu_ids got
      assigned pool got enough on e = elim (Bool-cases definition.uses_gpu) [
        | inl u ↦
            let e' : assign_gpu_control_cpus topology pool gpu_ids (control_mode_value mode)
                ≡ ok got =
              rw u at e in
            record {
              control = λ _.
                  assign_gpu_control_cpus-IsAssigned topology pool (control_mode_value mode) gpu_ids
                    got e';
              no_control = λ f. absurd (cc);
              cpus = enough;
              online = remaining-online mode pool gpu_ids got e' on;
            }
        | inr u ↦
            let e' : record { remaining = pool; workers = []; bindings = [] } ≡ got =
              ok-injective (rw u at e) in
            record {
              control = λ f. absurd (cc);
              no_control = λ _. ap (λ (a : Assignment). a.workers) (sym e');
              cpus = enough;
              online =
                  subst (All (IsCandidate topology "all" none))
                    (ap (λ (a : Assignment). a.remaining) e') on;
            }
      ]

module _ (lib : Builtins) (catalog : AlgorithmCatalog) (topology : SystemTopologyModel) where
  -- the GPU set that was resolved for an algorithm
  IsSetFor : AlgorithmDefinition → List ℤ → Type 0
  IsSetFor definition gpu_ids =
      (definition.uses_gpu ≡ true → Fits (map (λ gpu. gpu.index) topology.gpus) definition gpu_ids)
      × (definition.uses_gpu ≡ false → gpu_ids ≡ [])

  sets-IsSetFor :
      (group : ExperimentGroup) (definition : AlgorithmDefinition) (sets : List (List ℤ))
      → resolve_gpu_sets topology group.hardware definition ≡ ok sets
      → All (IsSetFor definition) sets
  unfolding IsSetFor
  sets-IsSetFor group definition sets e = elim (Bool-cases definition.uses_gpu) [
    | inl u ↦
        All-imp sets (λ s f. (λ _. f, λ n. absurd (cc)))
          (resolve_gpu_sets-Fits topology group.hardware definition sets u e).0
    | inr u ↦
        let only = (resolve_gpu_sets-trivial topology group.hardware definition).0 u in
        let same : [] ∷ [] ≡ sets = ok-injective (sym only ∙ e) in
        subst
          (All (λ gpu_ids.
            (definition.uses_gpu ≡ true
              → Fits (map (λ gpu. gpu.index) topology.gpus) definition gpu_ids)
            × (definition.uses_gpu ≡ false → gpu_ids ≡ [])))
          same ((λ n. absurd (cc), λ _. refl), tt)
  ]

  task-IsRunnable :
      (group : ExperimentGroup) (dataset : DatasetSpec) (operation : ReductionOperation)
      (definition : AlgorithmDefinition) (gpu_ids : List ℤ) (placed : Assignment) (params : Combo)
      → In definition catalog.definitions
      → IsSetFor definition gpu_ids
      → IsPlaced topology definition gpu_ids placed
      → check_combo lib.int_of_text params ≡ ok none
      → IsRunnable lib catalog topology
          (task lib group dataset operation definition gpu_ids placed params)
  unfolding task IsSetFor
  task-IsRunnable group dataset operation definition gpu_ids placed params known set p checked =
      record {
        known = known;
        gpus = set.0;
        no_gpus = λ n. (set.1 n, p.no_control n);
        control = λ u.
            let c = p.control u in
            record {
              one_each = c.one_each;
              workers_of = c.workers_of;
              on_core = c.on_core;
              distinct = c.distinct;
            };
        cpus = λ u. rw u (p.cpus u);
        no_cpus = λ n. rw n refl;
        online = affinity-online definition.uses_cpu;
        checked = checked;
      }
    where
      affinity-online :
          (uses : Bool)
          → All (IsCandidate topology "all" none) (if uses then placed.remaining else [])
      affinity-online true = p.online
      affinity-online false = tt

  params-checked :
      (params : List (String × Param)) (grid : List Combo)
      → expand_params lib.int_of_text params ≡ ok grid
      → All (λ c. check_combo lib.int_of_text c ≡ ok none) grid
  unfolding expand_params check_combo get
  params-checked [] grid e =
      subst (All (λ c. check_combo lib.int_of_text c ≡ ok none)) (ok-injective e) (refl, tt)
  params-checked (p ∷ ps) grid e =
      All-imp grid
        (λ c m. (((expand_params_iff lib.int_of_text (p ∷ ps) grid cons≢nil e).1 c).0 m).1)
        (All-self grid)

  plan_request-IsRunnable :
      (group : ExperimentGroup) (dataset : DatasetSpec) (operation : ReductionOperation)
      (request : AlgorithmRequest) (tasks : List TaskSpec)
      → plan_request lib catalog topology group dataset operation request ≡ ok tasks
      → All (IsRunnable lib catalog topology) tasks
  unfolding plan_request plan_gpu_set
  plan_request-IsRunnable group dataset operation request tasks h =
      let (definition, e₁, h₁) = >>=-eq-ok (Catalog.get catalog request.id) _ h in
      let (sets, e₂, h₂) = >>=-eq-ok (resolve_gpu_sets topology group.hardware definition) _ h₁ in
      let (grid, e₃, h₃) = >>=-eq-ok (expand_params lib.int_of_text request.params) _ h₂ in
      extend_each-All _ (IsRunnable lib catalog topology) sets tasks
        (λ gpu_ids out m e.
          let (placed, e₄, e₅) = >>=-eq-ok (place topology group definition gpu_ids) _ e in
          subst (All (IsRunnable lib catalog topology)) (ok-injective e₅) (
            All-map (IsRunnable lib catalog topology) _ grid (
              All-imp grid
                (λ c checked.
                  task-IsRunnable group dataset operation definition gpu_ids placed c
                    (Catalog.get-In catalog request.id definition e₁).0
                    (All-In (IsSetFor definition) gpu_ids sets
                      (sets-IsSetFor group definition sets e₂) m)
                    (place-IsPlaced topology group definition gpu_ids placed e₄) checked)
                (params-checked request.params grid e₃))))
        h₃

  -- Each task that is planned for a group can run.
  pub plan_group-IsRunnable :
      (group : ExperimentGroup) (tasks : List TaskSpec)
      → plan_group lib catalog topology group ≡ ok tasks
      → All (IsRunnable lib catalog topology) tasks
  unfolding plan_group
  plan_group-IsRunnable group tasks h =
      extend_each-All _ (IsRunnable lib catalog topology) group.datasets tasks
        (λ dataset out _ e.
          extend_each-All _ (IsRunnable lib catalog topology) group.operations out
            (λ operation out' _ e'.
              extend_each-All _ (IsRunnable lib catalog topology) group.algorithms out'
                (λ request out'' _ e''.
                  plan_request-IsRunnable group dataset operation request out'' e'')
                e')
            e)
        h

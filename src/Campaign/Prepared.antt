-- ===== src/Campaign/Prepared.antt =====
-- What an exit code of 0 of `cmd_run` of prbench/cli.py says of the machine, the datasets and the tasks.
use parallel_reduction_bench.Prelude.{
  ℕ, ◌≡◌, ◌≢◌, refl, sym, ap, subst, inl, inr, true, false, Bool-cases, none, String_eq, List, [],
  is_empty, In, In-map, ◌==◌, arith,
}
use parallel_reduction_bench.Prelude.Result.{Result, ok, raise}
use parallel_reduction_bench.Models.{DatasetSpec, RootConfig, SystemTopologyModel}
use parallel_reduction_bench.Datasets.Cache.{CacheEntry, cached_artifact}
use parallel_reduction_bench.Sweep.Plan.{TaskSpec}
use parallel_reduction_bench.Runner.Session.{World}
use parallel_reduction_bench.Runner.Worker.{FloatOps}
use parallel_reduction_bench.Runner.Budgets.{TaskOps}
use parallel_reduction_bench.Preflight.{Machine, Builtins}
use parallel_reduction_bench.Preflight.Memory.{unique_datasets}
use parallel_reduction_bench.Preflight.Evaluate.{Report, evaluate_preflight}
use parallel_reduction_bench.Preflight.Keys.{IsKey}
use parallel_reduction_bench.Preflight.Ready.{
  Ready, evaluate_preflight-Ready, evaluate_preflight-cases,
}
use parallel_reduction_bench.Campaign.{Answers, exit_code}
use parallel_reduction_bench.Campaign.Command.{
  Create, Outcome, prepare_datasets, with_answers, run_prepared, run_checked, cmd_run,
}
use parallel_reduction_bench.Campaign.Success.{Complete, onto, run_campaign-Complete}
use parallel_reduction_bench.Campaign.Cached.{
  Stores, unique_datasets-Planned, unique_datasets-has, IsCached, prepare_all-IsCached,
}

-- What a command that succeeds leaves: the plan had tasks, the machine was ready for them, each task's dataset
-- is in the cache, and tasks.jsonl is complete.
pub record Finished (builtins : Builtins) (create : Create) (config : RootConfig)
    (topology : SystemTopologyModel) (machine : Machine) (answers : ℕ → Answers)
    (planned : Result (List TaskSpec)) (outcome : Outcome) : Type 0 where
  pub tasks : List TaskSpec
  pub plan : planned ≡ ok tasks
  pub some_task : is_empty tasks ≡ false
  pub ready : Ready builtins config topology machine tasks
  pub cached :
      (task : TaskSpec)
      → In task tasks
      → cached_artifact builtins.same_spec task.dataset (outcome.cache task.dataset) ≢ none
  pub complete : Complete (onto [] (with_answers answers 1 tasks)) outcome.world.task_rows

module _ (builtins : Builtins) (create : Create) (task_ops : TaskOps) (ops : FloatOps)
    (config : RootConfig) (topology : SystemTopologyModel) (machine : Machine)
    (answers : ℕ → Answers) (w : World) (empty : w.task_rows ≡ []) where
  abbrev Succeeds : Outcome → Type 0
  Succeeds outcome = exit_code outcome.code ≡ 0

  abbrev Done : List TaskSpec → Outcome → Type 0
  Done tasks outcome =
      ((task : TaskSpec)
        → In task tasks
        → cached_artifact builtins.same_spec task.dataset (outcome.cache task.dataset) ≢ none)
      × Complete (onto [] (with_answers answers 1 tasks)) outcome.world.task_rows

  prepared-Done :
      (tasks : List TaskSpec) (injective : IsKey builtins tasks)
      (stores : Stores builtins create tasks) (result : Result (Unit {0}))
      (cache : DatasetSpec → CacheEntry)
      → Path
          (Result (Unit {0}) × (DatasetSpec → CacheEntry))
          (prepare_datasets builtins.json create (unique_datasets builtins tasks) machine.cache)
          (result, cache)
      → Succeeds (
          run_prepared builtins create task_ops ops config topology machine answers tasks w
            (result, cache))
      → Done tasks (
          run_prepared builtins create task_ops ops config topology machine answers tasks w
            (result, cache))
  prepared-Done tasks injective stores (raise kind) cache made h = absurd (omega (arith, h))
  prepared-Done tasks injective stores (ok u) cache made h = (
    λ task m.
        subst (λ p. IsCached builtins create tasks injective stores p.1 task.dataset) made
          (prepare_all-IsCached builtins create tasks injective stores
            (unique_datasets builtins tasks) machine.cache u
            (unique_datasets-Planned builtins tasks injective) (ap (λ p. p.0) made) task.dataset
            (In-map (λ t. t.dataset) task tasks m)
            (inl (unique_datasets-has builtins tasks injective task m))),
    run_campaign-Complete task_ops ops config topology (with_answers answers 1 tasks) w empty h,
  )

  passed-Finished :
      (tasks : List TaskSpec) (injective : IsKey builtins tasks)
      (stores : Stores builtins create tasks)
      → is_empty tasks ≡ false
      → Ready builtins config topology machine tasks
      → (p : Result (Unit {0}) × (DatasetSpec → CacheEntry))
      → Path
          (Result (Unit {0}) × (DatasetSpec → CacheEntry))
          (prepare_datasets builtins.json create (unique_datasets builtins tasks) machine.cache)
          p
      → Succeeds
          (run_prepared builtins create task_ops ops config topology machine answers tasks w p)
      → Finished builtins create config topology machine answers
          (ok tasks)
          (run_prepared builtins create task_ops ops config topology machine answers tasks w p)
  passed-Finished tasks injective stores given ready (result, cache) made h =
      let (cached, complete) = prepared-Done tasks injective stores result cache made h in
      record {
        tasks = tasks;
        plan = refl;
        some_task = given;
        ready = ready;
        cached = cached;
        complete = complete;
      }

  abbrev ran : List TaskSpec → Result Report → Outcome
  ran tasks r = run_checked builtins create task_ops ops config topology machine answers tasks w r

  -- The preflight checks did not say "failed".
  checked-Finished :
      (tasks : List TaskSpec) (injective : IsKey builtins tasks)
      (stores : Stores builtins create tasks) (r : Result Report)
      → is_empty tasks ≡ false
      → evaluate_preflight builtins config topology machine tasks ≡ r
      → Succeeds (ran tasks r)
      → Finished builtins create config topology machine answers (ok tasks) (ran tasks r)
  checked-Finished tasks injective stores (raise kind) given e h = absurd (omega (arith, h))
  checked-Finished tasks injective stores (ok report) given e h =
      elim (evaluate_preflight-cases builtins config topology machine tasks report e) [
        | inl failed ↦
            let test : report.status == "failed" ≡ true =
              (String_eq.test_iff report.status "failed").1 failed in
            absurd (omega (arith, rw test at h))
        | inr passed ↦
            let test : report.status == "failed" ≡ false = ap (λ s. s == "failed") passed in
            rw test (
              passed-Finished tasks injective stores given
                (evaluate_preflight-Ready builtins config topology machine tasks injective report e
                  passed)
                (prepare_datasets builtins.json create (unique_datasets builtins tasks)
                  machine.cache)
                refl (rw test at h))
      ]

  cmd_run-step :
      (tasks : List TaskSpec)
      → is_empty tasks ≡ false
      → cmd_run builtins create task_ops ops config topology machine answers (ok tasks) w
        ≡ ran tasks (evaluate_preflight builtins config topology machine tasks)
  unfolding cmd_run
  cmd_run-step tasks given = rw (given, cmd_run) refl

  -- If the command exits with 0, the plan had tasks, the machine was ready for them, the dataset of each task
  -- is in the cache, and tasks.jsonl holds exactly one row for each task, in order, which says "ok" or
  -- "skipped". Two of the tasks' datasets with one JSON text are the same, an artifact that the factory returns
  -- for a dataset of the tasks is in the cache, and there were no rows before.
  pub cmd_run-Finished :
      (planned : Result (List TaskSpec))
      → ((tasks : List TaskSpec) → planned ≡ ok tasks → IsKey builtins tasks)
      → ((tasks : List TaskSpec) → planned ≡ ok tasks → Stores builtins create tasks)
      → exit_code
          (cmd_run builtins create task_ops ops config topology machine answers planned w).code
        ≡ 0
      → Finished builtins create config topology machine answers planned
          (cmd_run builtins create task_ops ops config topology machine answers planned w)
  unfolding cmd_run
  cmd_run-Finished (raise kind) keys stores h = absurd (omega (arith, h))
  cmd_run-Finished (ok tasks) keys stores h = elim (Bool-cases (is_empty tasks)) [
    | inl nothing ↦ absurd (omega (arith, rw (nothing, cmd_run) at h))
    | inr given ↦
        let step = cmd_run-step tasks given in
        subst (Finished builtins create config topology machine answers (ok tasks)) (sym step) (
          checked-Finished tasks (keys tasks refl) (stores tasks refl)
            (evaluate_preflight builtins config topology machine tasks) given refl
            (subst Succeeds step h))
  ]

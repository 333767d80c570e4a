-- ===== src/Campaign/Command.antt =====
-- `cmd_run` of prbench/cli.py from the plan on: the preflight checks, the datasets, and the campaign.
use parallel_reduction_bench.Prelude.{
  ℕ, ◌+◌, String, String_eq, List, [], ◌∷◌, is_empty, ◌==◌, if◌then◌else◌,
}
use parallel_reduction_bench.Prelude.Result.{Result, ok, raise}
use parallel_reduction_bench.Models.{DatasetSpec, RootConfig, SystemTopologyModel}
use parallel_reduction_bench.Datasets.Cache.{CacheEntry, Metadata}
use parallel_reduction_bench.Sweep.Plan.{TaskSpec}
use parallel_reduction_bench.Runner.Session.{World}
use parallel_reduction_bench.Runner.Worker.{FloatOps}
use parallel_reduction_bench.Runner.Budgets.{TaskOps}
use parallel_reduction_bench.Preflight.{Machine, Builtins}
use parallel_reduction_bench.Preflight.Memory.{unique_datasets}
use parallel_reduction_bench.Preflight.Evaluate.{Report, evaluate_preflight}
use parallel_reduction_bench.Campaign.{Answers, run_campaign}

-- The files of the cache, and what the command returns or raises.
pub record Outcome : Type 0 where
  pub code : Result (ℕ × String)
  pub cache : DatasetSpec → CacheEntry
  pub world : World

-- `get_or_create` on the files of one dataset.
abbrev pub Create : Type 0
Create = DatasetSpec → CacheEntry → Result Metadata × CacheEntry

abbrev pub put :
    (DatasetSpec → String)
    → DatasetSpec
    → CacheEntry
    → (DatasetSpec → CacheEntry)
    → DatasetSpec
    → CacheEntry
put json spec entry cache other = if json other == json spec then entry else cache other

-- The tasks with what the world answers to each.
abbrev pub with_answers : (ℕ → Answers) → ℕ → List TaskSpec → List (TaskSpec × Answers)
with_answers answers index [] = []
with_answers answers index (task ∷ tasks) =
    (task, answers index) ∷ with_answers answers (index + 1) tasks

module _ (json : DatasetSpec → String) (create : Create) where
  -- The loop over the datasets; an exception leaves it.
  unfoldable pub prepare_datasets :
      List DatasetSpec → (DatasetSpec → CacheEntry) → Result (Unit {0}) × (DatasetSpec → CacheEntry)
  prepare_datasets [] cache = (ok tt, cache)
  prepare_datasets (spec ∷ specs) cache =
      let (made, entry) = create spec (cache spec) in
      elim made [
        | raise kind ↦ (raise kind, put json spec entry cache)
        | ok artifact ↦ prepare_datasets specs (put json spec entry cache)
      ]

module _ (builtins : Builtins) (create : Create) (task_ops : TaskOps) (ops : FloatOps)
    (config : RootConfig) (topology : SystemTopologyModel) (machine : Machine)
    (answers : ℕ → Answers) where
  abbrev pub run_prepared :
      List TaskSpec → World → Result (Unit {0}) × (DatasetSpec → CacheEntry) → Outcome
  run_prepared tasks w (raise kind, cache) = record { code = raise kind; cache = cache; world = w }
  run_prepared tasks w (ok _, cache) =
      let (code, v) = run_campaign task_ops ops config topology (with_answers answers 1 tasks) w in
      record { code = code; cache = cache; world = v }

  abbrev pub run_checked : List TaskSpec → World → Result Report → Outcome
  run_checked tasks w (raise kind) = record { code = raise kind; cache = machine.cache; world = w }
  run_checked tasks w (ok report) =
      if report.status == "failed"
      then record { code = ok (4, "preflight_failed"); cache = machine.cache; world = w }
      else run_prepared tasks w
          (prepare_datasets builtins.json create (unique_datasets builtins tasks) machine.cache)

  -- The planner's result is the argument.
  unfoldable pub cmd_run : Result (List TaskSpec) → World → Outcome
  cmd_run (raise kind) w = record { code = raise kind; cache = machine.cache; world = w }
  cmd_run (ok tasks) w =
      if is_empty tasks
      then record { code = ok (2, "no_tasks"); cache = machine.cache; world = w }
      else run_checked tasks w (evaluate_preflight builtins config topology machine tasks)

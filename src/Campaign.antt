-- ===== src/Campaign.antt =====
-- The campaign loop of `cmd_run` of prbench/cli.py, after the datasets are prepared, on the runner's
-- session with each task's worker. Printing, the durations and the summary's files are left out.
pub mod Success
pub mod Cached
pub mod Command
pub mod Prepared
use parallel_reduction_bench.Prelude.{
  ℕ, ◌+◌, Bool, true, false, not, ◌||◌, ◌==◌, ℕ_eq, String_eq, String, List, [], ◌∷◌, if◌then◌else◌,
}
use parallel_reduction_bench.Prelude.Result.{Result, ok, raise, Kind, keyboard_interrupt}
use parallel_reduction_bench.Models.{RootConfig, SystemTopologyModel}
use parallel_reduction_bench.Sweep.Plan.{TaskSpec}
use parallel_reduction_bench.Runner.Session.{World, WorkerEvent}
use parallel_reduction_bench.Runner.Worker.{FloatOps}
use parallel_reduction_bench.Runner.Budgets.{TaskOps}
use parallel_reduction_bench.Runner.Task.{run_task}
use parallel_reduction_bench.Store.{get, snoc, task_status_counts}

-- What the world outside answers to one task.
pub record Answers : Type 0 where
  pub reads : List (Result WorkerEvent)
  pub outcomes : List (Result (Unit {0}))
  pub alive : Bool

-- A task starts with a process of its own; the files go on.
abbrev pub begin : Answers → World → World
begin answers w = record w {
  reads = answers.reads;
  outcomes = answers.outcomes;
  alive = answers.alive;
  sent = [];
  energy_started = false;
  energy_stopped = false;
}

pub data LoopEnd : Type 0 where
  finished interrupted : LoopEnd
  crashed : Kind → LoopEnd

-- `except KeyboardInterrupt` around a task; any other exception leaves the loop.
abbrev pub after_task : Result (Unit {0}) × World → (World → LoopEnd × World) → LoopEnd × World
after_task (ok _, w) next = next w
after_task (raise keyboard_interrupt, w) next = (interrupted, w)
after_task (raise kind, w) next = (crashed kind, w)

-- newest first, in the order of the file
abbrev pub file_order : {A : Type 0} → List A → List A
file_order [] = []
file_order (x ∷ xs) = snoc x (file_order xs)

abbrev pub has_problems : List (String × ℕ) → Bool
has_problems counts = not (get 0 "failed" counts == 0) || not (get 0 "invalid" counts == 0)

-- The exit code and the manifest's final status.
abbrev pub conclude : LoopEnd × World → Result (ℕ × String) × World
conclude (interrupted, w) = (ok (130, "interrupted"), w)
conclude (crashed kind, w) = (raise kind, w)
conclude (finished, w) = (
  ok (
      if has_problems (task_status_counts (file_order w.task_rows))
      then (3, "completed_with_errors")
      else (0, "completed")),
  w,
)

-- The process's exit code; an exception that nothing catches gives 1.
abbrev pub exit_code : Result (ℕ × String) → ℕ
exit_code (ok (code, status)) = code
exit_code (raise kind) = 1

module _ (task_ops : TaskOps) (ops : FloatOps) (config : RootConfig)
    (topology : SystemTopologyModel) where
  unfoldable pub run_tasks : List (TaskSpec × Answers) → ℕ → World → LoopEnd × World
  run_tasks [] index w = (finished, w)
  run_tasks ((task, answers) ∷ tasks) index w =
      after_task (run_task task_ops ops config topology task index (begin answers w))
        (run_tasks tasks (index + 1))

  unfoldable pub run_campaign : List (TaskSpec × Answers) → World → Result (ℕ × String) × World
  run_campaign tasks w = conclude (run_tasks tasks 1 w)

-- ===== src/Runner/Task/Ended.antt =====
-- What `run_task` of prbench/runner.py leaves in the files, however a task ends.
use parallel_reduction_bench.Prelude.{
  ℕ, ◌≡◌, refl, ◌⊎◌, inl, inr, Bool, true, false, String, List, ◌∷◌,
}
use parallel_reduction_bench.Prelude.Result.{Result, Kind, keyboard_interrupt}
use parallel_reduction_bench.Models.{RootConfig, SystemTopologyModel}
use parallel_reduction_bench.Measurement.{validate_exact_gpu_memory_budget}
use parallel_reduction_bench.Sweep.Plan.{TaskSpec}
use parallel_reduction_bench.Runner.Session.{
  World, TaskRow, RepetitionRow, ◌>>◌, fail, lift, append_task, external, when, append_telemetry,
}
use parallel_reduction_bench.Runner.Session.Keeps.{
  Post, Runs, Keeps, IsCalm, bind, returns, fails, lifts, weaken, catches,
}
use parallel_reduction_bench.Runner.Worker.{FloatOps, task_row, capture_telemetry}
use parallel_reduction_bench.Runner.Worker.Steps.{wait_ready-Keeps, capture_telemetry-Keeps}
use parallel_reduction_bench.Runner.Worker.Rows.{
  Recorded, Stopped, Clean, Clean-IsCalm, Stopped-IsCalm, run_worker-Recorded,
}
use parallel_reduction_bench.Runner.Budgets.{
  TaskOps, validate_dataset_spec_memory_budget, validate_memory_budget,
}
use parallel_reduction_bench.Runner.Task.{
  prepare, attempt, append_failed, append_interrupted, recover, run_task,
}

module _ (task_ops : TaskOps) (ops : FloatOps) (config : RootConfig)
    (topology : SystemTopologyModel) (task : TaskSpec) (sequence_index : ℕ)
    (old_tasks : List TaskRow) (old_repetitions : List RepetitionRow) where
  -- A row of the status on top of what the worker's session left: nothing, or complete rows.
  pub record Ended (status : String) (w : World) : Type 0 where
    pub before : List TaskRow
    pub session :
        Stopped ops config task sequence_index old_tasks old_repetitions
          (record w { task_rows = before })
    pub added : w.task_rows ≡ task_row ops config task sequence_index status 0 ∷ before

  -- How a task ends when `run_task` returns, and when it raises: an exception leaves it only as a keyboard
  -- interrupt that is on record, or from a telemetry snapshot.
  abbrev pub Returned : World → Type 0
  Returned w =
      Recorded ops config task sequence_index old_tasks old_repetitions w ⊎ Ended "failed" w

  abbrev pub Raised : Kind → World → Type 0
  Raised kind w =
      ((kind ≡ keyboard_interrupt) × Ended "interrupted" w)
      ⊎ ((config.telemetry.enabled ≡ true)
          × Stopped ops config task sequence_index old_tasks old_repetitions w)

  abbrev Session : World → Type 0
  Session = Stopped ops config task sequence_index old_tasks old_repetitions

  Session-IsCalm : IsCalm Session
  Session-IsCalm = Stopped-IsCalm ops config task sequence_index old_tasks old_repetitions

  -- A snapshot keeps what is there, and raises only where telemetry is on.
  capture-Runs :
      {I : World → Type 0} (phase : String)
      → IsCalm I
      → Runs
          (capture_telemetry ops config task sequence_index phase)
          I
          (λ _. I)
          (λ _ w. (config.telemetry.enabled ≡ true) × I w)
  unfolding capture_telemetry
  capture-Runs {I} phase calm =
      by_case config.telemetry.enabled
        (capture_telemetry-Keeps calm ops config task sequence_index phase)
    where
      by_case :
          (b : Bool)
          → Keeps I (when b (external >> append_telemetry phase))
          → Runs (when b (external >> append_telemetry phase)) I (λ _. I) (λ _ w. (b ≡ true) × I w)
      by_case true h = weaken (λ w p. p) (λ a w p. p) (λ kind w p. (refl, p)) h
      by_case false h = returns tt (λ w p. p)

  append_row-Runs :
      (status : String)
      → Runs
          (append_task (task_row ops config task sequence_index status 0))
          Session
          (λ _. Ended status)
          Raised
  unfolding append_task
  append_row-Runs status = record {
    run = λ w h. record { before = w.task_rows; session = h; added = refl };
  }

  prepare-Keeps :
      Keeps
        (Clean ops config task sequence_index old_tasks old_repetitions)
        (prepare task_ops ops config topology task sequence_index)
  unfolding prepare
  prepare-Keeps =
      bind (checked (validate_dataset_spec_memory_budget task_ops config topology task)) λ _.
        bind
          (checked (
            validate_exact_gpu_memory_budget task_ops.int_of_text task_ops.safe task topology
              config.measurement.gpu_memory_safety_fraction))
          λ _. bind (checked (task_ops.get_or_create task.dataset)) λ dataset.
            bind (checked (validate_memory_budget task_ops config topology task dataset)) λ _.
              bind (wait_ready-Keeps clean ops config task sequence_index) λ _.
                bind (capture_telemetry-Keeps clean ops config task sequence_index "pre_task")
                  λ _. returns dataset (λ w h. h)
    where
      clean : IsCalm (Clean ops config task sequence_index old_tasks old_repetitions)
      clean = Clean-IsCalm ops config task sequence_index old_tasks old_repetitions

      checked :
          {A : Type 0} (r : Result A)
          → Keeps (Clean ops config task sequence_index old_tasks old_repetitions) (lift r)
      checked r = lifts r (λ a w same h. h) (λ kind w h. h)

  attempt-Runs :
      Runs
        (attempt task_ops ops config topology task sequence_index)
        (Clean ops config task sequence_index old_tasks old_repetitions)
        (λ _. Recorded ops config task sequence_index old_tasks old_repetitions)
        (λ _. Session)
  unfolding attempt
  attempt-Runs =
      bind (weaken (λ w h. h) (λ dataset w h. h) (λ kind w h. inl h.0) prepare-Keeps) λ dataset.
        record {
          run = λ w h.
              run_worker-Recorded ops config task sequence_index old_tasks old_repetitions dataset w
                h.0 h.1;
        }

  append_after-Runs :
      (phase status : String)
      → Runs
          (capture_telemetry ops config task sequence_index phase
            >> append_task (task_row ops config task sequence_index status 0))
          Session
          (λ _. Ended status)
          Raised
  append_after-Runs phase status =
      bind (weaken (λ w h. h) (λ a w h. h) (λ kind w h. inr h) (capture-Runs phase Session-IsCalm))
        λ _. append_row-Runs status

  failed-Runs :
      Runs
        (append_failed task_ops ops config topology task sequence_index)
        Session
        (λ _. Returned)
        Raised
  failed-Runs =
      weaken (λ w h. h) (λ a w h. inr h) (λ kind w h. h)
        (append_after-Runs "post_task_failed" "failed")

  interrupted-Runs :
      Runs
        (append_interrupted task_ops ops config topology task sequence_index
          >> fail keyboard_interrupt)
        Session
        (λ (_ : Unit {0}). Returned)
        Raised
  interrupted-Runs =
      bind (append_after-Runs "post_task_interrupted" "interrupted")
        λ _. fails keyboard_interrupt (λ w h. inl (refl, h))

  recover-Runs :
      (kind : Kind)
      → Runs
          (recover task_ops ops config topology task sequence_index kind)
          Session
          (λ _. Returned)
          Raised
  recover-Runs keyboard_interrupt = interrupted-Runs
  recover-Runs kind = failed-Runs

  -- However a task goes, the files say how. If `run_task` returns, tasks.jsonl has got either the rows
  -- of a complete session, as `Recorded` describes them, or a "failed" row, on top of nothing or of a
  -- complete session's rows. If it raises, it raises a keyboard interrupt that an "interrupted" row in
  -- the same place records, or telemetry is on, in which case a snapshot's exception may leave no row.
  pub run_task-Ended :
      (w : World)
      → w.task_rows ≡ old_tasks
      → w.repetition_rows ≡ old_repetitions
      → Post (λ _. Returned) Raised (run_task task_ops ops config topology task sequence_index w)
  unfolding run_task
  run_task-Ended w tasks repetitions =
      (bind
          (weaken (λ v h. h) (λ a v h. h) (λ kind v h. inr (h.0, inl h.1.0))
            (capture-Runs "task_entry"
              (Clean-IsCalm ops config task sequence_index old_tasks old_repetitions)))
          λ _.
            catches (weaken (λ v h. h) (λ a v h. inl h) (λ kind v h. h) attempt-Runs)
              recover-Runs).run
        w (tasks, repetitions)

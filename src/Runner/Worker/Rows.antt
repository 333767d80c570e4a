-- ===== src/Runner/Worker/Rows.antt =====
-- The rows that `_run_worker` of prbench/runner.py writes, and what each stage adds to the files.
use parallel_reduction_bench.Prelude.{
  ℕ, ◌≡◌, refl, sym, ap, ap₂, ◌∙◌, subst, ◌⊎◌, inl, inr, Bool, true, String_eq, Option, String,
  List, [], ◌∷◌, ◌++◌, map, length, ◌==◌, In,
}
use parallel_reduction_bench.Prelude.Int.{ℤ, ℤ_eq, pos}
use parallel_reduction_bench.Prelude.Result.{protocol_error}
use parallel_reduction_bench.Models.{RootConfig}
use parallel_reduction_bench.Sweep.Plan.{TaskSpec}
use parallel_reduction_bench.Runner.Session.{
  Command, timing, energy, dump, World, M, TaskRow, RepetitionRow, append_task, append_energy_batch,
}
use parallel_reduction_bench.Runner.Session.Keeps.{
  files-IsCalm, Post, Runs, Keeps, IsCalm, bind, checks, either-IsCalm, weaken, external-Keeps,
  when-Keeps, send_command-Runs,
}
use parallel_reduction_bench.Runner.Worker.{
  DatasetArtifact, FloatOps, Tally, task_row, repetition_row, energy_enabled, first_tally,
  count_result, dump_stage, final_status, finish, run_worker,
}
use parallel_reduction_bench.Runner.Worker.Tallies.{
  mismatches, status_for, tally_of, first_tally-tally_of, count_result-tally_of,
  final_status-tally_of,
}
use parallel_reduction_bench.Runner.Worker.Stages.{Phases, run_worker-Runs}
use parallel_reduction_bench.Runner.Worker.Steps.{capture_telemetry-Keeps, collect-Runs}

module _ (ops : FloatOps) (config : RootConfig) (task : TaskSpec) (sequence_index : ℕ)
    (old_tasks : List TaskRow) (old_repetitions : List RepetitionRow) where
  -- What the files hold when the measurement of a task is over: for an unsupported task one row that
  -- says so, and otherwise one row for each result and one for the task, where the worker was asked for
  -- that many results, and the task's row says "ok" just if none was wrong.
  pub data Recorded : World → Type 0 where
    skipped :
        {w : World}
        → w.task_rows ≡ task_row ops config task sequence_index "skipped" 0 ∷ old_tasks
        → w.repetition_rows ≡ old_repetitions
        → Recorded w
    measured :
        {w : World} (results : List Bool) (energy_correct : Option Bool)
        → In (timing (pos (length results))) w.sent
        → w.repetition_rows
          ≡ map (repetition_row ops config task sequence_index) results ++ old_repetitions
        → w.task_rows
          ≡ task_row ops config task sequence_index
              (status_for (mismatches energy_correct results))
              (mismatches energy_correct results)
            ∷ old_tasks
        → Recorded w

  abbrev pub NothingRecorded : World → Type 0
  NothingRecorded w = w.task_rows ≡ old_tasks

  abbrev pub Clean : World → Type 0
  Clean w = (w.task_rows ≡ old_tasks) × (w.repetition_rows ≡ old_repetitions)

  abbrev Timed : ℤ → World → Type 0
  Timed n w = Clean w × In (timing n) w.sent

  abbrev pub Stopped : World → Type 0
  Stopped w = NothingRecorded w ⊎ Recorded w

  pub Clean-IsCalm : IsCalm Clean
  Clean-IsCalm =
      files-IsCalm λ sent tasks repetitions. (tasks ≡ old_tasks) × (repetitions ≡ old_repetitions)

  NothingRecorded-IsCalm : IsCalm NothingRecorded
  NothingRecorded-IsCalm = files-IsCalm λ sent tasks repetitions. tasks ≡ old_tasks

  Timed-IsCalm : (n : ℤ) → IsCalm (Timed n)
  Timed-IsCalm n = files-IsCalm λ sent tasks repetitions.
      ((tasks ≡ old_tasks) × (repetitions ≡ old_repetitions)) × In (timing n) sent

  -- The rows and the commands are all that `Recorded` looks at.
  record_again :
      {w v : World}
      → w.sent ≡ v.sent
      → w.task_rows ≡ v.task_rows
      → w.repetition_rows ≡ v.repetition_rows
      → Recorded w
      → Recorded v
  record_again s t r (skipped a b) = skipped (sym t ∙ a) (sym r ∙ b)
  record_again s t r (measured results e a b c) =
      measured results e (subst (In _) s a) (sym r ∙ b) (sym t ∙ c)

  Recorded-IsCalm : IsCalm Recorded
  Recorded-IsCalm = record {
    outcomes = λ w o. record_again refl refl refl;
    reads = λ w r. record_again refl refl refl;
    telemetry = λ w t. record_again refl refl refl;
    meters = λ w ms. record_again refl refl refl;
    started = λ w. record_again refl refl refl;
    stopped = λ w. record_again refl refl refl;
  }

  pub Stopped-IsCalm : IsCalm Stopped
  Stopped-IsCalm = either-IsCalm NothingRecorded-IsCalm Recorded-IsCalm

  -- While the results come in, there is a row for each, and the tally is theirs.
  abbrev Collecting : ℤ → Option Bool → Tally → World → Type 0
  Collecting n energy_correct t w =
      (results : List Bool) × (t ≡ tally_of energy_correct results)
      × (w.task_rows ≡ old_tasks)
      × (w.repetition_rows
          ≡ map (repetition_row ops config task sequence_index) results ++ old_repetitions)
      × In (timing n) w.sent

  Collecting-IsCalm :
      (n : ℤ) (energy_correct : Option Bool) (t : Tally) → IsCalm (Collecting n energy_correct t)
  Collecting-IsCalm n energy_correct t = files-IsCalm λ sent tasks repetitions.
      (results : List Bool) × (t ≡ tally_of energy_correct results)
      × (tasks ≡ old_tasks)
      × (repetitions
          ≡ map (repetition_row ops config task sequence_index) results ++ old_repetitions)
      × In (timing n) sent

  counts :
      (n : ℤ) (energy_correct : Option Bool) (b : Bool) (t : Tally) (w : World)
      → Collecting n energy_correct t w
      → Collecting n energy_correct (count_result ops config task sequence_index b t) (record w {
        repetition_rows = repetition_row ops config task sequence_index b ∷ w.repetition_rows;
      })
  counts n energy_correct b t w (results, same, rows, repetitions, sent) = (
    b ∷ results,
    ap (count_result ops config task sequence_index b) same
        ∙ count_result-tally_of ops config task sequence_index energy_correct b results,
    rows,
    ap (λ rs. repetition_row ops config task sequence_index b ∷ rs) repetitions,
    sent,
  )

  sent_before :
      (n : ℤ) (command : Command) (w : World)
      → Timed n w
      → Timed n (record w { sent = command ∷ w.sent })
  sent_before n command w (clean, sent) = (clean, inr sent)

  unwritten :
      (n : ℤ) (energy_correct : Option Bool) (t : Tally) (w : World)
      → Collecting n energy_correct t w
      → Stopped w
  unwritten n energy_correct t w (results, same, rows, repetitions, sent) = inl rows

  module _ (dataset : DatasetArtifact) where
    dump_stage-Runs :
        (n : ℤ) (energy_correct : Option Bool)
        → Runs
            (dump_stage ops config task sequence_index dataset energy_correct)
            (Timed n)
            (Collecting n energy_correct)
            (λ _. Stopped)
    unfolding dump_stage
    dump_stage-Runs n energy_correct =
        bind
          (weaken (λ w h. h) (λ a w h. start_collecting w h) (λ kind w h. inl h.0.0)
            (send_command-Runs dump (Timed-IsCalm n) (sent_before n dump)))
          λ _.
            collect-Runs {I = Collecting n energy_correct} ops config task sequence_index dataset
              (Collecting-IsCalm n energy_correct) (unwritten n energy_correct)
              (counts n energy_correct) (first_tally ops config task sequence_index energy_correct)
      where
        start_collecting :
            (w : World)
            → Timed n w
            → Collecting n energy_correct
                (first_tally ops config task sequence_index energy_correct)
                w
        start_collecting w ((tasks, repetitions), sent) = (
          [],
          first_tally-tally_of ops config task sequence_index energy_correct,
          tasks,
          repetitions,
          sent,
        )

  -- The last step: the rows are complete once the count of results was found right.
  abbrev Counted : ℤ → Option Bool → Tally → World → Type 0
  Counted n energy_correct t w =
      (pos t.repetitions_seen == n ≡ true) × Collecting n energy_correct t w

  Counted-IsCalm :
      (n : ℤ) (energy_correct : Option Bool) (t : Tally) → IsCalm (Counted n energy_correct t)
  Counted-IsCalm n energy_correct t = record {
    outcomes = λ w o h. (h.0, calm.outcomes w o h.1);
    reads = λ w r h. (h.0, calm.reads w r h.1);
    telemetry = λ w ts h. (h.0, calm.telemetry w ts h.1);
    meters = λ w ms h. (h.0, calm.meters w ms h.1);
    started = λ w h. (h.0, calm.started w h.1);
    stopped = λ w h. (h.0, calm.stopped w h.1);
  }
    where
      calm : IsCalm (Collecting n energy_correct t)
      calm = Collecting-IsCalm n energy_correct t

  complete :
      (n : ℤ) (energy_correct : Option Bool) (t : Tally) (w : World)
      → Counted n energy_correct t w
      → Recorded (record w {
        task_rows =
            task_row ops config task sequence_index
              (final_status ops config task sequence_index t)
              t.numerical_mismatches
            ∷ w.task_rows;
      })
  complete n energy_correct t w (right, (results, same, tasks, repetitions, sent)) =
      measured results energy_correct
        (subst (λ k. In (timing k) w.sent) (sym ((ℤ_eq.test_iff (pos (length results)) n).0 seen))
          sent)
        repetitions
        (rw same (
          ap₂
            (λ status rest.
              task_row ops config task sequence_index status (mismatches energy_correct results)
              ∷ rest)
            (final_status-tally_of ops config task sequence_index energy_correct results) tasks))
    where
      seen : pos (length results) == n ≡ true
      seen = ap (λ u. pos u.repetitions_seen == n) (sym same) ∙ right

  append_batch-Keeps :
      (n : ℤ) (energy_correct : Option Bool) (t : Tally) (key : String)
      → Keeps (Counted n energy_correct t) (append_energy_batch key)
  unfolding append_energy_batch
  append_batch-Keeps n energy_correct t key = record { run = λ w h. h }

  append_task-Runs :
      {I J : World → Type 0} (row : TaskRow)
      → ((w : World) → I w → J (record w { task_rows = row ∷ w.task_rows }))
      → Runs (append_task row) I (λ _. J) (λ _. Stopped)
  unfolding append_task
  append_task-Runs row h = record { run = h }

  finish-Runs :
      (n : ℤ) (energy_correct : Option Bool) (t : Tally)
      → Runs
          (finish ops config task sequence_index n t)
          (Collecting n energy_correct t)
          (λ _. Recorded)
          (λ _. Stopped)
  unfolding finish
  finish-Runs n energy_correct t =
      bind (checks (pos t.repetitions_seen == n) protocol_error (unwritten n energy_correct t)) λ _.
        bind
          (still (
            when-Keeps counted (energy_enabled ops config task sequence_index)
              (append_batch-Keeps n energy_correct t task.task_key)))
          λ _.
            bind
              (still (capture_telemetry-Keeps counted ops config task sequence_index "post_task"))
              λ _. append_task-Runs _ (complete n energy_correct t)
    where
      counted : IsCalm (Counted n energy_correct t)
      counted = Counted-IsCalm n energy_correct t

      still :
          {m : M (Unit {0})}
          → Keeps (Counted n energy_correct t) m
          → Runs m (Counted n energy_correct t) (λ _. Counted n energy_correct t) (λ _. Stopped)
      still = weaken (λ w h. h) (λ a w h. h) (λ kind w h. unwritten n energy_correct t w h.1)

  Timed-first :
      (n : ℤ) (w : World) → Clean w ⊎ Clean w → Timed n (record w { sent = timing n ∷ w.sent })
  Timed-first n w (inl h) = (h, inl refl)
  Timed-first n w (inr h) = (h, inl refl)

  same-Timed : (n : ℤ) (w : World) → Timed n w ⊎ Timed n w → Timed n w
  same-Timed n w (inl h) = h
  same-Timed n w (inr h) = h

  module _ (dataset : DatasetArtifact) where
    abbrev phases : Phases ops config task sequence_index dataset
    phases = record {
      fresh = Clean;
      probed = Clean;
      timed = Timed;
      measured = Timed;
      finished = Recorded;
      stopped = Stopped;
      fresh_calm = Clean-IsCalm;
      probed_calm = Clean-IsCalm;
      timed_calm = Timed-IsCalm;
      measured_calm = Timed-IsCalm;
      finished_calm = Recorded-IsCalm;
      stopped_calm = Stopped-IsCalm;
      fresh_stops = λ w h. inl h.0;
      probed_stops = λ w h. inl h.0;
      timed_stops = λ n w h. inl h.0.0;
      measured_stops = λ n w h. inl h.0.0;
      finished_stops = λ w h. inr h;
      probes = λ n w h. h;
      times = Timed-first;
      measures = λ n k. sent_before n (energy k);
      skips =
          bind
            (append_task-Runs {J = Recorded} _ (λ w h.
              skipped (ap (λ rest. task_row ops config task sequence_index "skipped" 0 ∷ rest) h.0)
                h.1))
            λ _.
              weaken (λ w h. h) (λ a w h. h) (λ kind w h. inr h) (external-Keeps Recorded-IsCalm);
      closes = λ n energy_correct.
          weaken (same-Timed n) (λ a w h. h) (λ kind w h. h)
            (bind (dump_stage-Runs dataset n energy_correct) (finish-Runs n energy_correct));
    }

    pub run_worker-Recorded :
        (w : World)
        → w.task_rows ≡ old_tasks
        → w.repetition_rows ≡ old_repetitions
        → Post (λ _. Recorded) (λ _. Stopped) (run_worker ops config task sequence_index dataset w)
    run_worker-Recorded w tasks repetitions =
        (run_worker-Runs ops config task sequence_index dataset phases).run w (tasks, repetitions)

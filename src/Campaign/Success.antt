-- ===== src/Campaign/Success.antt =====
-- What an exit code of 0 of `cmd_run` of prbench/cli.py says of tasks.jsonl.
use parallel_reduction_bench.Prelude.{
  ℕ, ◌+◌, ◌≡◌, refl, sym, ap, ◌∙◌, subst, ◌⊎◌, inl, inr, Bool, true, false, ◌||◌, Bool-cases, ℕ_eq,
  eqb, String_eq, List, [], ◌∷◌, filter, filter-cons_true, filter-cons_false, length, any,
  if◌then◌else◌, arith,
}
use parallel_reduction_bench.Prelude.Result.{Result, ok, raise, keyboard_interrupt}
use parallel_reduction_bench.Models.{RootConfig, SystemTopologyModel}
use parallel_reduction_bench.Sweep.Plan.{TaskSpec}
use parallel_reduction_bench.Runner.Session.{World, TaskRow}
use parallel_reduction_bench.Runner.Session.Keeps.{Post}
use parallel_reduction_bench.Runner.Worker.{FloatOps, task_row}
use parallel_reduction_bench.Runner.Worker.Rows.{Recorded}
use parallel_reduction_bench.Runner.Worker.Tallies.{mismatches, status_for}
use parallel_reduction_bench.Runner.Budgets.{TaskOps}
use parallel_reduction_bench.Runner.Task.Ended.{Returned, Raised, run_task-Ended}
use parallel_reduction_bench.Store.{is_problem, task_problem_rows, task_status_counts, snoc}
use parallel_reduction_bench.Store.Grouped.{get-problem_rows, length-filter-cons}
use parallel_reduction_bench.Campaign.{
  Answers, begin, LoopEnd, finished, interrupted, crashed, after_task, file_order, has_problems,
  conclude, exit_code, run_tasks, run_campaign,
}

-- One row for each task, in the same order, that says "ok" or "skipped".
pub data Complete : List TaskSpec → List TaskRow → Type 0 where
  nothing : Complete [] []
  adds :
      {tasks : List TaskSpec} {rows : List TaskRow} {task : TaskSpec} {row : TaskRow}
      → Complete tasks rows
      → row.task_instance_id ≡ task.task_instance_id
      → (row.status ≡ "ok") ⊎ (row.status ≡ "skipped")
      → Complete (task ∷ tasks) (row ∷ rows)

-- The tasks of a plan on top of those before, newest first.
abbrev pub onto : List TaskSpec → List (TaskSpec × Answers) → List TaskSpec
onto before [] = before
onto before ((task, answers) ∷ tasks) = onto (task ∷ before) tasks

-- Unless some row is a problem, the rows are complete.
abbrev Covers : List TaskSpec → List TaskRow → Type 0
Covers tasks rows = (any is_problem rows ≡ true) ⊎ Complete tasks rows

any_cons :
    (row : TaskRow) (rows : List TaskRow)
    → any is_problem rows ≡ true
    → any is_problem (row ∷ rows) ≡ true
unfolding any
any_cons row rows h = elim (Bool-cases (is_problem row)) [ inl e ↦ rw e refl | inr e ↦ rw e h ]

any_first :
    (row : TaskRow) (rows : List TaskRow)
    → is_problem row ≡ true
    → any is_problem (row ∷ rows) ≡ true
unfolding any
any_first row rows h = rw h refl

module _ (ops : FloatOps) (config : RootConfig) (task : TaskSpec) (index : ℕ) where
  measured_status :
      (n : ℕ) {tasks : List TaskSpec} {rows : List TaskRow}
      → Covers tasks rows
      → Covers (task ∷ tasks) (task_row ops config task index (status_for n) n ∷ rows)
  measured_status n (inl h) = inl (any_cons _ _ h)
  measured_status n (inr c) = elim (Bool-cases (eqb n 0)) [
    | inl e ↦ rw e (inr (adds c refl (inl refl)))
    | inr e ↦ rw e (inl (any_first _ _ refl))
  ]

  Covers-Recorded :
      {tasks : List TaskSpec} (before : World) {w : World}
      → Covers tasks before.task_rows
      → Recorded ops config task index before.task_rows before.repetition_rows w
      → Covers (task ∷ tasks) w.task_rows
  Covers-Recorded before (inl h) (Recorded.skipped rows repetitions) =
      inl (ap (any is_problem) rows ∙ any_cons _ _ h)
  Covers-Recorded {tasks} before (inr c) (Recorded.skipped rows repetitions) =
      inr (subst (Complete (task ∷ tasks)) (sym rows) (adds c refl (inr refl)))
  Covers-Recorded {tasks} before c (Recorded.measured results e sent repetitions rows) =
      subst (Covers (task ∷ tasks)) (sym rows) (measured_status (mismatches e results) c)

-- What the loop's end says of the rows.
abbrev Reached : List TaskSpec → LoopEnd × World → Type 0
Reached tasks (finished, w) = Covers tasks w.task_rows
Reached tasks (_, w) = Unit

module _ (task_ops : TaskOps) (ops : FloatOps) (config : RootConfig)
    (topology : SystemTopologyModel) where
  Covers-Returned :
      (task : TaskSpec) (index : ℕ) (tasks : List TaskSpec) (before w : World)
      → Covers tasks before.task_rows
      → Returned task_ops ops config topology task index before.task_rows before.repetition_rows w
      → Covers (task ∷ tasks) w.task_rows
  Covers-Returned task index tasks before w c (inl h) =
      Covers-Recorded ops config task index before c h
  Covers-Returned task index tasks before w c (inr h) =
      inl (ap (any is_problem) h.added ∙ any_first _ _ refl)

  after_task-Reached :
      (task : TaskSpec) (index : ℕ) (tasks after : List TaskSpec) (before : World)
      (r : Result (Unit {0}) × World) (next : World → LoopEnd × World)
      → Covers tasks before.task_rows
      → Post
          (λ _.
            Returned task_ops ops config topology task index before.task_rows
              before.repetition_rows)
          (Raised task_ops ops config topology task index before.task_rows before.repetition_rows)
          r
      → ((w : World) → Covers (task ∷ tasks) w.task_rows → Reached after (next w))
      → Reached after (after_task r next)
  after_task-Reached task index tasks after before (ok _, w) next c h k =
      k w (Covers-Returned task index tasks before w c h)
  after_task-Reached task index tasks after before (raise keyboard_interrupt, w) next c h k = tt
  after_task-Reached task index tasks after before (raise kind, w) next c h k = tt

  run_tasks-Reached :
      (tasks : List (TaskSpec × Answers)) (index : ℕ) (before : List TaskSpec) (w : World)
      → Covers before w.task_rows
      → Reached (onto before tasks) (run_tasks task_ops ops config topology tasks index w)
  unfolding run_tasks
  run_tasks-Reached [] index before w c = c
  run_tasks-Reached ((task, answers) ∷ tasks) index before w c =
      after_task-Reached task index before (onto (task ∷ before) tasks) (begin answers w) _ _ c
        (run_task-Ended task_ops ops config topology task index w.task_rows w.repetition_rows
          (begin answers w) refl refl)
        (λ v. run_tasks-Reached tasks (index + 1) (task ∷ before) v)

length-filter-snoc :
    {A : Type 0} (p : A → Bool) (x : A) (xs : List A)
    → length (filter p (snoc x xs)) ≡ length (filter p (x ∷ xs))
length-filter-snoc p x [] = refl
length-filter-snoc p x (y ∷ ys) = omega (
  arith,
  length-filter-snoc p x ys,
  length-filter-cons p y (snoc x ys),
  length-filter-cons p x ys,
  length-filter-cons p x (y ∷ ys),
  length-filter-cons p y ys,
)

length-filter-file_order :
    {A : Type 0} (p : A → Bool) (xs : List A)
    → length (filter p (file_order xs)) ≡ length (filter p xs)
unfolding filter
length-filter-file_order p [] = refl
length-filter-file_order p (x ∷ xs) = omega (
  arith,
  length-filter-file_order p xs,
  length-filter-snoc p x (file_order xs),
  length-filter-cons p x (file_order xs),
  length-filter-cons p x xs,
)

-- Without problem rows there is none in the list.
any_false :
    (rows : List TaskRow) → length (task_problem_rows rows) ≡ 0 → any is_problem rows ≡ true → ⊥
unfolding any filter
any_false [] none h = cc
any_false (row ∷ rows) none h = elim (Bool-cases (is_problem row)) [
  | inl e ↦ absurd (omega (arith, ap length (sym (filter-cons_true is_problem row rows e)) ∙ none))
  | inr e ↦
      any_false rows (ap length (sym (filter-cons_false is_problem row rows e)) ∙ none)
        (sym (ap (λ b. b || any is_problem rows) e) ∙ h)
]

no_problems :
    (rows : List TaskRow)
    → has_problems (task_status_counts (file_order rows)) ≡ false
    → length (task_problem_rows rows) ≡ 0
no_problems rows h =
    ground (arith, get-problem_rows (file_order rows), length-filter-file_order is_problem rows)

-- The two ends of a loop that went through have different exit codes.
no_error_code :
    (b : Bool)
    → exit_code (ok (if b then (3, "completed_with_errors") else (0, "completed"))) ≡ 0
    → b ≡ false
no_error_code true h = absurd (omega (arith, h))
no_error_code false h = refl

conclude-Complete :
    (tasks : List TaskSpec) (end : LoopEnd × World)
    → Reached tasks end
    → exit_code (conclude end).0 ≡ 0
    → Complete tasks (conclude end).1.task_rows
conclude-Complete tasks (finished, v) (inl problem) h = absurd (
    any_false v.task_rows
      (no_problems v.task_rows
        (no_error_code (has_problems (task_status_counts (file_order v.task_rows))) h))
      problem)
conclude-Complete tasks (finished, v) (inr complete) h = complete
conclude-Complete tasks (interrupted, v) reached h = absurd (omega (arith, h))
conclude-Complete tasks (crashed kind, v) reached h = absurd (omega (arith, h))

-- A campaign over empty files that exits with code 0 has run every planned task to its end: tasks.jsonl
-- holds exactly one row for each, in the plan's order, and each says "ok" or "skipped".
pub run_campaign-Complete :
    (task_ops : TaskOps) (ops : FloatOps) (config : RootConfig) (topology : SystemTopologyModel)
    (tasks : List (TaskSpec × Answers)) (w : World)
    → w.task_rows ≡ []
    → exit_code (run_campaign task_ops ops config topology tasks w).0 ≡ 0
    → Complete (onto [] tasks) (run_campaign task_ops ops config topology tasks w).1.task_rows
unfolding run_campaign
run_campaign-Complete task_ops ops config topology tasks w empty success =
    conclude-Complete (onto [] tasks) (run_tasks task_ops ops config topology tasks 1 w)
      (run_tasks-Reached task_ops ops config topology tasks 1 [] w
        (inr (subst (Complete []) (sym empty) nothing)))
      success

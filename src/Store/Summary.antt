-- ===== src/Store/Summary.antt =====
-- `write_summary` and `_summary_row` of prbench/results.py: the rows of summary.csv and of block_summary.csv, with
-- the entries that count rows. Their statistics are floats.
use parallel_reduction_bench.Prelude.{
  ℕ, Bool, Option, none, some, String, String_eq, pair_eq, List, [], ◌∷◌, map, length, filter,
  is_empty, dedupe, sort, ◌==◌, if◌then◌else◌,
}
use parallel_reduction_bench.Prelude.Int.{ℤ, ℤ_eq}
use parallel_reduction_bench.Prelude.Text.{le_text}
use parallel_reduction_bench.Runner.Session.{TaskRow, RepetitionRow}
use parallel_reduction_bench.Store.{get, group_by, is_valid_repetition, is_valid_task}

-- A row of the energy file, as far as it is read here.
pub record EnergyBatch : Type 0 where
  pub task_key : String
  pub block_index : ℤ
  pub status : String
  pub energy_coverage : String

abbrev pub is_valid_batch : EnergyBatch → Bool
is_valid_batch row = row.status == "ok"

-- what the rows of block_summary.csv are grouped by
abbrev pub repetition_block : RepetitionRow → String × ℤ
repetition_block row = (row.task_key, row.block_index)

abbrev pub energy_block : EnergyBatch → String × ℤ
energy_block row = (row.task_key, row.block_index)

abbrev pub task_block : TaskRow → String × ℤ
task_block row = (row.task_key, row.block_index)

-- `energy_coverage` is the texts between semicolons; `task_instances` is left out without a task.
pub record SummaryRow : Type 0 where
  pub task_key : String
  pub block_index : Option ℤ
  pub samples : ℕ
  pub correct : ℕ
  pub task_instances : Option ℕ
  pub energy_batches : ℕ
  pub energy_coverage : List String

abbrev pub coverages : List EnergyBatch → List String
coverages energies =
    if is_empty energies
    then "none" ∷ []
    else sort le_text (dedupe (map (λ e. e.energy_coverage) energies))

-- `correct_fraction` is `correct` by `samples`.
unfoldable pub summary_row :
    String → Option ℤ → List RepetitionRow → List EnergyBatch → List TaskRow → SummaryRow
summary_row key block rows energies tasks = record {
  task_key = key;
  block_index = block;
  samples = length rows;
  correct = length (filter (λ r. r.is_correct) rows);
  task_instances = if is_empty tasks then none else some (length tasks);
  energy_batches = length energies;
  energy_coverage = coverages energies;
}

module _ (repetitions : List RepetitionRow) (energy_batches : List EnergyBatch)
    (tasks : List TaskRow) where
  abbrev pub valid_repetitions : List RepetitionRow
  valid_repetitions = filter is_valid_repetition repetitions

  abbrev pub valid_energy : List EnergyBatch
  valid_energy = filter is_valid_batch energy_batches

  abbrev pub valid_tasks : List TaskRow
  valid_tasks = filter is_valid_task tasks

  -- the rows of summary.csv
  unfoldable pub summary : List SummaryRow
  summary =
      map
        (λ group.
          summary_row group.0 none group.1
            (get [] group.0 (group_by (λ e. e.task_key) valid_energy))
            (get [] group.0 (group_by (λ t. t.task_key) valid_tasks)))
        (group_by (λ r. r.task_key) valid_repetitions)

  -- the rows of block_summary.csv
  unfoldable pub block_summary : List SummaryRow
  block_summary =
      map
        (λ group.
          summary_row group.0.0 (some group.0.1) group.1
            (get [] group.0 (group_by energy_block valid_energy))
            (get [] group.0 (group_by task_block valid_tasks)))
        (group_by repetition_block valid_repetitions)

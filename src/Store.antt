-- ===== src/Store.antt =====
-- `ResultsStore` of prbench/results.py: what it computes from the rows of its files, in the files' order.
pub mod Grouped
pub mod Summary
pub mod Counted
use parallel_reduction_bench.Prelude.{
  ℕ, ◌+◌, Bool, true, false, ◌||◌, String, String_eq, List, [], ◌∷◌, map, filter, Eq, ◌==◌,
  if◌then◌else◌,
}
use parallel_reduction_bench.Runner.Session.{TaskRow, RepetitionRow}

-- A dict from keys to what belongs to them, in the order in which the keys came.
module _ {K V : Type 0} ⦃e : Eq K⦄ where
  -- `d.get(key, default)`
  unfoldable pub get : V → K → List (K × V) → V
  get default key [] = default
  get default key ((k, v) ∷ rest) =
      let found = get default key rest in if k == key then v else found

  -- `d[key] = change(d.get(key, default))`
  unfoldable pub update : (V → V) → V → K → List (K × V) → List (K × V)
  update change default key [] = (key, change default) ∷ []
  update change default key ((k, v) ∷ rest) =
      let updated = update change default key rest in
      if k == key then (k, change v) ∷ rest else (k, v) ∷ updated

abbrev pub snoc : {A : Type 0} → A → List A → List A
snoc a [] = a ∷ []
snoc a (x ∷ xs) = x ∷ snoc a xs

module _ {K R : Type 0} ⦃e : Eq K⦄ (key : R → K) where
  -- `for row in rows: d[key(row)].append(row)`, on a `defaultdict(list)`
  unfoldable pub group_into : List (K × List R) → List R → List (K × List R)
  group_into groups [] = groups
  group_into groups (row ∷ rows) = group_into (update (snoc row) [] (key row) groups) rows

  abbrev pub group_by : List R → List (K × List R)
  group_by rows = group_into [] rows

-- `task_status_counts`
unfoldable pub count_into : List (String × ℕ) → List TaskRow → List (String × ℕ)
count_into counts [] = counts
count_into counts (row ∷ rows) = count_into (update (λ n. n + 1) 0 row.status counts) rows

abbrev pub task_status_counts : List TaskRow → List (String × ℕ)
task_status_counts rows = count_into [] rows

abbrev pub is_problem : TaskRow → Bool
is_problem row = row.status == "failed" || row.status == "invalid"

abbrev pub task_problem_rows : List TaskRow → List TaskRow
task_problem_rows rows = filter is_problem rows

abbrev pub is_valid_repetition : RepetitionRow → Bool
is_valid_repetition row = row.status == "ok"

abbrev pub is_valid_task : TaskRow → Bool
is_valid_task row = row.status == "ok" || row.status == "invalid"

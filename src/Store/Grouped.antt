-- ===== src/Store/Grouped.antt =====
-- What the groups and the counts of prbench/results.py contain.
use parallel_reduction_bench.Prelude.{
  ℕ, ◌+◌, ◌≡◌, refl, sym, ap, ◌∙◌, Bool, true, false, Bool-cases, inl, inr, String, String_eq, List,
  [], ◌∷◌, ◌++◌, filter, length, Eq, ◌==◌, filter-cons_true, filter-cons_false, arith,
}
use mathlib.Core.List.{append-nil}
use parallel_reduction_bench.Runner.Session.{TaskRow}
use parallel_reduction_bench.Store.{
  get, update, snoc, group_into, group_by, count_into, task_status_counts, is_problem,
  task_problem_rows,
}

module _ {K V : Type 0} ⦃e : Eq K⦄ (change : V → V) (default : V) where
  pub get-update_same :
      (key : K) (d : List (K × V))
      → get default key (update change default key d) ≡ change (get default key d)
  unfolding get update
  get-update_same key [] = rw ((e.test_iff key key).1 refl) refl
  get-update_same key ((k, v) ∷ d) = elim (Bool-cases (k == key)) [
    | inl h ↦ rw h (rw h refl)
    | inr h ↦ rw h (rw h (get-update_same key d))
  ]

  pub get-update_other :
      (key other : K) (d : List (K × V))
      → key == other ≡ false
      → get default other (update change default key d) ≡ get default other d
  unfolding get update
  get-update_other key other [] h = rw h refl
  get-update_other key other ((k, v) ∷ d) h = elim (Bool-cases (k == key)) [
    | inl found ↦ rw found (rw (ap (λ x. x == other) ((e.test_iff k key).0 found) ∙ h) refl)
    | inr absent ↦ rw absent (rw (get-update_other key other d h) refl)
  ]

snoc-append : {A : Type 0} (a : A) (xs ys : List A) → snoc a xs ++ ys ≡ xs ++ (a ∷ ys)
snoc-append a [] ys = refl
snoc-append a (x ∷ xs) ys = ap (λ rest. x ∷ rest) (snoc-append a xs ys)

module _ {K R : Type 0} ⦃e : Eq K⦄ (key : R → K) (k : K) where
  get-group_into :
      (rows : List R) (groups : List (K × List R))
      → get [] k (group_into key groups rows) ≡ get [] k groups ++ filter (λ row. key row == k) rows
  unfolding group_into filter
  get-group_into [] groups = sym (append-nil (get [] k groups))
  get-group_into (row ∷ rows) groups = elim (Bool-cases (key row == k)) [
    | inl h ↦
        get-group_into rows (update (snoc row) [] (key row) groups)
        ∙ ap (λ found. found ++ filter (λ r. key r == k) rows) (same h)
        ∙ snoc-append row (get [] k groups) (filter (λ r. key r == k) rows)
        ∙ ap (λ rest. get [] k groups ++ rest) (sym (filter-cons_true (λ r. key r == k) row rows h))
    | inr h ↦
        get-group_into rows (update (snoc row) [] (key row) groups)
        ∙ ap (λ found. found ++ filter (λ r. key r == k) rows)
            (get-update_other (snoc row) [] (key row) k groups h)
        ∙ ap (λ rest. get [] k groups ++ rest)
            (sym (filter-cons_false (λ r. key r == k) row rows h))
  ]
    where
      same :
          key row == k ≡ true
          → get [] k (update (snoc row) [] (key row) groups) ≡ snoc row (get [] k groups)
      same h =
          ap (λ x. get [] k (update (snoc row) [] x groups)) ((e.test_iff (key row) k).0 h)
          ∙ get-update_same (snoc row) [] k groups

  -- The rows under a key are the rows with that key, in their order.
  pub get-group_by :
      (rows : List R) → get [] k (group_by key rows) ≡ filter (λ row. key row == k) rows
  unfolding get
  get-group_by rows = get-group_into rows []

-- One more row of the status, or of another one.
bumped :
    (status : String) (row : TaskRow) (counts : List (String × ℕ))
    → get 0 status (update (λ n. n + 1) 0 row.status counts)
      ≡ get 0 status counts + length (filter (λ r. r.status == status) (row ∷ []))
unfolding filter
bumped status row counts = elim (Bool-cases (row.status == status)) [
  | inl h ↦
      ap (λ x. get 0 status (update (λ n. n + 1) 0 x counts))
        ((String_eq.test_iff row.status status).0 h)
      ∙ get-update_same (λ n. n + 1) 0 status counts
      ∙ rw h refl
  | inr h ↦ get-update_other (λ n. n + 1) 0 row.status status counts h ∙ rw h (omega arith)
]

pub length-filter-cons :
    {A : Type 0} (p : A → Bool) (x : A) (xs : List A)
    → length (filter p (x ∷ xs)) ≡ length (filter p (x ∷ [])) + length (filter p xs)
unfolding filter
length-filter-cons p x xs = elim (Bool-cases (p x)) [
  | inl h ↦ rw h (omega arith)
  | inr h ↦ rw h (omega arith)
]

status_count_into :
    (status : String) (rows : List TaskRow) (counts : List (String × ℕ))
    → get 0 status (count_into counts rows)
      ≡ get 0 status counts + length (filter (λ row. row.status == status) rows)
unfolding count_into filter
status_count_into status [] counts = omega arith
status_count_into status (row ∷ rows) counts = omega (
  arith,
  status_count_into status rows (update (λ n. n + 1) 0 row.status counts),
  bumped status row counts,
  length-filter-cons (λ r. r.status == status) row rows,
)

-- The count of a status is the number of rows that have it.
pub get-task_status_counts :
    (status : String) (rows : List TaskRow)
    → get 0 status (task_status_counts rows) ≡ length (filter (λ row. row.status == status) rows)
unfolding get
get-task_status_counts status rows = omega (arith, status_count_into status rows [])

-- No row has both statuses of a problem.
one_problem :
    (row : TaskRow)
    → length (filter is_problem (row ∷ []))
      ≡ length (filter (λ r. r.status == "failed") (row ∷ []))
        + length (filter (λ r. r.status == "invalid") (row ∷ []))
unfolding filter
one_problem row = elim (Bool-cases (row.status == "failed")) [
  | inl failed ↦ rw failed (
      rw (ap (λ s. s == "invalid") ((String_eq.test_iff row.status "failed").0 failed))
        (omega arith))
  | inr other ↦ rw other (omega arith)
]

problem_count :
    (rows : List TaskRow)
    → length (task_problem_rows rows)
      ≡ length (filter (λ r. r.status == "failed") rows)
        + length (filter (λ r. r.status == "invalid") rows)
unfolding filter
problem_count [] = omega arith
problem_count (row ∷ rows) = omega (
  arith,
  problem_count rows,
  one_problem row,
  length-filter-cons is_problem row rows,
  length-filter-cons (λ r. r.status == "failed") row rows,
  length-filter-cons (λ r. r.status == "invalid") row rows,
)

-- The counts of the failed and the invalid tasks make up the number of the problem rows.
pub get-problem_rows :
    (rows : List TaskRow)
    → get 0 "failed" (task_status_counts rows) + get 0 "invalid" (task_status_counts rows)
      ≡ length (task_problem_rows rows)
get-problem_rows rows = omega (
  arith,
  problem_count rows,
  get-task_status_counts "failed" rows,
  get-task_status_counts "invalid" rows,
)

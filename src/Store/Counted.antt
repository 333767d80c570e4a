-- ===== src/Store/Counted.antt =====
-- What the rows of block_summary.csv of prbench/results.py count.
use parallel_reduction_bench.Prelude.{
  ℕ, ◌+◌, ◌≡◌, refl, sym, ap, subst, ◌∙◌, inl, inr, false, Bool-cases, some, String, String_eq,
  pair_eq, List, [], ◌∷◌, map, length, filter, All, All-imp, All-map, All-self, In, In-map,
  IsDistinct, Eq, ◌==◌, arith,
}
use parallel_reduction_bench.Prelude.Int.{ℤ, ℤ_eq}
use parallel_reduction_bench.Runner.Session.{TaskRow, RepetitionRow}
use parallel_reduction_bench.Store.{get, update, snoc, group_into, group_by}
use parallel_reduction_bench.Store.Grouped.{get-group_by}
use parallel_reduction_bench.Store.Summary.{
  EnergyBatch, SummaryRow, repetition_block, energy_block, task_block, summary_row,
  valid_repetitions, valid_energy, valid_tasks, block_summary,
}

abbrev pub keys : {K V : Type 0} → List (K × V) → List K
keys d = map (λ entry. entry.0) d

module _ {K V : Type 0} ⦃e : Eq K⦄ (change : V → V) (default : V) (key : K) where
  update-absent :
      (x : K) (d : List (K × V))
      → ¬ In x (keys d)
      → ¬ (x ≡ key)
      → ¬ In x (keys (update change default key d))
  unfolding update
  update-absent x [] absent other (inl same) = other same
  update-absent x [] absent other (inr m) = m
  update-absent x ((k, v) ∷ d) absent other m = elim (Bool-cases (k == key)) [
    | inl found ↦ absent (rw found at m)
    | inr next ↦ elim (split next) [
      | inl same ↦ absent (inl same)
      | inr later ↦ update-absent x d (λ i. absent (inr i)) other later
    ]
  ]
    where
      split : k == key ≡ false → In x (k ∷ keys (update change default key d))
      split next = rw next at m

  pub update-IsDistinct :
      (d : List (K × V)) → IsDistinct (keys d) → IsDistinct (keys (update change default key d))
  unfolding update
  update-IsDistinct [] h = ((λ m. m), tt)
  update-IsDistinct ((k, v) ∷ d) h = elim (Bool-cases (k == key)) [
    | inl found ↦ rw found h
    | inr next ↦ rw next (
      update-absent k d h.0 (λ same. cc (next, (e.test_iff k key).1 same)),
      update-IsDistinct d h.1,
    )
  ]

module _ {K R : Type 0} ⦃e : Eq K⦄ where
  pub In-get_entry :
      (d : List (K × List R)) (k : K) (v : List R)
      → IsDistinct (keys d)
      → In (k, v) d
      → get [] k d ≡ v
  unfolding get
  In-get_entry [] k v h m = absurd m
  In-get_entry ((j, w) ∷ d) k v h (inl same) =
      rw ((e.test_iff j k).1 (ap (λ p. p.0) (sym same))) (ap (λ p. p.1) (sym same))
  In-get_entry ((j, w) ∷ d) k v h (inr m) = elim (Bool-cases (j == k)) [
    | inl found ↦ absurd (
        h.0 (
          subst (λ x. In x (keys d)) (sym ((e.test_iff j k).0 found))
            (In-map (λ entry. entry.0) (k, v) d m)))
    | inr next ↦ rw next (In-get_entry d k v h.1 m)
  ]

module _ {K R : Type 0} ⦃e : Eq K⦄ (key : R → K) where
  group_into-IsDistinct :
      (rows : List R) (groups : List (K × List R))
      → IsDistinct (keys groups)
      → IsDistinct (keys (group_into key groups rows))
  unfolding group_into
  group_into-IsDistinct [] groups h = h
  group_into-IsDistinct (row ∷ rows) groups h =
      group_into-IsDistinct rows (update (snoc row) [] (key row) groups)
        (update-IsDistinct (snoc row) [] (key row) groups h)

  -- Each group holds just the rows with its key.
  group_by-rows :
      (rows : List R)
      → All (λ group. group.1 ≡ filter (λ row. key row == group.0) rows) (group_by key rows)
  group_by-rows rows =
      All-imp (group_by key rows)
        (λ group m.
          sym
            (In-get_entry (group_by key rows) group.0 group.1 (group_into-IsDistinct rows [] tt) m)
          ∙ get-group_by key group.0 rows)
        (All-self (group_by key rows))

  abbrev total : List (K × List R) → ℕ
  total [] = 0
  total ((k, rows) ∷ groups) = length rows + total groups

  length-snoc : (row : R) (rows : List R) → length (snoc row rows) ≡ length rows + 1
  length-snoc row [] = omega arith
  length-snoc row (r ∷ rows) = omega (arith, length-snoc row rows)

  total-update :
      (k : K) (row : R) (groups : List (K × List R))
      → total (update (snoc row) [] k groups) ≡ total groups + 1
  unfolding update
  total-update k row [] = omega arith
  total-update k row ((j, rows) ∷ groups) = elim (Bool-cases (j == k)) [
    | inl found ↦ rw found (omega (arith, length-snoc row rows))
    | inr next ↦ rw next (omega (arith, total-update k row groups))
  ]

  total-group_into :
      (rows : List R) (groups : List (K × List R))
      → total (group_into key groups rows) ≡ total groups + length rows
  unfolding group_into
  total-group_into [] groups = omega arith
  total-group_into (row ∷ rows) groups = omega (
    arith,
    total-group_into rows (update (snoc row) [] (key row) groups),
    total-update (key row) row groups,
  )

module _ (repetitions : List RepetitionRow) (energy_batches : List EnergyBatch)
    (tasks : List TaskRow) where
  abbrev in_block : String × ℤ → List RepetitionRow
  in_block block =
      filter (λ r. repetition_block r == block) (valid_repetitions repetitions energy_batches tasks)

  -- The row counts the valid rows of its task and block.
  pub record IsBlockRow (row : SummaryRow) : Type 0 where
    pub block : ℤ
    pub is_block : row.block_index ≡ some block
    pub samples : row.samples ≡ length (in_block (row.task_key, block))
    pub correct : row.correct ≡ length (filter (λ r. r.is_correct) (in_block (row.task_key, block)))
    pub batches :
        row.energy_batches
        ≡ length (
            filter
              (λ e. energy_block e == (row.task_key, block))
              (valid_energy repetitions energy_batches tasks))

  abbrev pub total_samples : List SummaryRow → ℕ
  total_samples [] = 0
  total_samples (row ∷ rows) = row.samples + total_samples rows

  abbrev blocks : List ((String × ℤ) × List RepetitionRow)
  blocks = group_by repetition_block (valid_repetitions repetitions energy_batches tasks)

  abbrev row_of : (String × ℤ) × List RepetitionRow → SummaryRow
  row_of group =
      summary_row group.0.0 (some group.0.1) group.1
        (get [] group.0 (group_by energy_block (valid_energy repetitions energy_batches tasks)))
        (get [] group.0 (group_by task_block (valid_tasks repetitions energy_batches tasks)))

  row_of-IsBlockRow :
      (group : (String × ℤ) × List RepetitionRow)
      → group.1 ≡ in_block group.0
      → IsBlockRow (row_of group)
  unfolding summary_row
  row_of-IsBlockRow group same = record {
    block = group.0.1;
    is_block = refl;
    samples = ap length same;
    correct = ap (λ rows. length (filter (λ r. r.is_correct) rows)) same;
    batches =
        ap length
          (get-group_by energy_block group.0 (valid_energy repetitions energy_batches tasks));
  }

  total_samples-map :
      (groups : List ((String × ℤ) × List RepetitionRow))
      → total_samples (map row_of groups) ≡ total repetition_block groups
  unfolding summary_row
  total_samples-map [] = refl
  total_samples-map ((block, rows) ∷ groups) = ap (λ n. length rows + n) (total_samples-map groups)

  -- Each row of block_summary.csv is about one block of one task, and counts exactly the valid repetitions, the
  -- correct ones among them and the valid energy batches of that task and block. Each valid repetition is
  -- counted in one row: the samples of all rows make up the number of valid repetitions.
  pub block_summary-IsBlockRow :
      All IsBlockRow (block_summary repetitions energy_batches tasks)
      × (total_samples (block_summary repetitions energy_batches tasks)
          ≡ length (valid_repetitions repetitions energy_batches tasks))
  unfolding block_summary
  block_summary-IsBlockRow = (
    All-map IsBlockRow row_of blocks (
        All-imp blocks row_of-IsBlockRow
          (group_by-rows repetition_block (valid_repetitions repetitions energy_batches tasks))),
    omega (
      arith,
      total_samples-map blocks,
      total-group_into repetition_block (valid_repetitions repetitions energy_batches tasks) [],
    ),
  )

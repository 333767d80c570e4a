-- ===== src/Preflight/Keys.antt =====
-- What the groups by dataset of `_evaluate_preflight` of prbench/cli.py contain.
use parallel_reduction_bench.Prelude.{
  ℕ, ◌+◌, ◌≡◌, refl, sym, ap, subst, ◌∙◌, inl, inr, true, false, not, Bool-cases, String, String_eq,
  List, [], ◌∷◌, map, filter, contains, contains→In, All, All-imp, All-self, All-In, In,
  In-of_In-map, Eq, ◌==◌, arith,
}
use parallel_reduction_bench.Models.{DatasetSpec}
use parallel_reduction_bench.Capacity.{dataset_size_bytes}
use parallel_reduction_bench.Datasets.Cache.{CacheEntry}
use parallel_reduction_bench.Store.{get, update, snoc, group_into, group_by}
use parallel_reduction_bench.Sweep.Plan.{TaskSpec}
use parallel_reduction_bench.Preflight.{Builtins}
use parallel_reduction_bench.Preflight.Memory.{
  unique_into, unique_datasets, tasks_by_dataset, is_cached, missing_bytes, missing_storage_bytes,
}

module _ {K V : Type 0} ⦃e : Eq K⦄ (P : K → Type 0) (change : V → V) (default : V) where
  update-All :
      (key : K) (d : List (K × V))
      → P key
      → All (λ entry. P entry.0) d
      → All (λ entry. P entry.0) (update change default key d)
  unfolding update
  update-All key [] p h = (p, tt)
  update-All key ((k, v) ∷ d) p h = elim (Bool-cases (k == key)) [
    | inl found ↦ rw found h
    | inr next ↦ rw next (h.0, update-All key d p h.1)
  ]

module _ {K R : Type 0} ⦃e : Eq K⦄ (key : R → K) where
  group_into-All :
      (P : K → Type 0) (rows : List R) (groups : List (K × List R))
      → All (λ row. P (key row)) rows
      → All (λ entry. P entry.0) groups
      → All (λ entry. P entry.0) (group_into key groups rows)
  unfolding group_into
  group_into-All P [] groups p h = h
  group_into-All P (row ∷ rows) groups p h =
      group_into-All P rows (update (snoc row) [] (key row) groups) p.1
        (update-All P (snoc row) [] (key row) groups p.0 h)

  -- A key of the groups is the key of a row.
  pub In-keys :
      (k : K) (rows : List R)
      → contains (map (λ entry. entry.0) (group_by key rows)) k ≡ true
      → (row : R) × In row rows × (key row ≡ k)
  In-keys k rows h =
      let (entry, m, same) =
        In-of_In-map (λ entry. entry.0) k (group_by key rows)
          (contains→In (map (λ entry. entry.0) (group_by key rows)) k h) in
      let P : K → Type 0 = λ j. (row : R) × In row rows × (key row ≡ j) in
      let found : P entry.0 =
        All-In (λ entry. P entry.0) entry (group_by key rows)
          (group_into-All P rows [] (All-imp rows (λ row i. (row, i, refl)) (All-self rows)) tt)
          m in
      let (row, i, q) = found in (row, i, q ∙ sym same)

module _ {K R : Type 0} ⦃e : Eq K⦄ (k j : K) (v : List R) (d : List (K × List R)) where
  get_here : j == k ≡ true → get [] k ((j, v) ∷ d) ≡ v
  unfolding get
  get_here h = rw h refl

  get_later : j == k ≡ false → get [] k ((j, v) ∷ d) ≡ get [] k d
  unfolding get
  get_later h = rw h refl

module _ {K R : Type 0} ⦃e : Eq K⦄ where
  -- A key with rows has an entry.
  pub In-get :
      (k : K) (d : List (K × List R)) (row : R)
      → In row (get [] k d)
      → (v : List R) × In (k, v) d × (get [] k d ≡ v)
  unfolding get
  In-get k [] row m = absurd m
  In-get k ((j, v) ∷ d) row m = elim (Bool-cases (j == k)) [
    | inl found ↦
        (v, inl (ap (λ x. (x, v)) (sym ((e.test_iff j k).0 found))), get_here k j v d found)
    | inr next ↦
        let (w, i, q) = In-get k d row (subst (In row) (get_later k j v d next) m) in
        (w, inr i, get_later k j v d next ∙ q)
  ]

-- The entries of two dicts with the same keys, where a group begins with the kept dataset.
abbrev IsFirst : DatasetSpec → List TaskSpec → Type 0
IsFirst dataset [] = ⊥
IsFirst dataset (task ∷ tasks) = task.dataset ≡ dataset

abbrev Matches : List (String × List TaskSpec) → List (String × DatasetSpec) → Type 0
Matches [] [] = Unit
Matches [] (found ∷ rest) = ⊥
Matches (group ∷ groups) [] = ⊥
Matches ((key, related) ∷ groups) ((kept, dataset) ∷ rest) =
    (key ≡ kept) × IsFirst dataset related × Matches groups rest

IsFirst-snoc :
    (dataset : DatasetSpec) (task : TaskSpec) (related : List TaskSpec)
    → IsFirst dataset related
    → IsFirst dataset (snoc task related)
IsFirst-snoc dataset task [] h = absurd h
IsFirst-snoc dataset task (t ∷ related) h = h

update-Matches :
    (key : String) (task : TaskSpec) (groups : List (String × List TaskSpec))
    (found : List (String × DatasetSpec))
    → Matches groups found
    → Matches (update (snoc task) [] key groups) (update (λ kept. kept) task.dataset key found)
unfolding update
update-Matches key task [] [] h = (refl, refl, tt)
update-Matches key task [] (f ∷ found) h = absurd h
update-Matches key task (g ∷ groups) [] h = absurd h
update-Matches key task ((k, related) ∷ groups) ((j, dataset) ∷ found) h =
    elim (Bool-cases (k == key)) [
      | inl same ↦
          let other : j == key ≡ true = ap (λ x. x == key) (sym h.0) ∙ same in
          rw same (rw other (h.0, IsFirst-snoc dataset task related h.1, h.2))
      | inr next ↦
          let other : j == key ≡ false = ap (λ x. x == key) (sym h.0) ∙ next in
          rw next (rw other (h.0, h.1, update-Matches key task groups found h.2))
    ]

-- The datasets of the tasks, and that they differ where their JSON texts do not agree.
abbrev pub Planned : List TaskSpec → DatasetSpec → Type 0
Planned tasks dataset = In dataset (map (λ task. task.dataset) tasks)

abbrev pub IsKey : Builtins → List TaskSpec → Type 0
IsKey builtins tasks =
    (a b : DatasetSpec)
    → Planned tasks a
    → Planned tasks b
    → builtins.json a ≡ builtins.json b
    → a ≡ b

-- The bytes of a list of datasets.
unfoldable pub total_bytes : List DatasetSpec → ℕ
total_bytes [] = 0
total_bytes (dataset ∷ datasets) = dataset_size_bytes dataset + total_bytes datasets

module _ (builtins : Builtins) where
  into-Matches :
      (tasks : List TaskSpec) (groups : List (String × List TaskSpec))
      (found : List (String × DatasetSpec))
      → Matches groups found
      → Matches
          (group_into (λ task. builtins.json task.dataset) groups tasks)
          (unique_into builtins found tasks)
  unfolding group_into unique_into
  into-Matches [] groups found h = h
  into-Matches (task ∷ tasks) groups found h =
      into-Matches tasks (update (snoc task) [] (builtins.json task.dataset) groups)
        (update (λ kept. kept) task.dataset (builtins.json task.dataset) found)
        (update-Matches (builtins.json task.dataset) task groups found h)

  module _ (cache : DatasetSpec → CacheEntry) where
    -- The datasets that are still to be generated.
    abbrev pub missing : List DatasetSpec → List DatasetSpec
    missing datasets = filter (λ dataset. not (is_cached builtins cache dataset)) datasets

    one-missing :
        (dataset : DatasetSpec) (related : List TaskSpec)
        → IsFirst dataset related
        → missing_bytes builtins cache related ≡ total_bytes (missing (dataset ∷ []))
    unfolding filter total_bytes
    one-missing dataset [] h = absurd h
    one-missing dataset (task ∷ tasks) h =
        rw h (elim (Bool-cases (is_cached builtins cache dataset)) [
          | inl kept ↦ rw kept refl
          | inr absent ↦ rw absent (omega arith)
        ])

    total-missing :
        (dataset : DatasetSpec) (datasets : List DatasetSpec)
        → total_bytes (missing (dataset ∷ datasets))
          ≡ total_bytes (missing (dataset ∷ [])) + total_bytes (missing datasets)
    unfolding filter total_bytes
    total-missing dataset datasets = elim (Bool-cases (is_cached builtins cache dataset)) [
      | inl kept ↦ rw kept (omega arith)
      | inr absent ↦ rw absent (omega arith)
    ]

    missing-Matches :
        (groups : List (String × List TaskSpec)) (found : List (String × DatasetSpec))
        → Matches groups found
        → missing_storage_bytes builtins cache groups
          ≡ total_bytes (missing (map (λ entry. entry.1) found))
    unfolding missing_storage_bytes filter total_bytes
    missing-Matches [] [] h = refl
    missing-Matches [] (f ∷ found) h = absurd h
    missing-Matches (g ∷ groups) [] h = absurd h
    missing-Matches ((k, related) ∷ groups) ((j, dataset) ∷ found) h = omega (
      arith,
      one-missing dataset related h.1,
      missing-Matches groups found h.2,
      total-missing dataset (map (λ entry. entry.1) found),
    )

    -- What the groups lack is what the datasets lack that `cmd_run` prepares.
    pub missing_storage_bytes_unique :
        (tasks : List TaskSpec)
        → missing_storage_bytes builtins cache (tasks_by_dataset builtins tasks)
          ≡ total_bytes (missing (unique_datasets builtins tasks))
    missing_storage_bytes_unique tasks =
        missing-Matches (tasks_by_dataset builtins tasks) (unique_into builtins [] tasks)
          (into-Matches tasks [] [] tt)

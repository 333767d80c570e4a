-- ===== src/Preflight/Fits.antt =====
-- The memory that the tasks need, where `_evaluate_preflight` of prbench/cli.py finds nothing fatal.
use parallel_reduction_bench.Prelude.{
  ℕ, ◌≤◌, ◌≡◌, refl, sym, ap, subst, ◌∙◌, ◌⊎◌, inl, inr, Bool, true, false, not, ◌&&◌, Bool-cases,
  String, String_eq, ℕ_eq, list_eq, pair_eq, List, [], ◌∷◌, ◌++◌, any, ltb, filter, contains,
  contains-cons_cases, All, All-In, All-imp, In, In-filter, In-of_In-filter, In-map, All-self, ◌==◌,
  arith,
}
use parallel_reduction_bench.Prelude.Int.{ℤ, ℤ_eq}
use parallel_reduction_bench.Prelude.Float.{Float}
use parallel_reduction_bench.Prelude.Result.{
  Result, ok, >>=-eq-ok, ok-injective, raise_if, for_each, memory_error,
}
use parallel_reduction_bench.Models.{MeasurementConfig, SystemTopologyModel}
use parallel_reduction_bench.Capacity.{Row, gpu_capacity_rows}
use parallel_reduction_bench.Measurement.{validate_exact_gpu_memory_budget}
use parallel_reduction_bench.Store.Grouped.{get-group_by}
use parallel_reduction_bench.Sweep.Plan.{TaskSpec}
use parallel_reduction_bench.Preflight.{Builtins, Problem, fatal, over_ram_limit}
use parallel_reduction_bench.Preflight.Clear.{IsClear, IsClear-append}
use parallel_reduction_bench.Preflight.Keys.{In-get, IsKey}
use parallel_reduction_bench.Preflight.Memory.{
  is_host_resident, resident_bytes, tasks_by_dataset, dataset_notes, all_dataset_notes,
  task_identity, capacity_rows, headroom_note, headroom_notes,
}

abbrev is_excess : Row → Bool
is_excess row = row.estimate_kind == "exact" && not row.within_safe_budget

abbrev Fits : Row → Type 0
Fits row = is_excess row ≡ false

headroom_note-Fits : (row : Row) → IsClear (headroom_note row) → Fits row
unfolding any
headroom_note-Fits row h = elim (Bool-cases row.within_safe_budget) [
  | inl inside ↦ ground arith
  | inr outside ↦ elim (Bool-cases (row.estimate_kind == "exact")) [
    | inl exact ↦ absurd (cc (rw exact at (rw outside at h)))
    | inr guess ↦ ground arith
  ]
]

headroom_notes-Fits : (rows : List Row) → IsClear (headroom_notes rows) → All Fits rows
unfolding headroom_notes
headroom_notes-Fits [] h = tt
headroom_notes-Fits (row ∷ rows) h =
    let (first, rest) = IsClear-append (headroom_note row) (headroom_notes rows) h in
    (headroom_note-Fits row first, headroom_notes-Fits rows rest)

All-split : {A : Type 0} (P : A → Type 0) (xs ys : List A) → All P (xs ++ ys) → All P xs × All P ys
All-split P [] ys h = (tt, h)
All-split P (x ∷ xs) ys h = let (a, b) = All-split P xs ys h.1 in ((h.0, a), b)

for_each-Fits :
    (rows : List Row)
    → All Fits rows
    → for_each (λ row. raise_if (is_excess row) memory_error) rows ≡ ok tt
unfolding for_each
for_each-Fits [] h = refl
for_each-Fits (row ∷ rows) h = rw h.0 (for_each-Fits rows h.1)

module _ (builtins : Builtins) (topology : SystemTopologyModel) (fraction : Float) where
  -- What `run_task` checks of a task before it starts a worker.
  abbrev pub FitsGpus : TaskSpec → Type 0
  FitsGpus task =
      validate_exact_gpu_memory_budget builtins.int_of_text builtins.scaled task topology fraction
      ≡ ok tt

  rows-FitsGpus :
      (task : TaskSpec) (rows : List Row)
      → gpu_capacity_rows builtins.int_of_text builtins.scaled task topology fraction ≡ ok rows
      → All Fits rows
      → FitsGpus task
  unfolding validate_exact_gpu_memory_budget
  rows-FitsGpus task rows made fit = rw made (for_each-Fits rows fit)

  -- A task with the same key and GPUs fits.
  abbrev Represented : List TaskSpec → TaskSpec → Type 0
  Represented tasks task =
      (u : TaskSpec) × In u tasks × (task_identity u ≡ task_identity task) × FitsGpus u

  represent_later :
      (tasks : List TaskSpec) (first task : TaskSpec)
      → Represented tasks task
      → Represented (first ∷ tasks) task
  represent_later tasks first task (u, m, same, fits) = (u, inr m, same, fits)

  abbrev rows_from : List (String × List ℤ) → List TaskSpec → Result (List Row)
  rows_from = capacity_rows builtins topology fraction

  rows_from-step :
      (seen : List (String × List ℤ)) (task : TaskSpec) (tasks : List TaskSpec) (rows : List Row)
      → contains seen (task_identity task) ≡ false
      → rows_from seen (task ∷ tasks) ≡ ok rows
      → (own rest : List Row) × (gpu_capacity_rows builtins.int_of_text builtins.scaled task
            topology fraction
          ≡ ok own)
        × (rows_from (task_identity task ∷ seen) tasks ≡ ok rest)
        × (rows ≡ own ++ rest)
  unfolding capacity_rows
  rows_from-step seen task tasks rows new h =
      let (own, e, h') = >>=-eq-ok _ _ (rw (new, capacity_rows) at h) in
      let (rest, e', h'') = >>=-eq-ok (rows_from (task_identity task ∷ seen) tasks) _ h' in
      (own, rest, e, e', sym (ok-injective h''))

  rows_from-skip :
      (seen : List (String × List ℤ)) (task : TaskSpec) (tasks : List TaskSpec)
      → contains seen (task_identity task) ≡ true
      → rows_from seen (task ∷ tasks) ≡ rows_from seen tasks
  unfolding capacity_rows
  rows_from-skip seen task tasks old = rw (old, capacity_rows) refl

  -- Unless it was seen before, each task is represented by one whose rows are in the table.
  abbrev Counted : List (String × List ℤ) → List TaskSpec → TaskSpec → Type 0
  Counted seen tasks task = (contains seen (task_identity task) ≡ true) ⊎ Represented tasks task

  count_new :
      (seen : List (String × List ℤ)) (first : TaskSpec) (tasks : List TaskSpec) (task : TaskSpec)
      → FitsGpus first
      → Counted (task_identity first ∷ seen) tasks task
      → Counted seen (first ∷ tasks) task
  count_new seen first tasks task fits (inr found) = inr (represent_later tasks first task found)
  count_new seen first tasks task fits (inl old) =
      elim (contains-cons_cases (task_identity first) (task_identity task) seen old) [
        | inl same ↦ inr (first, inl refl, sym same, fits)
        | inr before ↦ inl before
      ]

  count_old :
      (seen : List (String × List ℤ)) (first : TaskSpec) (tasks : List TaskSpec) (task : TaskSpec)
      → Counted seen tasks task
      → Counted seen (first ∷ tasks) task
  count_old seen first tasks task (inl old) = inl old
  count_old seen first tasks task (inr found) = inr (represent_later tasks first task found)

  capacity_rows-Counted :
      (seen : List (String × List ℤ)) (tasks : List TaskSpec) (rows : List Row)
      → rows_from seen tasks ≡ ok rows
      → All Fits rows
      → All (Counted seen tasks) tasks
  capacity_rows-Counted seen [] rows h fit = tt
  capacity_rows-Counted seen (task ∷ tasks) rows h fit =
      elim (Bool-cases (contains seen (task_identity task))) [
        | inl old ↦ (
          inl old,
          All-imp tasks (λ u. count_old seen task tasks u)
              (capacity_rows-Counted seen tasks rows (rw (rows_from-skip seen task tasks old) at h)
                fit),
        )
        | inr new ↦
            let (own, rest, e, e', same) = rows_from-step seen task tasks rows new h in
            let (own_fit, rest_fit) = All-split Fits own rest (subst (All Fits) same fit) in
            let fits = rows-FitsGpus task own e own_fit in
            (
              inr (task, inl refl, refl, fits),
              All-imp tasks (λ u. count_new seen task tasks u fits)
                  (capacity_rows-Counted (task_identity task ∷ seen) tasks rest e' rest_fit),
            )
      ]

  -- Each task fits the GPUs, or one with the same key and GPUs does.
  pub capacity_rows-Represented :
      (tasks : List TaskSpec) (rows : List Row)
      → rows_from [] tasks ≡ ok rows
      → IsClear (headroom_notes rows)
      → All (Represented tasks) tasks
  unfolding contains
  capacity_rows-Represented tasks rows h clear =
      All-imp tasks (λ task. counted task)
        (capacity_rows-Counted [] tasks rows h (headroom_notes-Fits rows clear))
    where
      counted : (task : TaskSpec) → Counted [] tasks task → Represented tasks task
      counted task (inl old) = absurd (cc old)
      counted task (inr found) = found

not-IsClear : (problem : Problem) → ¬ IsClear (fatal problem ∷ [])
unfolding any
not-IsClear problem h = cc

module _ (builtins : Builtins) (m : MeasurementConfig) (ram_limit available_ram : ℕ) where
  group_notes :
      (groups : List (String × List TaskSpec))
      → IsClear (all_dataset_notes builtins m ram_limit available_ram groups)
      → All (λ group. IsClear (dataset_notes builtins m ram_limit available_ram group.1)) groups
  unfolding all_dataset_notes
  group_notes [] h = tt
  group_notes ((key, related) ∷ groups) h =
      let (first, rest) =
        IsClear-append (dataset_notes builtins m ram_limit available_ram related)
          (all_dataset_notes builtins m ram_limit available_ram groups) h in
      (first, group_notes groups rest)

  any-In :
      {A : Type 0} (p : A → Bool) (a : A) (xs : List A) → In a xs → p a ≡ true → any p xs ≡ true
  unfolding any
  any-In p a [] i h = absurd i
  any-In p a (x ∷ xs) (inl q) h = let h' : p x ≡ true = ap p (sym q) ∙ h in ground arith
  any-In p a (x ∷ xs) (inr i) h = let h' = any-In p a xs i h in ground arith

  first_fits :
      (first : TaskSpec) (tasks : List TaskSpec)
      → IsClear (dataset_notes builtins m ram_limit available_ram (first ∷ tasks))
      → any is_host_resident (first ∷ tasks) ≡ true
      → resident_bytes m first.dataset ≤ ram_limit
  unfolding dataset_notes
  first_fits first tasks clear host =
      elim (Bool-cases (ltb ram_limit (resident_bytes m first.dataset))) [
        | inl over ↦
            absurd (not-IsClear (over_ram_limit first.dataset) (rw over at (rw host at clear)))
        | inr under ↦ ground arith
      ]

  related_fits :
      (key : String) (task : TaskSpec) (related : List TaskSpec)
      → All (λ t. t.dataset ≡ task.dataset) related
      → IsClear (dataset_notes builtins m ram_limit available_ram related)
      → In task related
      → is_host_resident task ≡ true
      → resident_bytes m task.dataset ≤ ram_limit
  related_fits key task [] same clear i host = absurd i
  related_fits key task (first ∷ tasks) same clear i host =
      subst (λ dataset. resident_bytes m dataset ≤ ram_limit) same.0
        (first_fits first tasks clear (any-In is_host_resident task (first ∷ tasks) i host))

  -- What a worker keeps on the host of a task's dataset is within the limit.
  pub all_dataset_notes-fits :
      (tasks : List TaskSpec)
      → IsKey builtins tasks
      → IsClear
          (all_dataset_notes builtins m ram_limit available_ram (tasks_by_dataset builtins tasks))
      → (task : TaskSpec) → In task tasks
      → is_host_resident task ≡ true
      → resident_bytes m task.dataset ≤ ram_limit
  all_dataset_notes-fits tasks injective clear task i host =
      let key = builtins.json task.dataset in
      let same_key = λ (t : TaskSpec). builtins.json t.dataset == key in
      let group = get-group_by (λ t. builtins.json t.dataset) key tasks in
      let here : In task (filter same_key tasks) =
        In-filter task same_key tasks i ((String_eq.test_iff key key).1 refl) in
      let (related, entry, e) =
        In-get key (tasks_by_dataset builtins tasks) task (subst (In task) (sym group) here) in
      let is_related : related ≡ filter same_key tasks = sym e ∙ group in
      related_fits key task related
        (subst (All (λ t. t.dataset ≡ task.dataset)) (sym is_related) (
          All-imp (filter same_key tasks)
            (λ t m.
              let (j, same) = In-of_In-filter same_key t tasks m in
              injective t.dataset task.dataset (In-map (λ u. u.dataset) t tasks j)
                (In-map (λ u. u.dataset) task tasks i) ((String_eq.test_iff _ key).0 same))
            (All-self (filter same_key tasks))))
        (All-In (λ group'. IsClear (dataset_notes builtins m ram_limit available_ram group'.1))
          (key, related) (tasks_by_dataset builtins tasks)
          (group_notes (tasks_by_dataset builtins tasks) clear) entry)
        (subst (In task) (sym is_related) here) host

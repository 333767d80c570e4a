-- ===== src/Capacity/Rows.antt =====
-- The capacity table of prbench/capacity.py.
use parallel_reduction_bench.Prelude.{
  ℕ, ◌≤◌, ◌≡◌, ◌≢◌, refl, sym, ap, Bool, true, not, ◌⊎◌, inl, inr, none, some, String, List, [],
  ◌∷◌, map, arith, ◌==◌, Bool-cases, Option-cases, filter, find_last, In-find_last, is_empty, All,
  All-self, All-filter, In, In-filter, In-of_In-filter, IsDistinct, if◌then◌else◌,
}
use parallel_reduction_bench.Prelude.Int.{ℤ, ℤ_eq, pos, leb_ℤ, eqb_ℤ_iff}
use parallel_reduction_bench.Prelude.Float.{Float}
use parallel_reduction_bench.Prelude.Result.{Result, ok, raise, ◌>>=◌, >>=-eq-ok, ok-injective}
use parallel_reduction_bench.Models.{SystemTopologyModel, TopologyGpu}
use parallel_reduction_bench.Capacity.{
  Estimate, Row, add_row, keys_of, estimate, gpu_input_allocation_estimates, free_bytes,
  capacity_row, rows_of, gpu_capacity_rows,
}
use parallel_reduction_bench.Sweep.Plan.{TaskSpec}

keys_of-All : (P : ℤ → Type 0) (keys : List ℤ) → All P keys → All P (keys_of keys)
unfolding keys_of
keys_of-All P [] h = tt
keys_of-All P (k ∷ keys) h = (h.0, All-filter P _ (keys_of keys) (keys_of-All P keys h.1))

IsDistinct-filter : (p : ℤ → Bool) (xs : List ℤ) → IsDistinct xs → IsDistinct (filter p xs)
unfolding filter
IsDistinct-filter p [] d = tt
IsDistinct-filter p (x ∷ xs) d = elim (Bool-cases (p x)) [
  | inl t ↦ rw t ((λ m. d.0 (In-of_In-filter p x xs m).0), IsDistinct-filter p xs d.1)
  | inr f ↦ rw f (IsDistinct-filter p xs d.1)
]

keys_of-IsDistinct : (keys : List ℤ) → IsDistinct (keys_of keys)
unfolding keys_of
keys_of-IsDistinct [] = tt
keys_of-IsDistinct (k ∷ keys) = (
  λ m.
      let (_, other) = In-of_In-filter (λ x. not (x == k)) k (keys_of keys) m in
      cc (other, (eqb_ℤ_iff k k).1 refl),
  IsDistinct-filter _ (keys_of keys) (keys_of-IsDistinct keys),
)

In-keys_of : (k : ℤ) (keys : List ℤ) → In k keys → In k (keys_of keys)
unfolding keys_of
In-keys_of k [] m = absurd m
In-keys_of k (key ∷ keys) (inl e) = inl e
In-keys_of k (key ∷ keys) (inr m) = elim (Bool-cases (k == key)) [
  | inl e ↦ inl ((eqb_ℤ_iff k key).0 e)
  | inr e ↦ inr (In-filter k (λ x. not (x == key)) (keys_of keys) (In-keys_of k keys m) (rw e refl))
]

find_last-In :
    {A : Type 0} (p : A → Bool) (a : A) (xs : List A) → In a xs → p a ≡ true → find_last p xs ≢ none
unfolding find_last
find_last-In p a [] m t e = m
find_last-In p a (x ∷ xs) m t e = elim (Option-cases (find_last p xs)) [
  | inr (b, found) ↦ absurd (ground arith)
  | inl none_later ↦ elim m [
    | inl same ↦ let test : p x ≡ true = cc in ground arith
    | inr later ↦ find_last-In p a xs later t none_later
  ]
]

-- The row of one of the task's GPUs that the machine has. A row within its budget asks for no more
-- than the memory that is free.
pub record IsRow (task : TaskSpec) (topology : SystemTopologyModel) (row : Row) : Type 0 where
  pub in_task : In row.gpu_id task.gpu_ids
  pub gpu : TopologyGpu
  pub listed : In gpu topology.gpus
  pub of_gpu : gpu.index ≡ row.gpu_id
  pub free : row.gpu_free_bytes ≡ free_bytes gpu
  pub fits :
      row.within_safe_budget ≡ true
      → leb_ℤ row.estimated_input_bytes (pos row.gpu_free_bytes) ≡ true

module _ (int_of_text : String → Result ℤ) (safe : ℕ → Float → ℕ) (task : TaskSpec)
    (topology : SystemTopologyModel) (safety_fraction : Float) where
  below : (bytes : ℤ) (a b : ℕ) → a ≤ b → leb_ℤ bytes (pos a) ≡ true → leb_ℤ bytes (pos b) ≡ true
  below bytes a b le h = ground arith

  abbrev rows : List (ℤ × Estimate) → List Row
  rows = rows_of int_of_text safe task topology safety_fraction

  -- an id that the machine has gives a row, and another does not
  rows_of_cases :
      (entry : ℤ × Estimate) (entries : List (ℤ × Estimate))
      → (find_last (λ g. g.index == entry.0) topology.gpus ≡ none)
          × (rows (entry ∷ entries) ≡ rows entries)
        ⊎ ((gpu : TopologyGpu) × (find_last (λ g. g.index == entry.0) topology.gpus ≡ some gpu)
            × (rows (entry ∷ entries)
                ≡ capacity_row int_of_text safe task safety_fraction entry gpu ∷ rows entries))
  unfolding rows_of add_row
  rows_of_cases entry entries =
      elim (Option-cases (find_last (λ g. g.index == entry.0) topology.gpus)) [
        | inl e ↦ inl (e, rw e refl)
        | inr (gpu, e) ↦ inr (gpu, e, rw e refl)
      ]

  rows_of-IsRow :
      ((free : ℕ) → safe free safety_fraction ≤ free)
      → (entries : List (ℤ × Estimate)) → All (λ entry. In entry.0 task.gpu_ids) entries
      → IsDistinct (map (λ entry. entry.0) entries)
      → All (IsRow task topology) (rows entries)
        × IsDistinct (map (λ row. row.gpu_id) (rows entries))
        × ((id : ℤ)
            → In id (map (λ row. row.gpu_id) (rows entries))
            → In id (map (λ entry. entry.0) entries))
  unfolding rows_of
  rows_of-IsRow safe_le [] h d = (tt, tt, λ id m. m)
  rows_of-IsRow safe_le (entry ∷ entries) h d =
      let (all, distinct, from) = rows_of-IsRow safe_le entries h.1 d.1 in
      elim (rows_of_cases entry entries) [
        | inl (_, e) ↦ rw e (all, distinct, λ id m. inr (from id m))
        | inr (gpu, found, e) ↦
            let (listed, same) = In-find_last (λ g. g.index == entry.0) gpu topology.gpus found in
            rw e (
              (
                record {
                  in_task = h.0;
                  gpu = gpu;
                  listed = listed;
                  of_gpu = (eqb_ℤ_iff gpu.index entry.0).0 same;
                  free = refl;
                  fits = λ within.
                      below entry.1.input_bytes (safe (free_bytes gpu) safety_fraction)
                        (free_bytes gpu) (safe_le (free_bytes gpu)) within;
                },
                all,
              ),
              ((λ m. d.0 (from entry.0 m)), distinct),
              λ id m. elim m [ inl here ↦ inl here | inr there ↦ inr (from id there) ],
            )
      ]

  rows_of_complete :
      (gpu : TopologyGpu) (entries : List (ℤ × Estimate))
      → In gpu topology.gpus
      → In gpu.index (map (λ entry. entry.0) entries)
      → In gpu.index (map (λ row. row.gpu_id) (rows entries))
  unfolding rows_of
  rows_of_complete gpu [] listed m = absurd m
  rows_of_complete gpu (entry ∷ entries) listed m = elim (rows_of_cases entry entries) [
    | inl (missing, e) ↦ rw e (elim m [
      | inl here ↦ absurd (
          find_last-In (λ g. g.index == entry.0) gpu topology.gpus listed
            ((eqb_ℤ_iff gpu.index entry.0).1 here) missing)
      | inr there ↦ rows_of_complete gpu entries listed there
    ])
    | inr (_, _, e) ↦ rw e (elim m [
      | inl here ↦ inl here
      | inr there ↦ inr (rows_of_complete gpu entries listed there)
    ])
  ]

  gpu_capacity_rows_cases :
      (table : List Row)
      → gpu_capacity_rows int_of_text safe task topology safety_fraction ≡ ok table
      → (entries : List (ℤ × Estimate)) × (map (λ entry. entry.0) entries ≡ keys_of task.gpu_ids)
        × (table ≡ rows entries)
  unfolding gpu_capacity_rows gpu_input_allocation_estimates keys_of
  gpu_capacity_rows_cases table h =
      let (entries, e, h') = >>=-eq-ok (gpu_input_allocation_estimates int_of_text task) _ h in
      (entries, keys task.gpu_ids entries (estimate int_of_text task) e, sym (ok-injective h'))
    where
      ids :
          (es : Estimate) (keys : List ℤ)
          → map (λ (entry : ℤ × Estimate). entry.0) (map (λ gpu. (gpu, es)) keys) ≡ keys
      ids es [] = refl
      ids es (k ∷ ks) = ap (◌∷◌ k) (ids es ks)

      keys :
          (gpu_ids : List ℤ) (entries : List (ℤ × Estimate)) (m : Result Estimate)
          → (if is_empty gpu_ids
              then ok []
              else (m >>= λ e. ok (map (λ gpu. (gpu, e)) (keys_of gpu_ids))))
            ≡ ok entries
          → map (λ entry. entry.0) entries ≡ keys_of gpu_ids
      keys [] entries m h = rw (← ok-injective h) refl
      keys (g ∷ gs) entries (ok es) h = rw (← ok-injective h) (ids es (keys_of (g ∷ gs)))
      keys (g ∷ gs) entries (raise k) h = absurd (cc)

  -- If the safe budget of a GPU is at most its free memory, a capacity table that is returned has
  -- exactly one row for each GPU of the task that the machine has, and a row within its safe budget
  -- asks for no more than the memory that is free on this GPU.
  pub gpu_capacity_rows-IsRow :
      (table : List Row)
      → ((free : ℕ) → safe free safety_fraction ≤ free)
      → gpu_capacity_rows int_of_text safe task topology safety_fraction ≡ ok table
      → All (IsRow task topology) table
        × IsDistinct (map (λ row. row.gpu_id) table)
        × ((gpu : TopologyGpu)
            → In gpu topology.gpus
            → In gpu.index task.gpu_ids
            → In gpu.index (map (λ row. row.gpu_id) table))
  gpu_capacity_rows-IsRow table safe_le h =
      let (entries, ids, same) = gpu_capacity_rows_cases table h in
      let members : All (λ id. In id task.gpu_ids) (map (λ entry. entry.0) entries) =
        rw ids (keys_of-All (λ id. In id task.gpu_ids) task.gpu_ids (All-self task.gpu_ids)) in
      let (all, distinct, _) =
        rows_of-IsRow safe_le entries (All_of-map (λ id. In id task.gpu_ids) entries members)
          (rw ids (keys_of-IsDistinct task.gpu_ids)) in
      rw same (
        all,
        distinct,
        λ gpu listed m.
            rows_of_complete gpu entries listed (rw ids (In-keys_of gpu.index task.gpu_ids m)),
      )
    where
      All_of-map :
          (P : ℤ → Type 0) (entries : List (ℤ × Estimate))
          → All P (map (λ entry. entry.0) entries)
          → All (λ entry. P entry.0) entries
      All_of-map P [] h = tt
      All_of-map P (e ∷ es) h = (h.0, All_of-map P es h.1)

-- ===== src/Measurement/Bounds.antt =====
-- What the checks of prbench/models.py and prbench/runner.py guarantee for a measurement.
use parallel_reduction_bench.Prelude.{
  ℕ, ◌≤◌, ◌≡◌, refl, Bool, true, false, not, ◌&&◌, inl, inr, arith, String, List, ◌==◌, String_eq,
  ltb, Bool-cases, All, All-imp, All-In, All-self,
}
use parallel_reduction_bench.Prelude.Int.{ℤ, pos, leb_ℤ}
use parallel_reduction_bench.Prelude.Float.{Float, finite, le_float}
use parallel_reduction_bench.Prelude.Result.{
  Result, ok, raise_if, value_error, >>=-eq-ok, ok-injective, Kind,
}
use parallel_reduction_bench.Prelude.Loops.{for_each-All}
use parallel_reduction_bench.Models.{
  MeasurementConfig, Repetitions, auto, fixed, SystemTopologyModel,
}
use parallel_reduction_bench.Capacity.{Row, gpu_capacity_rows}
use parallel_reduction_bench.Capacity.Rows.{IsRow, gpu_capacity_rows-IsRow}
use parallel_reduction_bench.Measurement.{
  outside, validate_repetitions, clamp, choose_repetitions, choose_timing_repetitions,
  choose_energy_repetitions, validate_exact_gpu_memory_budget,
}
use parallel_reduction_bench.Sweep.Plan.{TaskSpec}

abbrev pub Within : ℕ → ℕ → ℤ → Type 0
Within low high n = (leb_ℤ (pos low) n ≡ true) × (leb_ℤ n (pos high) ≡ true)

raise_if-ok : (b : Bool) (k : Kind) → raise_if b k ≡ ok tt → b ≡ false
raise_if-ok b k h = ground arith

clamp-Within : (low high : ℕ) (n : ℤ) → low ≤ high → Within low high (clamp low high n)
unfolding clamp
clamp-Within low high n le = (ground arith, ground arith)

choose_repetitions-Within :
    (estimated : Float → Float → Result ℤ) (r : Repetitions) (target iteration_us : Float)
    (low high : ℕ) (n : ℤ)
    → outside low high r ≡ false
    → low ≤ high
    → choose_repetitions estimated r target low high iteration_us ≡ ok n
    → Within low high n
unfolding choose_repetitions
choose_repetitions-Within estimated (fixed k) target iteration_us low high n inside le h =
    let e : k ≡ n = ok-injective h in rw (← e) (ground arith, ground arith)
choose_repetitions-Within estimated auto target iteration_us low high n inside le h =
    elim (Bool-cases (le_float iteration_us (finite (pos 0) 0))) [
      | inl e ↦
          let same : pos low ≡ n = ok-injective (rw e at h) in
          rw (← same) (ground arith, ground arith)
      | inr e ↦
          let (k, _, h') = >>=-eq-ok (estimated target iteration_us) _ (rw e at h) in
          rw (← ok-injective h') (clamp-Within low high k le)
    ]

-- For a configuration that is accepted, the number of energy repetitions chosen lies within the
-- configured bounds, and so does the number of timing repetitions if it is automatic. A fixed number of
-- timing repetitions is used as it stands, and is in [3, 1000000].
pub validate_repetitions-Within :
    (estimated : Float → Float → Result ℤ) (m : MeasurementConfig) (iteration_us : Float)
    → validate_repetitions m ≡ ok tt
    → ((n : ℤ)
        → choose_energy_repetitions estimated m iteration_us ≡ ok n
        → Within m.energy_min_repetitions m.energy_max_repetitions n)
      × ((n : ℤ)
          → m.timing_repetitions ≡ auto
          → choose_timing_repetitions estimated m iteration_us ≡ ok n
          → Within m.timing_min_repetitions m.timing_max_repetitions n)
      × ((n : ℤ)
          → m.timing_repetitions ≡ fixed n
          → (choose_timing_repetitions estimated m iteration_us ≡ ok n) × Within 3 1_000_000 n)
unfolding validate_repetitions choose_energy_repetitions choose_timing_repetitions
    choose_repetitions
validate_repetitions-Within estimated m iteration_us h =
    let (_, a, h₁) =
      >>=-eq-ok (raise_if (outside 3 1_000_000 m.timing_repetitions) value_error) _ h in
    let (_, b, h₂) =
      >>=-eq-ok (raise_if (ltb m.timing_max_repetitions m.timing_min_repetitions) value_error) _
        h₁ in
    let (_, c, d) =
      >>=-eq-ok
        (raise_if
          (outside m.energy_min_repetitions m.energy_max_repetitions m.energy_batch_repetitions)
          value_error)
        _ h₂ in
    (
      λ n.
          choose_repetitions-Within estimated m.energy_batch_repetitions
            m.energy_target_batch_seconds iteration_us m.energy_min_repetitions
            m.energy_max_repetitions n (raise_if-ok _ _ c) (ordered _ _ (raise_if-ok _ _ d)),
      λ n e.
          choose_repetitions-Within estimated m.timing_repetitions m.timing_target_batch_seconds
            iteration_us m.timing_min_repetitions m.timing_max_repetitions n (rw e refl)
            (ordered _ _ (raise_if-ok _ _ b)),
      λ n e. (rw e refl, inside n (rw e at (raise_if-ok _ _ a))),
    )
  where
    ordered : (low high : ℕ) → ltb high low ≡ false → low ≤ high
    ordered low high e = ground arith

    inside : (n : ℤ) → outside 3 1_000_000 (fixed n) ≡ false → Within 3 1_000_000 n
    inside n e = (ground arith, ground arith)

-- If the safe budget of a GPU is at most its free memory, a task that passes the check on the GPU
-- budgets has a capacity table in which each exact estimate fits into the free memory of its GPU.
pub validate_exact_gpu_memory_budget-fits :
    (int_of_text : String → Result ℤ) (safe : ℕ → Float → ℕ) (task : TaskSpec)
    (topology : SystemTopologyModel) (safety_fraction : Float)
    → ((free : ℕ) → safe free safety_fraction ≤ free)
    → validate_exact_gpu_memory_budget int_of_text safe task topology safety_fraction ≡ ok tt
    → (table : List Row) × (gpu_capacity_rows int_of_text safe task topology safety_fraction
        ≡ ok table)
      × All
          (λ row.
            (row.estimate_kind == "exact") ≡ true
            → leb_ℤ row.estimated_input_bytes (pos row.gpu_free_bytes) ≡ true)
          table
unfolding validate_exact_gpu_memory_budget
validate_exact_gpu_memory_budget-fits int_of_text safe task topology safety_fraction safe_le h =
    let (table, e, h') =
      >>=-eq-ok (gpu_capacity_rows int_of_text safe task topology safety_fraction) _ h in
    let (all, _, _) =
      gpu_capacity_rows-IsRow int_of_text safe task topology safety_fraction table safe_le e in
    let checks = for_each-All _ table h' in
    (
      table,
      e,
      All-imp table
          (λ row m exact.
            (All-In (IsRow task topology) row table all m).fits
              (passed row exact (raise_if-ok _ _ (All-In _ row table checks m))))
          (All-self table),
    )
  where
    passed :
        (row : Row)
        → (row.estimate_kind == "exact") ≡ true
        → (row.estimate_kind == "exact" && not row.within_safe_budget) ≡ false
        → row.within_safe_budget ≡ true
    passed row exact h = ground arith

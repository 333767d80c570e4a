-- ===== src/Runner/Worker/Tallies.antt =====
-- The tally of the results in `_run_worker` of prbench/runner.py as a summary of their list.
use parallel_reduction_bench.Prelude.{
  ℕ, suc, ◌≡◌, refl, ap₂, inl, inr, Bool, true, false, not, Bool-cases, Option, none, some, String,
  List, [], ◌∷◌, length, eqb, if◌then◌else◌, arith,
}
use parallel_reduction_bench.Models.{RootConfig}
use parallel_reduction_bench.Sweep.Plan.{TaskSpec}
use parallel_reduction_bench.Runner.Worker.{
  FloatOps, Tally, first_tally, count_result, final_status,
}

abbrev pub energy_mismatches : Option Bool → ℕ
energy_mismatches none = 0
energy_mismatches (some true) = 0
energy_mismatches (some false) = 1

-- How many of the results, newest first, and of the energy batch's result were found wrong.
abbrev pub mismatches : Option Bool → List Bool → ℕ
mismatches energy_correct [] = energy_mismatches energy_correct
mismatches energy_correct (true ∷ results) = mismatches energy_correct results
mismatches energy_correct (false ∷ results) = suc (mismatches energy_correct results)

abbrev pub status_for : ℕ → String
status_for n = if eqb n 0 then "ok" else "invalid"

abbrev tally : ℕ → ℕ → Bool → Tally
tally n m fatal = record {
  repetitions_seen = n;
  numerical_mismatches = m;
  fatal_numerical_mismatch = fatal;
}

tally_ext : {s t m n : ℕ} {a b : Bool} → s ≡ t → m ≡ n → a ≡ b → tally s m a ≡ tally t n b
tally_ext p q r = ap₂ (λ f b. f b) (ap₂ tally p q) r

-- the tally of some results
abbrev pub tally_of : Option Bool → List Bool → Tally
tally_of energy_correct results =
    tally (length results) (mismatches energy_correct results)
      (not (eqb (mismatches energy_correct results) 0))

module _ (ops : FloatOps) (config : RootConfig) (task : TaskSpec) (sequence_index : ℕ) where
  pub first_tally-tally_of :
      (energy_correct : Option Bool)
      → first_tally ops config task sequence_index energy_correct ≡ tally_of energy_correct []
  first_tally-tally_of none = refl
  first_tally-tally_of (some true) = refl
  first_tally-tally_of (some false) = refl

  pub count_result-tally_of :
      (energy_correct : Option Bool) (b : Bool) (results : List Bool)
      → count_result ops config task sequence_index b (tally_of energy_correct results)
        ≡ tally_of energy_correct (b ∷ results)
  count_result-tally_of energy_correct true results = tally_ext (omega arith) refl refl
  count_result-tally_of energy_correct false results =
      tally_ext (omega arith) (omega arith) (ground arith)

  pub final_status-tally_of :
      (energy_correct : Option Bool) (results : List Bool)
      → final_status ops config task sequence_index (tally_of energy_correct results)
        ≡ status_for (mismatches energy_correct results)
  final_status-tally_of energy_correct results =
      elim (Bool-cases (eqb (mismatches energy_correct results) 0)) [
        | inl e ↦ rw e refl
        | inr e ↦ rw e refl
      ]

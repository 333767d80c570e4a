-- ===== src/Examples/Meters.antt =====
-- prbench/energy.py, the thermal guard, the protocol's reader and the probe's classes on small inputs.
use parallel_reduction_bench.Prelude.{
  ℕ, ◌≡◌, ◌≢◌, ◌↔◌, ◌-◌, ℕ_eq, refl, true, false, none, some, String, String_eq, List, [], ◌∷◌,
  filter, if◌then◌else◌, ◌==◌, arith,
}
use parallel_reduction_bench.Prelude.Int.{pos}
use parallel_reduction_bench.Prelude.Float.{finite, le_float}
use parallel_reduction_bench.Prelude.Result.{Kind, Result, ok, raise, index_error}
use parallel_reduction_bench.Samples
use parallel_reduction_bench.Energy.{
  zone_delta, in_window, trapezoids, integrate_clipped, integrate_samples,
}
use parallel_reduction_bench.Energy.Wrap.{zone_delta-wrap}
use parallel_reduction_bench.Energy.Integral.{
  Within, integrate_samples-Within, integrate_samples-raises_iff,
}
use parallel_reduction_bench.Runner.Thermal.{Rounds, wait_until_safe}
use parallel_reduction_bench.Runner.Thermal.Decides.{Ends, wait_until_safe-Ends}
use parallel_reduction_bench.Runner.Session.{TaskRow}
use parallel_reduction_bench.Protocol.{Line, read_event}
use parallel_reduction_bench.Protocol.Timeout.{read_event-ignores_timeout}
use parallel_reduction_bench.Topology.Classes.{
  ProbeRun, ProbeLine, ProbedCpu, Enriched, enrich_cpu_core_classes,
  enrich_cpu_core_classes-Enriched,
}

-- a counter with the range 1000 that wraps
zone_delta-wrap_example : zone_delta 1000 900 100 ≡ pos 200
zone_delta-wrap_example = zone_delta-wrap 1000 900 200 (omega arith) (omega arith)

abbrev samples : List (ℕ × ℕ)
samples = (20, 6) ∷ (30, 4) ∷ (50, 9) ∷ []

-- the window from 10 to 40, with a sample after it
integrate_samples-Within_example : Within 4 9 40 300 (40 - 10)
unfolding integrate_samples integrate_clipped trapezoids filter
integrate_samples-Within_example =
    integrate_samples-Within 4 9 40 10 (20, 6) ((30, 4) ∷ (50, 9) ∷ []) 300 (omega arith)
      (omega arith, (omega arith, (omega arith, tt)))
      ((omega arith, omega arith), ((omega arith, omega arith), ((omega arith, omega arith), tt)))
      refl

integrate_samples-raises_iff_example :
    ((kind : Kind)
      → (integrate_samples samples 60 70 ≡ raise kind)
        ↔ ((kind ≡ index_error) × (samples ≢ []) × (filter (in_window 60 70) samples ≡ [])))
    × (integrate_samples [] 60 70 ≡ ok 0)
integrate_samples-raises_iff_example = integrate_samples-raises_iff samples 60 70

-- a processor that stays hot, with a deadline at the third round
abbrev hot : Rounds
hot = record {
  cpu = λ n. some (finite (pos 99) 0);
  gpu = λ n. none;
  late = λ n. if n == 2 then true else false;
}

wait_until_safe-Ends_example :
    (r : Result (Unit {0})) × (wait_until_safe Samples.measurement hot 3 ≡ some r)
    × (if le_float Samples.measurement.thermal_wait_timeout_s (finite (pos 0) 0)
        then r ≡ ok tt
        else Ends Samples.measurement hot 0 2 r)
wait_until_safe-Ends_example = wait_until_safe-Ends Samples.measurement hot 3 2 (omega arith) refl

abbrev row : String → String → TaskRow
row key status = record {
  task_key = key;
  task_instance_id = key;
  block_index = pos 0;
  sequence_index = 1;
  status = status;
  numerical_mismatch_count = 0;
}

abbrev rows : List TaskRow
rows = row "a" "ok" ∷ row "b" "failed" ∷ row "a" "invalid" ∷ []

-- a stream that is not ready within a second
read_event-ignores_timeout_example :
    read_event (some (finite (pos 1) 0)) (ok false) (Line.object (some "ready"))
    ≡ read_event none (ok false) (Line.object (some "ready"))
read_event-ignores_timeout_example =
    read_event-ignores_timeout (some (finite (pos 1) 0)) (ok false) (Line.object (some "ready")) tt

abbrev probe : Result ProbeRun
probe = ok (record {
  succeeded = true;
  lines =
      ProbeLine.not_json
      ∷ ProbeLine.cpu_types
          (ProbedCpu.probed_cpu (pos 0) "efficiency" none ∷ ProbedCpu.malformed ∷ [])
      ∷ [];
})

enrich_cpu_core_classes-Enriched_example :
    Enriched Samples.machine (enrich_cpu_core_classes true probe Samples.machine)
enrich_cpu_core_classes-Enriched_example =
    enrich_cpu_core_classes-Enriched true probe Samples.machine

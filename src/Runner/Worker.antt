-- ===== src/Runner/Worker.antt =====
-- `_run_worker` of prbench/runner.py, stage by stage. Printing, timestamps and measured times in the
-- rows are left out; the fields of an event that are converted to floats are floats.
pub mod Stages
pub mod Steps
pub mod Order
pub mod Tallies
pub mod Rows
use parallel_reduction_bench.Prelude.{
  ℕ, zero, suc, ◌+◌, Bool, true, false, not, ◌&&◌, ◌||◌, Option, none, some, String, List, [], ◌∷◌,
  ◌==◌, String_eq, is_empty, if◌then◌else◌,
}
use parallel_reduction_bench.Prelude.Int.{ℤ, ℤ_eq, pos}
use parallel_reduction_bench.Prelude.Float.{Float, finite}
use parallel_reduction_bench.Prelude.Result.{
  Result, ok, raise, Kind, key_error, runtime_error, protocol_error, timeout_expired,
}
use parallel_reduction_bench.Models.{
  DType, RootConfig, Repetitions, auto, fixed, ReductionOperation, sum, min, max,
}
use parallel_reduction_bench.Measurement.{choose_timing_repetitions, choose_energy_repetitions}
use parallel_reduction_bench.Sweep.Plan.{TaskSpec}
use parallel_reduction_bench.Validation.{Number, Arithmetic, validate}
use parallel_reduction_bench.Runner.Session.{
  WorkerEvent, Command, probe, timing, energy, dump, TaskRow, RepetitionRow, MeterOp, start, stop,
  close, World, M, ◌>>=◌, ◌>>◌, pure, fail, lift, when, external, read_worker_event, send_command,
  append_task, append_repetition, append_telemetry, append_energy_batch, append_telemetry, meter,
  is_exception, catch, finally,
}

-- The metadata of a dataset that the runner reads.
pub record DatasetArtifact : Type 0 where
  pub size_bytes : ℕ
  pub reference_sum : Number
  pub reference_min : Number
  pub reference_max : Number
  pub sum_abs : Float

abbrev pub reference_for : DatasetArtifact → ReductionOperation → Number
reference_for dataset sum = dataset.reference_sum
reference_for dataset min = dataset.reference_min
reference_for dataset max = dataset.reference_max

-- What the runner takes from the Python library: the ceiling of a floating-point quotient, and the
-- arithmetic of the validator.
pub record FloatOps : Type 0 where
  pub estimated : Float → Float → Result ℤ
  pub arithmetic : Arithmetic

-- The local variables of the loop over the results.
pub record Tally : Type 0 where
  pub repetitions_seen : ℕ
  pub numerical_mismatches : ℕ
  pub fatal_numerical_mismatch : Bool

abbrev pub float_or : Option Float → Float → Float
float_or none default = default
float_or (some x) default = x

abbrev pub zero_float : Float
zero_float = finite (pos 0) 0

abbrev pub expect : String → WorkerEvent → M (Unit {0})
expect name event = if event.event == name then pure tt else fail protocol_error

module _ (ops : FloatOps) (config : RootConfig) (task : TaskSpec) (sequence_index : ℕ) where
  abbrev pub task_row : String → ℕ → TaskRow
  task_row status mismatches = record {
    task_key = task.task_key;
    task_instance_id = task.task_instance_id;
    block_index = task.block_index;
    sequence_index = sequence_index;
    status = status;
    numerical_mismatch_count = mismatches;
  }

  abbrev pub repetition_row : Bool → RepetitionRow
  repetition_row is_correct = record {
    task_key = task.task_key;
    task_instance_id = task.task_instance_id;
    block_index = task.block_index;
    status = "ok";
    is_correct = is_correct;
  }

  unfoldable pub capture_telemetry : String → M (Unit {0})
  capture_telemetry phase = when config.telemetry.enabled (external >> append_telemetry phase)

  -- `self.thermal.wait_until_safe` and `self._validate_runtime_idleness`
  abbrev pub wait_ready : M (Unit {0})
  wait_ready = external >> external

  -- the probe that timing repetitions are chosen from
  unfoldable pub run_probe : M (Option Float × ℤ)
  run_probe = do
    send_command (probe (pos config.measurement.timing_probe_repetitions))
    event ← read_worker_event
    expect "probe_done" event
    let mean = float_or event.mean_iteration_us zero_float
    n ← lift (choose_timing_repetitions ops.estimated config.measurement mean)
    pure (some mean, n)

  -- The number of timing repetitions, and the mean time of a probe if there was one.
  abbrev pub repetitions_of : Repetitions → M (Option Float × ℤ)
  repetitions_of (fixed n) = pure (none, n)
  repetitions_of auto = run_probe

  abbrev pub probe_stage : M (Option Float × ℤ)
  probe_stage = repetitions_of config.measurement.timing_repetitions

  unfoldable pub timing_stage : ℤ → M WorkerEvent
  timing_stage repetitions = do
    wait_ready
    when config.telemetry.capture_pre_post_timing (capture_telemetry "pre_timing")
    send_command (timing repetitions)
    timing_done ← read_worker_event
    expect "timing_done" timing_done
    when config.telemetry.capture_pre_post_timing (capture_telemetry "post_timing")
    pure timing_done

  abbrev pub energy_enabled : Bool
  energy_enabled =
      config.energy.enable_cpu || (config.energy.enable_gpu && not (is_empty task.gpu_ids))

  -- the two flags of the `try` around the energy meter
  unfoldable pub mark_started : M (Unit {0})
  mark_started w = (ok tt, record w { energy_started = true })

  unfoldable pub mark_stopped : M (Unit {0})
  mark_stopped w = (ok tt, record w { energy_stopped = true })

  -- the body of the `try` around the energy meter
  unfoldable pub measure_energy : ℤ → M WorkerEvent
  measure_energy repetitions = do
    wait_ready
    when config.telemetry.capture_pre_post_energy (capture_telemetry "pre_energy")
    meter start
    mark_started
    send_command (energy repetitions)
    measured ← read_worker_event
    expect "measure_done" measured
    meter stop
    mark_stopped
    when config.telemetry.capture_pre_post_energy (capture_telemetry "post_energy")
    pure measured

  -- `except Exception: pass`
  abbrev pub ignore : M (Unit {0}) → M (Unit {0})
  ignore m = catch m λ kind. if is_exception kind then pure tt else fail kind

  -- the `finally` around the energy meter
  unfoldable pub release_meter : M (Unit {0})
  release_meter w =
      (do when (w.energy_started && not w.energy_stopped) (ignore (meter stop)); meter close) w

  abbrev pub check_result : DatasetArtifact → Number → Result Bool
  check_result dataset actual =
      validate ops.arithmetic task.operation task.dataset.dtype task.dataset.size dataset.sum_abs
        actual (reference_for dataset task.operation)

  -- `event.payload["result"]`, validated
  unfoldable pub validate_event : DatasetArtifact → WorkerEvent → Result Bool
  validate_event dataset event = elim event.result [
    | none ↦ raise key_error
    | some actual ↦ check_result dataset actual
  ]

  -- The estimate that the energy repetitions are chosen from.
  abbrev pub timing_estimate : WorkerEvent → Option Float → WorkerEvent → Float
  timing_estimate ready probe_mean timing_done =
      float_or timing_done.mean_iteration_us
        (float_or probe_mean (float_or ready.warmup_median_us zero_float))

  -- The energy batch: whether its result was found correct, `none` if no energy is measured.
  unfoldable pub energy_stage :
      DatasetArtifact → WorkerEvent → Option Float → WorkerEvent → M (Option Bool)
  energy_stage dataset ready probe_mean timing_done =
      if energy_enabled
      then (do
        repetitions ← lift (
            choose_energy_repetitions ops.estimated config.measurement
              (timing_estimate ready probe_mean timing_done))
        measured ← finally (measure_energy repetitions) release_meter
        is_correct ← lift (validate_event dataset measured)
        pure (some is_correct))
      else pure none

  abbrev pub first_tally : Option Bool → Tally
  first_tally none = record {
    repetitions_seen = 0;
    numerical_mismatches = 0;
    fatal_numerical_mismatch = false;
  }
  first_tally (some true) = record {
    repetitions_seen = 0;
    numerical_mismatches = 0;
    fatal_numerical_mismatch = false;
  }
  first_tally (some false) = record {
    repetitions_seen = 0;
    numerical_mismatches = 1;
    fatal_numerical_mismatch = true;
  }

  -- a mismatch is always fatal (`_numerical_mismatch_is_fatal`)
  abbrev pub count_result : Bool → Tally → Tally
  count_result true t = record t { repetitions_seen = t.repetitions_seen + 1 }
  count_result false t = record {
    repetitions_seen = t.repetitions_seen + 1;
    numerical_mismatches = t.numerical_mismatches + 1;
    fatal_numerical_mismatch = true;
  }

  -- what follows a validation that may raise
  abbrev pub judged : Result Bool → World → (Bool → Result Tally × World) → Result Tally × World
  judged (raise kind) w next = (raise kind, w)
  judged (ok is_correct) w next = next is_correct

  -- The loop over the results, on the events that are still to be read.
  unfoldable pub collect :
      DatasetArtifact → Tally → List (Result WorkerEvent) → World → Result Tally × World
  collect dataset tally [] w = (raise protocol_error, record w { reads = [] })
  collect dataset tally (raise kind ∷ reads) w = (raise kind, record w { reads = reads })
  collect dataset tally (ok event ∷ reads) w =
      let stopped = record w { reads = reads } in
      if event.event == "result"
      then judged (validate_event dataset event) stopped (λ is_correct.
        collect dataset (count_result is_correct tally) reads
          (record w { repetition_rows = repetition_row is_correct ∷ w.repetition_rows }))
      else if event.event == "done"
      then (ok tally, stopped)
      else if event.event == "error"
      then (raise runtime_error, stopped)
      else (raise protocol_error, stopped)

  unfoldable pub dump_stage : DatasetArtifact → Option Bool → M Tally
  dump_stage dataset energy_correct = do
    send_command dump
    λ w. collect dataset (first_tally energy_correct) w.reads w

  abbrev pub final_status : Tally → String
  final_status tally = if tally.fatal_numerical_mismatch then "invalid" else "ok"

  -- the rows that end a measurement
  unfoldable pub finish : ℤ → Tally → M (Unit {0})
  finish repetitions tally = do
    if pos tally.repetitions_seen == repetitions then pure tt else fail protocol_error
    when energy_enabled (append_energy_batch task.task_key)
    capture_telemetry "post_task"
    append_task (task_row (final_status tally) tally.numerical_mismatches)

  -- The stages of a worker that is ready.
  unfoldable pub measure : DatasetArtifact → WorkerEvent → M (Unit {0})
  measure dataset ready = do
    chosen ← probe_stage
    timing_done ← timing_stage chosen.1
    energy_correct ← energy_stage dataset ready chosen.0 timing_done
    tally ← dump_stage dataset energy_correct
    finish chosen.1 tally

  -- the answer to the worker's first event
  unfoldable pub on_ready : DatasetArtifact → WorkerEvent → M (Unit {0})
  on_ready dataset ready =
      if ready.event == "unsupported"
      then (append_task (task_row "skipped" 0) >> external)
      else if ready.event == "ready"
      then measure dataset ready
      else fail protocol_error

  -- the body of the `try` around the process
  unfoldable pub converse : DatasetArtifact → M (Unit {0})
  converse dataset = do ready ← read_worker_event; on_ready dataset ready

  -- The `finally` around the process. `terminate` and `kill` do not raise for a child that is alive.
  abbrev pub wait_again : Kind → M (Unit {0})
  wait_again timeout_expired = external
  wait_again kind = fail kind

  unfoldable pub reap : M (Unit {0})
  reap w = when w.alive (catch external wait_again) w

  -- The first call outside starts the process.
  unfoldable pub run_worker : DatasetArtifact → M (Unit {0})
  run_worker dataset = external >> finally (converse dataset) reap

-- ===== src/Runner/Worker/Stages.antt =====
-- How `_run_worker` of prbench/runner.py passes through its stages, whatever the worker answers: rules
-- for facts that move from stage to stage.
use parallel_reduction_bench.Prelude.{
  ℕ, ◌⊎◌, inl, inr, Bool, ◌==◌, String_eq, Option, none, some, String, ◌∷◌,
}
use parallel_reduction_bench.Prelude.Int.{ℤ}
use parallel_reduction_bench.Prelude.Float.{Float}
use parallel_reduction_bench.Prelude.Result.{protocol_error}
use parallel_reduction_bench.Models.{RootConfig, Repetitions, auto, fixed}
use parallel_reduction_bench.Sweep.Plan.{TaskSpec}
use parallel_reduction_bench.Runner.Session.{
  WorkerEvent, Command, probe, timing, energy, World, M, start, stop, ◌>>=◌, ◌>>◌, when,
  append_task, external, send_command,
}
use parallel_reduction_bench.Runner.Session.Keeps.{
  Runs, either-IsCalm, Keeps, IsCalm, bind, returns, fails, lifts, branch, weaken, ends,
  external-Keeps, read_worker_event-Keeps, meter-Keeps, when-Keeps, send_command-Runs,
}
use parallel_reduction_bench.Runner.Worker.{
  DatasetArtifact, FloatOps, task_row, run_probe, repetitions_of, timing_stage, energy_enabled,
  measure_energy, energy_stage, dump_stage, finish, capture_telemetry, measure, on_ready, converse,
  run_worker,
}
use parallel_reduction_bench.Runner.Worker.Steps.{
  expect-Keeps, wait_ready-Keeps, capture_telemetry-Keeps, mark_started-Keeps, mark_stopped-Keeps,
  release_meter-Keeps, reap-Keeps,
}

module _ (ops : FloatOps) (config : RootConfig) (task : TaskSpec) (sequence_index : ℕ)
    (dataset : DatasetArtifact) where
  -- What holds at each stage, `n` being the number of timing repetitions, once the dialogue is over
  -- (`finished`), and where it broke off (`stopped`); and why the commands lead from stage to stage.
  pub record Phases : Type 1 where
    pub fresh : World → Type 0
    pub probed : World → Type 0
    pub timed : ℤ → World → Type 0
    pub measured : ℤ → World → Type 0
    pub finished : World → Type 0
    pub stopped : World → Type 0
    pub fresh_calm : IsCalm fresh
    pub probed_calm : IsCalm probed
    pub timed_calm : (n : ℤ) → IsCalm (timed n)
    pub measured_calm : (n : ℤ) → IsCalm (measured n)
    pub finished_calm : IsCalm finished
    pub stopped_calm : IsCalm stopped
    pub fresh_stops : (w : World) → fresh w → stopped w
    pub probed_stops : (w : World) → probed w → stopped w
    pub timed_stops : (n : ℤ) (w : World) → timed n w → stopped w
    pub measured_stops : (n : ℤ) (w : World) → measured n w → stopped w
    pub finished_stops : (w : World) → finished w → stopped w
    pub probes : (n : ℤ) (w : World) → fresh w → probed (record w { sent = probe n ∷ w.sent })
    pub times :
        (n : ℤ) (w : World) → fresh w ⊎ probed w → timed n (record w { sent = timing n ∷ w.sent })
    pub measures :
        (n k : ℤ) (w : World) → timed n w → measured n (record w { sent = energy k ∷ w.sent })
    pub skips :
        Runs
          (append_task (task_row ops config task sequence_index "skipped" 0) >> external)
          fresh
          (λ _. finished)
          (λ _. stopped)
    pub closes :
        (n : ℤ) (energy_correct : Option Bool)
        → Runs
            (dump_stage ops config task sequence_index dataset energy_correct
              >>= finish ops config task sequence_index n)
            (λ w. timed n w ⊎ measured n w)
            (λ _. finished)
            (λ _. stopped)

  module _ (p : Phases) where
    abbrev MayTime : World → Type 0
    MayTime w = p.fresh w ⊎ p.probed w

    abbrev MayDump : ℤ → World → Type 0
    MayDump n w = p.timed n w ⊎ p.measured n w

    -- A step that sends nothing, in a dialogue that may stop there.
    stay :
        {A : Type 0} {m : M A} {I : World → Type 0}
        → ((w : World) → I w → p.stopped w)
        → Keeps I m
        → Runs m I (λ _. I) (λ _. p.stopped)
    stay h = weaken (λ w q. q) (λ a w q. q) (λ kind. h)

    -- A command that leads to J.
    advance :
        {I J : World → Type 0} (command : Command)
        → IsCalm J
        → ((w : World) → J w → p.stopped w)
        → ((w : World) → I w → J (record w { sent = command ∷ w.sent }))
        → Runs (send_command command) I (λ _. J) (λ _. p.stopped)
    advance command calm stops step =
        weaken (λ w h. h) (λ a w h. h) (λ kind. stops) (send_command-Runs command calm step)

    may_time_stops : (w : World) → MayTime w → p.stopped w
    may_time_stops w (inl h) = p.fresh_stops w h
    may_time_stops w (inr h) = p.probed_stops w h

    MayTime-IsCalm : IsCalm MayTime
    MayTime-IsCalm = either-IsCalm p.fresh_calm p.probed_calm

    run_probe-Runs :
        Runs (run_probe ops config task sequence_index) p.fresh (λ _. MayTime) (λ _. p.stopped)
    unfolding run_probe
    run_probe-Runs = bind (advance (probe _) p.probed_calm p.probed_stops (p.probes _)) λ _.
        bind (stay p.probed_stops (read_worker_event-Keeps p.probed_calm)) λ event.
          bind (stay p.probed_stops (expect-Keeps p.probed_calm "probe_done" event)) λ _.
            bind (lifts _ (λ n w _ h. h) (λ kind. p.probed_stops)) λ n. returns _ (λ w h. inr h)

    repetitions_of-Runs :
        (r : Repetitions)
        → Runs
            (repetitions_of ops config task sequence_index r)
            p.fresh
            (λ _. MayTime)
            (λ _. p.stopped)
    repetitions_of-Runs (fixed n) = returns (none, n) (λ w h. inl h)
    repetitions_of-Runs auto = run_probe-Runs

    telemetry_if-Keeps :
        {I : World → Type 0} (b : Bool) (phase : String)
        → IsCalm I
        → Keeps I (when b (capture_telemetry ops config task sequence_index phase))
    telemetry_if-Keeps b phase calm =
        when-Keeps calm b (capture_telemetry-Keeps calm ops config task sequence_index phase)

    timing_stage-Runs :
        (n : ℤ)
        → Runs
            (timing_stage ops config task sequence_index n)
            MayTime
            (λ _. p.timed n)
            (λ _. p.stopped)
    unfolding timing_stage
    timing_stage-Runs n =
        bind (stay may_time_stops (wait_ready-Keeps MayTime-IsCalm ops config task sequence_index))
          λ _. bind (stay may_time_stops (telemetry_if-Keeps _ "pre_timing" MayTime-IsCalm)) λ _.
            bind (advance (timing n) (p.timed_calm n) (p.timed_stops n) (p.times n)) λ _.
              bind (stay (p.timed_stops n) (read_worker_event-Keeps (p.timed_calm n))) λ event.
                bind (stay (p.timed_stops n) (expect-Keeps (p.timed_calm n) "timing_done" event))
                  λ _.
                    bind
                      (stay (p.timed_stops n) (telemetry_if-Keeps _ "post_timing" (p.timed_calm n)))
                      λ _. returns event (λ w h. h)

    measure_energy-Runs :
        (n k : ℤ)
        → Runs
            (measure_energy ops config task sequence_index k)
            (p.timed n)
            (λ _. p.measured n)
            (λ _. p.stopped)
    unfolding measure_energy
    measure_energy-Runs n k =
        bind
          (stay (p.timed_stops n)
            (wait_ready-Keeps (p.timed_calm n) ops config task sequence_index))
          λ _.
            bind (stay (p.timed_stops n) (telemetry_if-Keeps _ "pre_energy" (p.timed_calm n))) λ _.
              bind (stay (p.timed_stops n) (meter-Keeps (p.timed_calm n) start)) λ _.
                bind
                  (stay (p.timed_stops n)
                    (mark_started-Keeps (p.timed_calm n) ops config task sequence_index))
                  λ _.
                    bind
                      (advance (energy k) (p.measured_calm n) (p.measured_stops n) (p.measures n k))
                      λ _.
                        bind
                          (stay (p.measured_stops n) (read_worker_event-Keeps (p.measured_calm n)))
                          λ event.
                            bind
                              (stay (p.measured_stops n)
                                (expect-Keeps (p.measured_calm n) "measure_done" event))
                              λ _.
                                bind
                                  (stay (p.measured_stops n) (meter-Keeps (p.measured_calm n) stop))
                                  λ _.
                                    bind
                                      (stay (p.measured_stops n) (
                                        mark_stopped-Keeps (p.measured_calm n) ops config task
                                          sequence_index))
                                      λ _.
                                        bind
                                          (stay (p.measured_stops n) (
                                            telemetry_if-Keeps _ "post_energy" (p.measured_calm n)))
                                          λ _. returns event (λ w h. h)

    energy_stage-Runs :
        (n : ℤ) (ready : WorkerEvent) (mean : Option Float) (timing_done : WorkerEvent)
        → Runs
            (energy_stage ops config task sequence_index dataset ready mean timing_done)
            (p.timed n)
            (λ _. MayDump n)
            (λ _. p.stopped)
    unfolding energy_stage
    energy_stage-Runs n ready mean timing_done =
        branch (energy_enabled ops config task sequence_index)
          (bind (lifts _ (λ k w _ h. h) (λ kind. p.timed_stops n)) λ k.
            bind
              (ends (measure_energy-Runs n k)
                (λ event.
                  stay (p.measured_stops n)
                    (release_meter-Keeps (p.measured_calm n) ops config task sequence_index))
                (λ kind. release_meter-Keeps p.stopped_calm ops config task sequence_index))
              λ event.
                bind (lifts _ (λ b w _ h. h) (λ kind. p.measured_stops n))
                  λ is_correct. returns (some is_correct) (λ w h. inr h))
          (returns none (λ w h. inl h))

    measure-Runs :
        (ready : WorkerEvent)
        → Runs
            (measure ops config task sequence_index dataset ready)
            p.fresh
            (λ _. p.finished)
            (λ _. p.stopped)
    unfolding measure
    measure-Runs ready = bind (repetitions_of-Runs config.measurement.timing_repetitions) λ chosen.
        bind (timing_stage-Runs chosen.1) λ timing_done.
          bind (energy_stage-Runs chosen.1 ready chosen.0 timing_done)
            λ energy_correct. p.closes chosen.1 energy_correct

    on_ready-Runs :
        (ready : WorkerEvent)
        → Runs
            (on_ready ops config task sequence_index dataset ready)
            p.fresh
            (λ _. p.finished)
            (λ _. p.stopped)
    unfolding on_ready
    on_ready-Runs ready =
        branch (ready.event == "unsupported") p.skips (
          branch (ready.event == "ready") (measure-Runs ready) (fails protocol_error p.fresh_stops))

    pub run_worker-Runs :
        Runs
          (run_worker ops config task sequence_index dataset)
          p.fresh
          (λ _. p.finished)
          (λ _. p.stopped)
    unfolding run_worker converse
    run_worker-Runs = bind (stay p.fresh_stops (external-Keeps p.fresh_calm)) λ _.
        ends (bind (stay p.fresh_stops (read_worker_event-Keeps p.fresh_calm)) on_ready-Runs)
          (λ _. stay p.finished_stops (reap-Keeps p.finished_calm ops config task sequence_index))
          (λ kind. reap-Keeps p.stopped_calm ops config task sequence_index)

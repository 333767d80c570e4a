-- ===== src/Runner/Worker/Steps.antt =====
-- The steps of `_run_worker` of prbench/runner.py that leave commands and rows alone.
use parallel_reduction_bench.Prelude.{
  ℕ, Bool, true, false, not, ◌&&◌, ◌==◌, String_eq, String, List, [], ◌∷◌, if◌then◌else◌,
}
use parallel_reduction_bench.Prelude.Result.{
  Result, ok, raise, Kind, protocol_error, timeout_expired,
}
use parallel_reduction_bench.Models.{RootConfig}
use parallel_reduction_bench.Sweep.Plan.{TaskSpec}
use parallel_reduction_bench.Runner.Session.{
  append_telemetry, WorkerEvent, World, MeterOp, M, meter, is_exception,
}
use parallel_reduction_bench.Runner.Session.Keeps.{
  Post, Runs, Keeps, IsCalm, bind, returns, fails, branch, catches, external-Keeps, meter-Keeps,
  when-Keeps,
}
use parallel_reduction_bench.Runner.Worker.{
  DatasetArtifact, FloatOps, Tally, count_result, repetition_row, judged, collect, expect,
  capture_telemetry, wait_ready, mark_started, mark_stopped, ignore, release_meter, wait_again,
  reap,
}

module _ {I : World → Type 0} (calm : IsCalm I) where
  pub expect-Keeps : (name : String) (event : WorkerEvent) → Keeps I (expect name event)
  expect-Keeps name event =
      branch (event.event == name) (returns tt (λ w h. h)) (fails protocol_error (λ w h. h))

  module _ (ops : FloatOps) (config : RootConfig) (task : TaskSpec) (sequence_index : ℕ) where
    pub wait_ready-Keeps : Keeps I (wait_ready ops config task sequence_index)
    wait_ready-Keeps = bind (external-Keeps calm) (λ _. external-Keeps calm)

    append_telemetry-Keeps : (phase : String) → Keeps I (append_telemetry phase)
    unfolding append_telemetry
    append_telemetry-Keeps phase = record { run = λ w h. calm.telemetry w (phase ∷ w.telemetry) h }

    pub capture_telemetry-Keeps :
        (phase : String) → Keeps I (capture_telemetry ops config task sequence_index phase)
    unfolding capture_telemetry
    capture_telemetry-Keeps phase =
        when-Keeps calm config.telemetry.enabled
          (bind (external-Keeps calm) (λ _. append_telemetry-Keeps phase))

    pub mark_started-Keeps : Keeps I (mark_started ops config task sequence_index)
    unfolding mark_started
    mark_started-Keeps = record { run = λ w h. calm.started w h }

    pub mark_stopped-Keeps : Keeps I (mark_stopped ops config task sequence_index)
    unfolding mark_stopped
    mark_stopped-Keeps = record { run = λ w h. calm.stopped w h }

    ignore-Keeps :
        (m : M (Unit {0})) → Keeps I m → Keeps I (ignore ops config task sequence_index m)
    ignore-Keeps m h =
        catches h
          (λ kind. branch (is_exception kind) (returns tt (λ w p. p)) (fails kind (λ w p. p)))

    pub release_meter-Keeps : Keeps I (release_meter ops config task sequence_index)
    unfolding release_meter
    release_meter-Keeps = record {
      run = λ w h.
          (bind
              (when-Keeps calm (w.energy_started && not w.energy_stopped)
                (ignore-Keeps (meter MeterOp.stop) (meter-Keeps calm MeterOp.stop)))
              (λ _. meter-Keeps calm MeterOp.close)).run
            w h;
    }

    wait_again-Keeps : (kind : Kind) → Keeps I (wait_again ops config task sequence_index kind)
    wait_again-Keeps timeout_expired = external-Keeps calm
    wait_again-Keeps kind = fails kind (λ w h. h)

    pub reap-Keeps : Keeps I (reap ops config task sequence_index)
    unfolding reap
    reap-Keeps = record {
      run =
          λ w h. (when-Keeps calm w.alive (catches (external-Keeps calm) wait_again-Keeps)).run w h;
    }

-- An outcome that a test or a validation chooses.
module _ {A : Type 0} (Q : A → World → Type 0) (E : Kind → World → Type 0) where
  pub if-Post :
      (b : Bool) (r s : Result A × World) → Post Q E r → Post Q E s → Post Q E (if b then r else s)
  if-Post true r s h k = h
  if-Post false r s h k = k

-- The loop over the results: a fact of the tally and the world that each result carries on, and that
-- gives E where the loop raises.
module _ {I : Tally → World → Type 0} {E : World → Type 0} (ops : FloatOps) (config : RootConfig)
    (task : TaskSpec) (sequence_index : ℕ) (dataset : DatasetArtifact)
    (calm : (t : Tally) → IsCalm (I t)) (stops : (t : Tally) (w : World) → I t w → E w)
    (counts : (b : Bool) (t : Tally) (w : World)
      → I t w
      → I (count_result ops config task sequence_index b t) (record w {
        repetition_rows = repetition_row ops config task sequence_index b ∷ w.repetition_rows;
      })) where
  judged-Post :
      (v : Result Bool) (w : World) (next : Bool → Result Tally × World)
      → E w
      → ((b : Bool) → Post I (λ _. E) (next b))
      → Post I (λ _. E) (judged ops config task sequence_index v w next)
  judged-Post (raise kind) w next h k = h
  judged-Post (ok b) w next h k = k b

  collect-Post :
      (reads : List (Result WorkerEvent)) (tally : Tally) (w : World)
      → I tally w
      → Post I (λ _. E) (collect ops config task sequence_index dataset tally reads w)
  unfolding collect
  collect-Post [] tally w h = stops tally _ ((calm tally).reads w [] h)
  collect-Post (raise kind ∷ reads) tally w h = stops tally _ ((calm tally).reads w reads h)
  collect-Post (ok event ∷ reads) tally w h =
      if-Post I (λ _. E) (event.event == "result") _ _
        (judged-Post _ _ _ halted (λ b.
          collect-Post reads (count_result ops config task sequence_index b tally) _
            (counts b tally w h)))
        (if-Post I (λ _. E) (event.event == "done") _ _ ((calm tally).reads w reads h)
          (if-Post I (λ _. E) (event.event == "error") _ _ halted halted))
    where
      halted : E (record w { reads = reads })
      halted = stops tally _ ((calm tally).reads w reads h)

  pub collect-Runs :
      (tally : Tally)
      → Runs
          (λ w. collect ops config task sequence_index dataset tally w.reads w)
          (I tally)
          I
          (λ _. E)
  collect-Runs tally = record { run = λ w h. collect-Post w.reads tally w h }

-- ===== src/Runner/Worker/Order.antt =====
-- The order of the commands that `_run_worker` of prbench/runner.py sends, as a state machine that the
-- native worker can rely on.
use parallel_reduction_bench.Prelude.{
  ℕ, ◌≡◌, sym, subst, ◌⊎◌, inl, inr, Bool, String_eq, Option, String, List, [], ◌∷◌,
}
use parallel_reduction_bench.Prelude.Int.{ℤ}
use parallel_reduction_bench.Prelude.Result.{Result, ok, raise, protocol_error}
use parallel_reduction_bench.Models.{RootConfig}
use parallel_reduction_bench.Sweep.Plan.{TaskSpec}
use parallel_reduction_bench.Runner.Session.{
  Command, probe, timing, energy, dump, World, TaskRow, append_task, append_energy_batch,
}
use parallel_reduction_bench.Runner.Session.Keeps.{
  Post, Runs, Keeps, IsCalm, files-IsCalm, bind, returns, fails, branch, weaken, external-Keeps,
  when-Keeps, send_command-Runs,
}
use parallel_reduction_bench.Runner.Worker.{
  DatasetArtifact, FloatOps, Tally, energy_enabled, first_tally, dump_stage, finish, run_worker,
}
use parallel_reduction_bench.Runner.Worker.Stages.{Phases, run_worker-Runs}
use parallel_reduction_bench.Runner.Worker.Steps.{capture_telemetry-Keeps, collect-Runs}

-- How far the dialogue with a worker has come.
pub data Stage : Type 0 where
  started probed timed measured dumped : Stage

-- One command and the stage it leads to: a probe comes first if at all, then one timing batch, then
-- at most one energy batch, then one dump.
pub data Step : Stage → Command → Stage → Type 0 where
  probes : {n : ℤ} → Step started (probe n) probed
  times : {n : ℤ} → Step started (timing n) timed
  times_probed : {n : ℤ} → Step probed (timing n) timed
  measures : {n : ℤ} → Step timed (energy n) measured
  dumps : Step timed dump dumped
  dumps_measured : Step measured dump dumped

-- The commands, newest first, lead from the start to the stage.
pub data Follows : List Command → Stage → Type 0 where
  nothing : Follows [] started
  sends :
      {commands : List Command} {s t : Stage} {command : Command}
      → Follows commands s
      → Step s command t
      → Follows (command ∷ commands) t

abbrev At : Stage → World → Type 0
At s w = Follows w.sent s

-- Whatever the dialogue has come to, the commands so far follow the protocol.
abbrev pub FollowsProtocol : World → Type 0
FollowsProtocol w = (s : Stage) × Follows w.sent s

At-IsCalm : (s : Stage) → IsCalm (At s)
At-IsCalm s = files-IsCalm λ commands tasks repetitions. Follows commands s

protocol-IsCalm : IsCalm FollowsProtocol
protocol-IsCalm = files-IsCalm λ commands tasks repetitions. (s : Stage) × Follows commands s

times_next : (n : ℤ) (w : World) → At started w ⊎ At probed w → Follows (timing n ∷ w.sent) timed
times_next n w (inl h) = sends h times
times_next n w (inr h) = sends h times_probed

dumps_next : (w : World) → At timed w ⊎ At measured w → Follows (dump ∷ w.sent) dumped
dumps_next w (inl h) = sends h dumps
dumps_next w (inr h) = sends h dumps_measured

append_task-Keeps : (row : TaskRow) → Keeps FollowsProtocol (append_task row)
unfolding append_task
append_task-Keeps row = record { run = λ w h. h }

append_energy_batch-Keeps : (key : String) → Keeps FollowsProtocol (append_energy_batch key)
unfolding append_energy_batch
append_energy_batch-Keeps key = record { run = λ w h. h }

-- What holds either way holds of the world that is left.
after-Post : (I : World → Type 0) (r : Result (Unit {0}) × World) → Post (λ _. I) (λ _. I) r → I r.1
after-Post I (ok _, w) h = h
after-Post I (raise kind, w) h = h

module _ (ops : FloatOps) (config : RootConfig) (task : TaskSpec) (sequence_index : ℕ)
    (dataset : DatasetArtifact) where
  finish-Keeps :
      (n : ℤ) (tally : Tally)
      → Keeps FollowsProtocol (finish ops config task sequence_index n tally)
  unfolding finish
  finish-Keeps n tally =
      bind (branch _ (returns tt (λ w h. h)) (fails protocol_error (λ w h. h))) λ _.
        bind
          (when-Keeps protocol-IsCalm (energy_enabled ops config task sequence_index)
            (append_energy_batch-Keeps task.task_key))
          λ _.
            bind
              (capture_telemetry-Keeps protocol-IsCalm ops config task sequence_index "post_task")
              λ _. append_task-Keeps _

  dump_stage-Runs :
      (energy_correct : Option Bool)
      → Runs
          (dump_stage ops config task sequence_index dataset energy_correct)
          (λ w. At timed w ⊎ At measured w)
          (λ _. FollowsProtocol)
          (λ _. FollowsProtocol)
  unfolding dump_stage
  dump_stage-Runs energy_correct =
      bind
        (weaken (λ w h. h) (λ a w h. (dumped, h)) (λ kind w h. (dumped, h))
          (send_command-Runs dump (At-IsCalm dumped) dumps_next))
        λ _.
          collect-Runs {I = λ t. FollowsProtocol} ops config task sequence_index dataset
            (λ t. protocol-IsCalm) (λ t w h. h) (λ b t w h. h)
            (first_tally ops config task sequence_index energy_correct)

  abbrev phases : Phases ops config task sequence_index dataset
  phases = record {
    fresh = At started;
    probed = At probed;
    timed = λ n. At timed;
    measured = λ n. At measured;
    finished = FollowsProtocol;
    stopped = FollowsProtocol;
    fresh_calm = At-IsCalm started;
    probed_calm = At-IsCalm probed;
    timed_calm = λ n. At-IsCalm timed;
    measured_calm = λ n. At-IsCalm measured;
    finished_calm = protocol-IsCalm;
    stopped_calm = protocol-IsCalm;
    fresh_stops = λ w h. (started, h);
    probed_stops = λ w h. (probed, h);
    timed_stops = λ n w h. (timed, h);
    measured_stops = λ n w h. (measured, h);
    finished_stops = λ w h. h;
    probes = λ n w h. sends h probes;
    times = times_next;
    measures = λ n k w h. sends h measures;
    skips =
        weaken (λ w h. (started, h)) (λ a w h. h) (λ kind w h. h)
          (bind (append_task-Keeps _) λ _. external-Keeps protocol-IsCalm);
    closes = λ n energy_correct. bind (dump_stage-Runs energy_correct) (finish-Keeps n);
  }

  -- Whatever the worker answers and whatever fails, the commands that one task sends to its worker
  -- follow the protocol: at most one probe, then at most one timing batch, then at most one energy
  -- batch, then at most one dump, each only after the ones it needs.
  pub run_worker-FollowsProtocol :
      (w : World)
      → w.sent ≡ []
      → FollowsProtocol (run_worker ops config task sequence_index dataset w).1
  run_worker-FollowsProtocol w same =
      after-Post FollowsProtocol (run_worker ops config task sequence_index dataset w) (
        (run_worker-Runs ops config task sequence_index dataset phases).run w
          (subst (λ commands. Follows commands started) (sym same) nothing))

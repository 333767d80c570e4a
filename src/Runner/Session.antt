-- ===== src/Runner/Session.antt =====
-- What `ExperimentRunner` of prbench/runner.py shares with the world: the worker's events, the other
-- calls that may raise, and what the results store and the worker are given.
pub mod Keeps
use parallel_reduction_bench.Prelude.{
  ℕ, Bool, true, false, Option, none, some, String, List, [], ◌∷◌, if◌then◌else◌,
}
use parallel_reduction_bench.Prelude.Int.{ℤ}
use parallel_reduction_bench.Prelude.Float.{Float}
use parallel_reduction_bench.Prelude.Result.{
  Result, ok, raise, Kind, protocol_error, keyboard_interrupt,
}
use parallel_reduction_bench.Validation.{Number}

-- A line of the worker's standard output, as `read_event` of prbench/protocol.py returns it, with the
-- fields of its payload that the runner reads.
pub record WorkerEvent : Type 0 where
  pub event : String
  pub mean_iteration_us : Option Float
  pub warmup_median_us : Option Float
  pub result : Option Number

-- A command that is written to the worker's standard input.
pub data Command : Type 0 where
  probe timing energy : ℤ → Command
  dump : Command

-- A row of tasks.jsonl; the count of mismatches is 0 for a row that does not have it.
pub record TaskRow : Type 0 where
  pub task_key : String
  pub task_instance_id : String
  pub block_index : ℤ
  pub sequence_index : ℕ
  pub status : String
  pub numerical_mismatch_count : ℕ

-- A row of repetitions.jsonl.
pub record RepetitionRow : Type 0 where
  pub task_key : String
  pub task_instance_id : String
  pub block_index : ℤ
  pub status : String
  pub is_correct : Bool

pub data MeterOp : Type 0 where
  start stop close : MeterOp

-- The outcomes of what the runner will ask, in order: `reads` for the worker's events, `outcomes` for
-- the other calls that may raise, which succeed beyond the list, and `alive` for the last `poll`. Then
-- the rows and commands that it has written and the operations on energy meters, newest first, and the
-- two flags of `_run_worker`.
pub record World : Type 0 where
  pub reads : List (Result WorkerEvent)
  pub outcomes : List (Result (Unit {0}))
  pub alive : Bool
  pub sent : List Command
  pub telemetry : List String
  pub task_rows : List TaskRow
  pub repetition_rows : List RepetitionRow
  pub energy_rows : List String
  pub meters : List MeterOp
  pub energy_started : Bool
  pub energy_stopped : Bool

abbrev pub M : Type 0 → Type 0
M A = World → Result A × World

abbrev pub and_then : {A B : Type 0} → Result A × World → (A → M B) → Result B × World
and_then (ok a, w) next = next a w
and_then (raise kind, w) next = (raise kind, w)

infixl 5 ◌>>=◌
abbrev pub ◌>>=◌ : {A B : Type 0} → M A → (A → M B) → M B
◌>>=◌ m next w = and_then (m w) next

infixl 5 ◌>>◌
abbrev pub ◌>>◌ : {B : Type 0} → M (Unit {0}) → M B → M B
◌>>◌ m next = m >>= (λ _. next)

abbrev pub pure : {A : Type 0} → A → M A
pure a w = (ok a, w)

abbrev pub fail : {A : Type 0} → Kind → M A
fail kind w = (raise kind, w)

abbrev pub lift : {A : Type 0} → Result A → M A
lift r w = (r, w)

abbrev pub when : Bool → M (Unit {0}) → M (Unit {0})
when true m = m
when false m = pure tt

abbrev take_outcome : List (Result (Unit {0})) → World → Result (Unit {0}) × World
take_outcome [] w = (ok tt, w)
take_outcome (r ∷ rest) w = (r, record w { outcomes = rest })

-- a call outside that returns nothing
unfoldable pub external : M (Unit {0})
external w = take_outcome w.outcomes w

abbrev take_read : List (Result WorkerEvent) → World → Result WorkerEvent × World
take_read [] w = (raise protocol_error, w)
take_read (r ∷ rest) w = (r, record w { reads = rest })

-- `_read_worker_event`: an event, a timeout, a protocol error, or, at the end of the stream,
-- `worker closed stdout unexpectedly`
unfoldable pub read_worker_event : M WorkerEvent
read_worker_event w = take_read w.reads w

-- `send_command`; the command counts as sent also if writing or flushing raises
unfoldable pub send_command : Command → M (Unit {0})
unfolding external
send_command command w = external (record w { sent = command ∷ w.sent })

unfoldable pub append_task : TaskRow → M (Unit {0})
append_task row w = (ok tt, record w { task_rows = row ∷ w.task_rows })

unfoldable pub append_repetition : RepetitionRow → M (Unit {0})
append_repetition row w = (ok tt, record w { repetition_rows = row ∷ w.repetition_rows })

unfoldable pub append_energy_batch : String → M (Unit {0})
append_energy_batch key w = (ok tt, record w { energy_rows = key ∷ w.energy_rows })

unfoldable pub append_telemetry : String → M (Unit {0})
append_telemetry phase w = (ok tt, record w { telemetry = phase ∷ w.telemetry })

unfoldable pub meter : MeterOp → M (Unit {0})
unfolding external
meter op w = external (record w { meters = op ∷ w.meters })

-- `except Exception` catches every kind but `KeyboardInterrupt`.
abbrev pub is_exception : Kind → Bool
is_exception keyboard_interrupt = false
is_exception kind = true

abbrev pub handled : {A : Type 0} → Result A × World → (Kind → M A) → Result A × World
handled (ok a, w) handler = (ok a, w)
handled (raise kind, w) handler = handler kind w

abbrev pub catch : {A : Type 0} → M A → (Kind → M A) → M A
catch m handler w = handled (m w) handler

abbrev pub leave : {A : Type 0} → Result A → Result (Unit {0}) × World → Result A × World
leave r (ok _, w) = (r, w)
leave r (raise kind, w) = (raise kind, w)

-- `try: m finally: cleanup`; an exception of the cleanup takes the place of the first one.
abbrev pub finally : {A : Type 0} → M A → M (Unit {0}) → M A
finally m cleanup w = leave (m w).0 (cleanup (m w).1)

-- ===== src/Protocol.antt =====
-- `read_event` of prbench/protocol.py. What the selector answers and the line that follows are inputs.
pub mod Timeout
use parallel_reduction_bench.Prelude.{Bool, true, false, Option, none, some, String, if◌then◌else◌}
use parallel_reduction_bench.Prelude.Float.{Float}
use parallel_reduction_bench.Prelude.Result.{
  Result, ok, raise, ◌>>=◌, ◌>>◌, Kind, attribute_error, os_error, timeout_error, value_error,
  protocol_error,
}

-- The next line of the stream: the end of the stream, no JSON, JSON that is no object, and an object
-- with its field `event` if that is a string.
pub data Line : Type 0 where
  closed not_json not_object : Line
  object : Option String → Line

-- `except (AttributeError, OSError, ValueError)`; TimeoutError is a class of OSError.
abbrev pub is_passed_over : Kind → Bool
is_passed_over attribute_error = true
is_passed_over os_error = true
is_passed_over timeout_error = true
is_passed_over value_error = true
is_passed_over kind = false

abbrev pub pass_over : Result (Unit {0}) → Result (Unit {0})
pass_over (ok _) = ok tt
pass_over (raise kind) = if is_passed_over kind then ok tt else raise kind

-- the body of the `try`: `selector.select` answers whether the stream is ready in time
abbrev pub select_ready : Result Bool → Result (Unit {0})
select_ready selection = do ready ← selection; if ready then ok tt else raise timeout_error

unfoldable pub wait_readable : Option Float → Result Bool → Result (Unit {0})
wait_readable none selection = ok tt
wait_readable (some timeout_s) selection = pass_over (select_ready selection)

unfoldable pub parse_line : Line → Result String
parse_line closed = raise protocol_error
parse_line not_json = raise protocol_error
parse_line not_object = raise attribute_error
parse_line (object none) = raise protocol_error
parse_line (object (some event)) = ok event

-- The name of the event that is read; its payload is the object.
unfoldable pub read_event : Option Float → Result Bool → Line → Result String
read_event timeout_s selection line = do wait_readable timeout_s selection; parse_line line

-- ===== src/Protocol/Timeout.antt =====
-- What a timeout does in `read_event` of prbench/protocol.py.
use parallel_reduction_bench.Prelude.{◌≡◌, refl, Bool, true, false, Option, none, some}
use parallel_reduction_bench.Prelude.Float.{Float}
use parallel_reduction_bench.Prelude.Result.{Result, ok, raise}
use parallel_reduction_bench.Protocol.{Line, is_passed_over, wait_readable, read_event}

-- What the selector answers raises nothing but what the code passes over.
abbrev pub Quiet : Result Bool → Type 0
Quiet (ok ready) = Unit
Quiet (raise kind) = is_passed_over kind ≡ true

-- The timeout has no effect: with any timeout, and also where the stream is not ready in time, an event
-- is read as without a timeout, where the read blocks until there is a line.
pub read_event-ignores_timeout :
    (timeout_s : Option Float) (selection : Result Bool) (line : Line)
    → Quiet selection
    → read_event timeout_s selection line ≡ read_event none selection line
unfolding read_event wait_readable
read_event-ignores_timeout none selection line quiet = refl
read_event-ignores_timeout (some t) (ok true) line quiet = refl
read_event-ignores_timeout (some t) (ok false) line quiet = refl
read_event-ignores_timeout (some t) (raise kind) line quiet = rw quiet refl

-- ===== src/Runner/Thermal.antt =====
-- `ThermalGuard` of prbench/runner.py: the hottest sensors and the wait for them.
pub mod Decides
use parallel_reduction_bench.Prelude.{
  ℕ, zero, suc, ◌+◌, Bool, true, false, not, ◌&&◌, ◌||◌, Option, none, some, String, String_eq,
  List, [], ◌∷◌, ◌++◌, contains, is_empty, ◌==◌, if◌then◌else◌,
}
use parallel_reduction_bench.Prelude.Int.{ℤ, pos}
use parallel_reduction_bench.Prelude.Float.{Float, finite, le_float, lt_float}
use parallel_reduction_bench.Prelude.Result.{Result, ok, raise, timeout_error, ◌>>=◌, ◌>>◌}
use parallel_reduction_bench.Models.{MeasurementConfig}

-- `max`
abbrev pub max_from : Float → List Float → Float
max_from best [] = best
max_from best (x ∷ xs) = max_from (if lt_float best x then x else best) xs

abbrev pub max_or_none : List Float → Option Float
max_or_none [] = none
max_or_none (x ∷ xs) = some (max_from x xs)

abbrev pub current_values : List (Option Float) → List Float
current_values [] = []
current_values (none ∷ entries) = current_values entries
current_values (some x ∷ entries) = x ∷ current_values entries

abbrev pub primary_groups : List String
primary_groups = "coretemp" ∷ "k10temp" ∷ "zenpower" ∷ "cpu_thermal" ∷ []

-- `lower` is `str.lower`; the sensors are what `psutil.sensors_temperatures` returns.
module _ (lower : String → String) where
  -- the current temperatures of the groups that satisfy a test
  unfoldable pub temperatures : (String → Bool) → List (String × List (Option Float)) → List Float
  temperatures wanted [] = []
  temperatures wanted ((group, entries) ∷ temps) =
      let rest = temperatures wanted temps in
      if wanted (lower group) then current_values entries ++ rest else rest

  abbrev pub cpu_temp_of : List (String × List (Option Float)) → List Float → Option Float
  cpu_temp_of temps [] = max_or_none (temperatures (λ group. group == "acpitz") temps)
  cpu_temp_of temps (x ∷ primary) = some (max_from x primary)

  unfoldable pub max_cpu_temp : Result (List (String × List (Option Float))) → Option Float
  max_cpu_temp (raise kind) = none
  max_cpu_temp (ok temps) =
      cpu_temp_of temps (temperatures (λ group. contains primary_groups group) temps)

-- `init`, `shutdown` and `read` are NVML's calls, and `available` is whether pynvml was imported.
module _ (available : Bool) (init shutdown : Result (Unit {0})) (read : ℤ → Result Float) where
  unfoldable pub gpu_values : List ℤ → Result (List Float)
  gpu_values [] = ok []
  gpu_values (gpu_id ∷ gpu_ids) = do
    value ← read gpu_id
    values ← gpu_values gpu_ids
    ok (value ∷ values)

  unfoldable pub gpu_readings : List ℤ → Result (List Float)
  gpu_readings gpu_ids = do init; values ← gpu_values gpu_ids; shutdown; ok values

  abbrev pub gpu_temp_of : Result (List Float) → Option Float
  gpu_temp_of (raise kind) = none
  gpu_temp_of (ok values) = max_or_none values

  unfoldable pub max_gpu_temp : List ℤ → Option Float
  max_gpu_temp gpu_ids =
      if not available || is_empty gpu_ids then none else gpu_temp_of (gpu_readings gpu_ids)

abbrev pub within_limit : Option Float → Float → Bool
within_limit none limit = true
within_limit (some t) limit = le_float t limit

-- The rounds of the wait: the temperatures that each reads, and whether it is past the deadline then.
pub record Rounds : Type 0 where
  pub cpu : ℕ → Option Float
  pub gpu : ℕ → Option Float
  pub late : ℕ → Bool

module _ (config : MeasurementConfig) (rounds : Rounds) where
  abbrev pub is_safe : ℕ → Bool
  is_safe n =
      within_limit (rounds.cpu n) config.thermal_safety_cpu_c
      && within_limit (rounds.gpu n) config.thermal_safety_gpu_c

  -- The `while True`, on fuel, from round n; a round that is neither safe nor late sleeps.
  unfoldable pub wait_loop : ℕ → ℕ → Option (Result (Unit {0}))
  wait_loop zero n = none
  wait_loop (suc fuel) n =
      let rest = wait_loop fuel (suc n) in
      if is_safe n then some (ok tt) else if rounds.late n then some (raise timeout_error) else rest

  unfoldable pub wait_until_safe : ℕ → Option (Result (Unit {0}))
  wait_until_safe fuel =
      if le_float config.thermal_wait_timeout_s (finite (pos 0) 0)
      then some (ok tt)
      else wait_loop fuel 0

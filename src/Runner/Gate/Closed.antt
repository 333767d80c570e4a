-- ===== src/Runner/Gate/Closed.antt =====
-- When the idleness gate of prbench/runner.py lets a task pass.
use parallel_reduction_bench.Prelude.{
  ℕ, ℕ_eq, ◌≡◌, refl, Bool, true, false, not, ◌&&◌, Option, none, some, List, [], ◌∷◌,
  none_of_filter, contains, is_empty, is_empty→nil, All, All-imp, arith,
}
use parallel_reduction_bench.Prelude.Int.{ℤ}
use parallel_reduction_bench.Prelude.Float.{Float, lt_float}
use parallel_reduction_bench.Prelude.Result.{Kind, ok, >>=-eq-ok, raise_if, runtime_error}
use parallel_reduction_bench.Prelude.Loops.{for_each-All}
use parallel_reduction_bench.Models.{MeasurementConfig}
use parallel_reduction_bench.Sweep.Plan.{TaskSpec}
use parallel_reduction_bench.Runner.Gate.{
  GpuProcesses, Nvml, foreign, check_processes, check_gpu, check_gpus, validate_runtime_idleness,
}

-- The processes listed are all allowed.
abbrev pub OnlyAllowed : List ℕ → Option (List ℕ) → Type 0
OnlyAllowed allowed none = Unit
OnlyAllowed allowed (some pids) = All (λ pid. contains allowed pid ≡ true) pids

-- NVML answers on the GPU, and there is no other process than the allowed ones.
abbrev pub IsQuiet : MeasurementConfig → List ℕ → Nvml → ℤ → Type 0
IsQuiet m allowed nvml gpu =
    (p : GpuProcesses) × (nvml.processes gpu ≡ ok p)
    × OnlyAllowed allowed p.compute
    × (m.allow_gpu_graphics_processes ≡ false → OnlyAllowed allowed p.graphics)

abbrev pub AreQuiet : MeasurementConfig → List ℕ → Option Nvml → List ℤ → Type 0
AreQuiet m allowed none gpus = Unit
AreQuiet m allowed (some nvml) gpus = All (IsQuiet m allowed nvml) gpus

raise_if-ok : (test : Bool) (kind : Kind) (u : Unit {0}) → raise_if test kind ≡ ok u → test ≡ false
raise_if-ok true kind u h = absurd (cc h)
raise_if-ok false kind u h = refl

foreign-OnlyAllowed :
    (allowed : List ℕ) (pids : Option (List ℕ))
    → is_empty (foreign allowed pids) ≡ true
    → OnlyAllowed allowed pids
foreign-OnlyAllowed allowed none h = tt
foreign-OnlyAllowed allowed (some pids) h =
    All-imp pids (λ pid. allowed_of (contains allowed pid))
      (none_of_filter (λ pid. not (contains allowed pid)) pids
        (is_empty→nil (foreign allowed (some pids)) h))
  where
    allowed_of : (b : Bool) → not b ≡ false → b ≡ true
    allowed_of true e = refl
    allowed_of false e = absurd (cc e)

module _ (m : MeasurementConfig) (allowed : List ℕ) where
  check_gpu-IsQuiet :
      (nvml : Nvml) (gpu : ℤ) → check_gpu m allowed nvml gpu ≡ ok tt → IsQuiet m allowed nvml gpu
  check_gpu-IsQuiet nvml gpu h =
      let (p, answered, h') = >>=-eq-ok (nvml.processes gpu) (check_processes m allowed) h in
      let none_computes = not (is_empty (foreign allowed p.compute)) in
      let none_draws =
        not m.allow_gpu_graphics_processes && not (is_empty (foreign allowed p.graphics)) in
      let (u, first, h'') = >>=-eq-ok (raise_if none_computes runtime_error) _ h' in
      let compute = raise_if-ok none_computes runtime_error u first in
      let graphics = raise_if-ok none_draws runtime_error tt h'' in
      (
        p,
        answered,
        foreign-OnlyAllowed allowed p.compute (ground arith),
        λ forbidden. foreign-OnlyAllowed allowed p.graphics (ground arith),
      )

  check_gpus-AreQuiet :
      (nvml : Option Nvml) (gpus : List ℤ)
      → check_gpus m allowed nvml gpus ≡ ok tt
      → AreQuiet m allowed nvml gpus
  check_gpus-AreQuiet none gpus h = tt
  check_gpus-AreQuiet (some nvml) [] h = tt
  check_gpus-AreQuiet (some nvml) (gpu ∷ gpus) h =
      let (u, started, h') = >>=-eq-ok nvml.init _ h in
      All-imp (gpu ∷ gpus) (check_gpu-IsQuiet nvml)
        (for_each-All (check_gpu m allowed nvml) (gpu ∷ gpus) h')

  -- Where the checks are strict, a task that passes the gate starts on a machine whose load is within the limit,
  -- and on each of its GPUs NVML, if it is installed, lists only allowed compute processes, and only
  -- allowed graphics processes unless others may be there.
  pub validate_runtime_idleness-AreQuiet :
      (load : Float) (nvml : Option Nvml) (task : TaskSpec)
      → m.strict_preflight ≡ true
      → validate_runtime_idleness m allowed load nvml task ≡ ok tt
      → (lt_float m.max_preflight_cpu_load_percent load ≡ false)
        × AreQuiet m allowed nvml task.gpu_ids
  unfolding validate_runtime_idleness
  validate_runtime_idleness-AreQuiet load nvml task strict h =
      let loaded = lt_float m.max_preflight_cpu_load_percent load in
      let (u, first, h') = >>=-eq-ok (raise_if loaded runtime_error) _ (rw strict at h) in
      (raise_if-ok loaded runtime_error u first, check_gpus-AreQuiet nvml task.gpu_ids h')

-- ===== src/Preflight/Idle.antt =====
-- The devices, where `_evaluate_preflight` of prbench/cli.py finds nothing fatal.
use parallel_reduction_bench.Prelude.{
  ℕ, ◌≡◌, refl, sym, ap, subst, ◌∙◌, ◌⊎◌, inl, inr, Bool, true, false, not, ◌||◌, Bool-cases,
  Option-cases, Option, none, some, String, String_eq, List, [], ◌∷◌, length, is_empty,
  is_empty→nil, any, all, filter, find_last, In-find_last, dedupe, In-dedupe, In-sort, flat_map,
  In-append_left, In-append_right, contains, contains→In, All, In, In-of_In-map, In-of_In-filter,
  ◌==◌, list_eq, list_beq_iff, arith,
}
use parallel_reduction_bench.Prelude.Int.{ℤ, ℤ_eq, leb_ℤ, eqb_ℤ_iff}
use parallel_reduction_bench.Prelude.Text.{strip, is_digit}
use parallel_reduction_bench.Models.{SystemTopologyModel, TopologyCpu}
use parallel_reduction_bench.Sweep.Plan.{TaskSpec}
use parallel_reduction_bench.Preflight.{Counters, no_gpu_counter}
use parallel_reduction_bench.Preflight.Clear.{IsClear, IsClear-append, IsClear-note_if}
use parallel_reduction_bench.Preflight.Keys.{In-keys}
use parallel_reduction_bench.Preflight.Devices.{
  gpu_ids_of, tokens_of, ints_of, count_from, token_problem, cuda_visible_devices_problem,
  visible_note, Diagnostic, diagnostic, diagnostics, is_supported, counter_notes, has_class,
}

In-flat_map :
    {A B : Type 0} (f : A → List B) (b : B) (a : A) (xs : List A)
    → In a xs
    → In b (f a)
    → In b (flat_map f xs)
unfolding flat_map
In-flat_map f b a [] m i = absurd m
In-flat_map f b a (x ∷ xs) (inl e) i =
    In-append_left b (f x) (flat_map f xs) (subst (λ y. In b (f y)) e i)
In-flat_map f b a (x ∷ xs) (inr m) i =
    In-append_right b (f x) (flat_map f xs) (In-flat_map f b a xs m i)

pub In-gpu_ids_of :
    (gpu : ℤ) (task : TaskSpec) (tasks : List TaskSpec)
    → In task tasks
    → In gpu task.gpu_ids
    → In gpu (gpu_ids_of tasks)
unfolding gpu_ids_of
In-gpu_ids_of gpu task tasks m i = In-sort leb_ℤ gpu (dedupe (flat_map (λ t. t.gpu_ids) tasks)) (
    In-dedupe gpu (flat_map (λ t. t.gpu_ids) tasks)
      (In-flat_map (λ t. t.gpu_ids) gpu task tasks m i))

-- A text that names GPUs names all of them, in the order of NVML.
abbrev pub IsIdentity : SystemTopologyModel → Option (List ℕ) → Type 0
IsIdentity topology none = Unit
IsIdentity topology (some raw) =
    (is_empty (strip raw) ≡ true)
    ⊎ ((all (all is_digit) (tokens_of raw) ≡ true)
        × (ints_of (tokens_of raw) ≡ count_from 0 (length topology.gpus)))

tokens-identity :
    (topology : SystemTopologyModel) (tokens : List (List ℕ))
    → token_problem topology tokens ≡ none
    → (all (all is_digit) tokens ≡ true) × (ints_of tokens ≡ count_from 0 (length topology.gpus))
unfolding token_problem
tokens-identity topology tokens h =
    elim (Bool-cases (is_empty tokens || not (all (all is_digit) tokens))) [
      | inl bad ↦ absurd (cc (rw bad at h))
      | inr good ↦ elim (Bool-cases (ints_of tokens == count_from 0 (length topology.gpus))) [
        | inr other ↦ absurd (cc (rw other at (rw good at h)))
        | inl same ↦ (
          ground arith,
          (list_beq_iff (ints_of tokens) (count_from 0 (length topology.gpus))).0 same,
        )
      ]
    ]

pub visible-IsIdentity :
    (topology : SystemTopologyModel) (raw : Option (List ℕ))
    → IsClear (visible_note (cuda_visible_devices_problem topology raw))
    → IsIdentity topology raw
unfolding cuda_visible_devices_problem any
visible-IsIdentity topology none clear = tt
visible-IsIdentity topology (some raw) clear = elim (Bool-cases (is_empty (strip raw))) [
  | inl blank ↦ inl blank
  | inr given ↦ elim (Option-cases (token_problem topology (tokens_of raw))) [
    | inl fine ↦ inr (tokens-identity topology (tokens_of raw) fine)
    | inr (problem, e) ↦ absurd (cc (rw e at (rw given at clear)))
  ]
]

-- The GPU has a counter that NVML can read.
abbrev pub IsReadable : Option (ℤ → Option Counters) → ℤ → Type 0
IsReadable none gpu = ⊥
IsReadable (some nvml) gpu =
    (counters : Counters) × (nvml gpu ≡ some counters)
    × ((counters.total_energy || counters.power_usage) ≡ true)

diagnostic-gpu_id : (gpu : ℤ) (answer : Option Counters) → (diagnostic gpu answer).gpu_id ≡ gpu
diagnostic-gpu_id gpu none = refl
diagnostic-gpu_id gpu (some counters) = refl

supported-counters :
    (gpu : ℤ) (answer : Option Counters)
    → is_supported (some (diagnostic gpu answer)) ≡ true
    → (counters : Counters) × (answer ≡ some counters)
      × ((counters.total_energy || counters.power_usage) ≡ true)
supported-counters gpu none h = absurd (cc h)
supported-counters gpu (some counters) h = (counters, refl, h)

abbrev row_of : List Diagnostic → ℤ → Option Diagnostic
row_of rows gpu = find_last (λ row. row.gpu_id == gpu) rows

row_of-IsReadable :
    (nvml : Option (ℤ → Option Counters)) (gpus : List ℤ) (gpu : ℤ)
    → is_supported (row_of (diagnostics nvml gpus) gpu) ≡ true
    → IsReadable nvml gpu
unfolding diagnostics find_last
row_of-IsReadable none gpus gpu h = absurd (cc h)
row_of-IsReadable (some nvml) gpus gpu h =
    elim (Option-cases (row_of (diagnostics (some nvml) gpus) gpu)) [
      | inl e ↦ absurd (cc (rw e at h))
      | inr (row, e) ↦
          let (m, test) = In-find_last (λ r. r.gpu_id == gpu) row _ e in
          let (g, i, same) = In-of_In-map (λ g. diagnostic g (nvml g)) row gpus m in
          let own : g ≡ gpu =
            sym (ap (λ r. r.gpu_id) same ∙ diagnostic-gpu_id g (nvml g))
            ∙ (eqb_ℤ_iff row.gpu_id gpu).0 test in
          supported-counters gpu (nvml gpu) (
            ap (λ x. is_supported (some (diagnostic x (nvml x)))) (sym own)
            ∙ ap (λ r. is_supported (some r)) (sym same)
            ∙ ap is_supported (sym e)
            ∙ h)
    ]

not-false : (b : Bool) → not b ≡ false → b ≡ true
not-false true h = refl
not-false false h = absurd (cc h)

pub counter_notes-IsReadable :
    (nvml : Option (ℤ → Option Counters)) (all_gpus gpus : List ℤ)
    → IsClear (counter_notes (diagnostics nvml all_gpus) gpus)
    → All (IsReadable nvml) gpus
unfolding counter_notes
counter_notes-IsReadable nvml all_gpus [] clear = tt
counter_notes-IsReadable nvml all_gpus (gpu ∷ gpus) clear =
    let (first, rest) = IsClear-append _ (counter_notes (diagnostics nvml all_gpus) gpus) clear in
    (
      row_of-IsReadable nvml all_gpus gpu
          (not-false _ (IsClear-note_if _ (no_gpu_counter gpu) first)),
      counter_notes-IsReadable nvml all_gpus gpus rest,
    )

pub any-empty :
    {A : Type 0} (f : A → List ℕ) (rows : List A)
    → any (λ row. not (is_empty (f row))) rows ≡ false
    → All (λ row. f row ≡ []) rows
unfolding any
any-empty f [] h = tt
any-empty f (row ∷ rows) h = (is_empty→nil (f row) (ground arith), any-empty f rows (ground arith))

-- The machine has an allowed CPU of the class.
pub has_class-cpu :
    (topology : SystemTopologyModel) (core_class : String)
    → has_class topology core_class ≡ true
    → (cpu : TopologyCpu) × In cpu topology.logical_cpus
      × In cpu.cpu_id topology.allowed_cpus
      × (cpu.core_class ≡ core_class)
has_class-cpu topology core_class h =
    let is_allowed = λ (cpu : TopologyCpu). contains topology.allowed_cpus cpu.cpu_id in
    let (cpu, m, same) =
      In-keys (λ (cpu : TopologyCpu). cpu.core_class) core_class
        (filter is_allowed topology.logical_cpus) h in
    let (listed, allowed) = In-of_In-filter is_allowed cpu topology.logical_cpus m in
    (cpu, listed, contains→In topology.allowed_cpus cpu.cpu_id allowed, same)

-- ===== src/Topology/Classes.antt =====
-- `enrich_cpu_core_classes` of prbench/topology.py: the core classes that the native probe reports. The
-- outcome of running the probe is input.
use parallel_reduction_bench.Prelude.{
  ◌≡◌, refl, ◌⊎◌, inl, inr, Bool, true, false, Bool-cases, not, ◌||◌, Option, none, some, String,
  String_eq, List, [], ◌∷◌, map, find_last, contains, is_empty, All, All-In, In-find_last, ◌==◌,
  if◌then◌else◌,
}
use parallel_reduction_bench.Prelude.Int.{ℤ, ℤ_eq}
use parallel_reduction_bench.Prelude.Result.{
  Result, ok, raise, ◌>>=◌, Kind, attribute_error, os_error, timeout_error, timeout_expired,
}
use parallel_reduction_bench.Models.{TopologyCpu, SystemTopologyModel}

-- An entry of the probe's `cpus`: one that is not an object, or whose fields do not convert, and one
-- with its id, class and source.
pub data ProbedCpu : Type 0 where
  malformed : ProbedCpu
  probed_cpu : ℤ → String → Option String → ProbedCpu

-- A line of the probe's output: no JSON, JSON that is no object, another event, and the event "cpu_types" with its entries.
pub data ProbeLine : Type 0 where
  not_json not_object other_event : ProbeLine
  cpu_types : List ProbedCpu → ProbeLine

-- The process: whether its exit code is 0, and its lines.
pub record ProbeRun : Type 0 where
  pub succeeded : Bool
  pub lines : List ProbeLine

abbrev pub payload_of : List ProbeLine → Result (Option (List ProbedCpu))
payload_of [] = ok none
payload_of (cpu_types cpus ∷ lines) = ok (some cpus)
payload_of (not_object ∷ lines) = raise attribute_error
payload_of (line ∷ lines) = payload_of lines

abbrev pub known_classes : List String
known_classes = "performance" ∷ "efficiency" ∷ "homogeneous" ∷ "unknown" ∷ []

abbrev pub checked_class : String → String
checked_class core_class = if contains known_classes core_class then core_class else "unknown"

abbrev pub source_of : Option String → String
source_of none = "native_cpuid"
source_of (some source) = source

-- `mapping`, as its entries in order; a later entry replaces an earlier one for the same id
unfoldable pub mapping_of : List ProbedCpu → List (ℤ × String × String)
mapping_of [] = []
mapping_of (malformed ∷ cpus) = mapping_of cpus
mapping_of (probed_cpu cpu_id core_class source ∷ cpus) =
    (cpu_id, checked_class core_class, source_of source) ∷ mapping_of cpus

abbrev pub classified : TopologyCpu → Option (ℤ × String × String) → TopologyCpu
classified cpu none = cpu
classified cpu (some (_, core_class, source)) = record cpu {
  core_class = core_class;
  core_class_source = source;
}

unfoldable pub enrich_cpu : List (ℤ × String × String) → TopologyCpu → TopologyCpu
enrich_cpu mapping cpu = classified cpu (find_last (λ entry. entry.0 == cpu.cpu_id) mapping)

unfoldable pub apply_mapping :
    List (ℤ × String × String) → SystemTopologyModel → SystemTopologyModel
apply_mapping mapping topology =
    if is_empty mapping
    then topology
    else record topology { logical_cpus = map (enrich_cpu mapping) topology.logical_cpus }

abbrev pub enrich_from : Option (List ProbedCpu) → SystemTopologyModel → SystemTopologyModel
enrich_from none topology = topology
enrich_from (some cpus) topology = apply_mapping (mapping_of cpus) topology

-- `except (OSError, subprocess.SubprocessError)`
abbrev pub is_probe_error : Kind → Bool
is_probe_error os_error = true
is_probe_error timeout_error = true
is_probe_error timeout_expired = true
is_probe_error kind = false

abbrev pub enrich_after : Result ProbeRun → SystemTopologyModel → Result SystemTopologyModel
enrich_after (raise kind) topology = if is_probe_error kind then ok topology else raise kind
enrich_after (ok run) topology =
    if run.succeeded
    then (do payload ← payload_of run.lines; ok (enrich_from payload topology))
    else ok topology

-- `exists` is whether the worker's file is there.
unfoldable pub enrich_cpu_core_classes :
    Bool → Result ProbeRun → SystemTopologyModel → Result SystemTopologyModel
enrich_cpu_core_classes exists run topology =
    if not exists || is_empty topology.allowed_cpus then ok topology else enrich_after run topology

-- The CPUs are the same but for their classes, and a class is the one from before or a known one.
pub record Reclassified (before after : TopologyCpu) : Type 0 where
  pub same :
      after
      ≡ record before { core_class = after.core_class; core_class_source = after.core_class_source }
  pub core :
      (after.core_class ≡ before.core_class) ⊎ (contains known_classes after.core_class ≡ true)

pub data Reclassifies : List TopologyCpu → List TopologyCpu → Type 0 where
  done : Reclassifies [] []
  next :
      {a b : TopologyCpu} {before after : List TopologyCpu}
      → Reclassified a b
      → Reclassifies before after
      → Reclassifies (a ∷ before) (b ∷ after)

abbrev IsKnown : ℤ × String × String → Type 0
IsKnown (_, core_class, source) = contains known_classes core_class ≡ true

checked_class-IsKnown :
    (core_class : String) → contains known_classes (checked_class core_class) ≡ true
unfolding contains
checked_class-IsKnown core_class = elim (Bool-cases (contains known_classes core_class)) [
  | inl h ↦ rw h h
  | inr h ↦ rw h refl
]

mapping_of-IsKnown : (cpus : List ProbedCpu) → All IsKnown (mapping_of cpus)
unfolding mapping_of
mapping_of-IsKnown [] = tt
mapping_of-IsKnown (malformed ∷ cpus) = mapping_of-IsKnown cpus
mapping_of-IsKnown (probed_cpu cpu_id core_class source ∷ cpus) =
    (checked_class-IsKnown core_class, mapping_of-IsKnown cpus)

same_cpu : (cpu : TopologyCpu) → Reclassified cpu cpu
same_cpu cpu = record { same = refl; core = inl refl }

same_cpus : (cpus : List TopologyCpu) → Reclassifies cpus cpus
same_cpus [] = done
same_cpus (cpu ∷ cpus) = next (same_cpu cpu) (same_cpus cpus)

classified-Reclassified :
    (cpu : TopologyCpu) (found : Option (ℤ × String × String))
    → ((entry : ℤ × String × String) → found ≡ some entry → IsKnown entry)
    → Reclassified cpu (classified cpu found)
classified-Reclassified cpu none known = same_cpu cpu
classified-Reclassified cpu (some (cpu_id, core_class, source)) known = record {
  same = refl;
  core = inr (known (cpu_id, core_class, source) refl);
}

enrich_cpus-Reclassifies :
    (mapping : List (ℤ × String × String)) (cpus : List TopologyCpu)
    → All IsKnown mapping
    → Reclassifies cpus (map (enrich_cpu mapping) cpus)
unfolding enrich_cpu
enrich_cpus-Reclassifies mapping [] known = done
enrich_cpus-Reclassifies mapping (cpu ∷ cpus) known =
    next
      (classified-Reclassified cpu (find_last (λ entry. entry.0 == cpu.cpu_id) mapping)
        (λ entry found.
          All-In IsKnown entry mapping known
            (In-find_last (λ e. e.0 == cpu.cpu_id) entry mapping found).0))
      (enrich_cpus-Reclassifies mapping cpus known)

-- The result is the topology with reclassified CPUs.
abbrev pub Enriched : SystemTopologyModel → Result SystemTopologyModel → Type 0
Enriched topology (raise kind) = Unit
Enriched topology (ok enriched) =
    (enriched ≡ record topology { logical_cpus = enriched.logical_cpus })
    × Reclassifies topology.logical_cpus enriched.logical_cpus

enrich_from-Enriched :
    (payload : Option (List ProbedCpu)) (topology : SystemTopologyModel)
    → Enriched topology (ok (enrich_from payload topology))
unfolding apply_mapping
enrich_from-Enriched none topology = (refl, same_cpus topology.logical_cpus)
enrich_from-Enriched (some cpus) topology = elim (Bool-cases (is_empty (mapping_of cpus))) [
  | inl h ↦ rw h (refl, same_cpus topology.logical_cpus)
  | inr h ↦ rw h (
    refl,
    enrich_cpus-Reclassifies (mapping_of cpus) topology.logical_cpus (mapping_of-IsKnown cpus),
  )
]

-- Whatever the probe prints, the enrichment that is returned changes nothing of the topology but the
-- classes of its CPUs and their sources, and each class it sets is one of the known ones.
pub enrich_cpu_core_classes-Enriched :
    (exists : Bool) (run : Result ProbeRun) (topology : SystemTopologyModel)
    → Enriched topology (enrich_cpu_core_classes exists run topology)
unfolding enrich_cpu_core_classes
enrich_cpu_core_classes-Enriched exists run topology =
    by_guard (not exists || is_empty topology.allowed_cpus) run
  where
    unchanged : Enriched topology (ok topology)
    unchanged = (refl, same_cpus topology.logical_cpus)

    by_payload :
        (payload : Result (Option (List ProbedCpu)))
        → Enriched topology (payload >>= (λ p. ok (enrich_from p topology)))
    by_payload (raise kind) = tt
    by_payload (ok payload) = enrich_from-Enriched payload topology

    by_if :
        (b : Bool) (r s : Result SystemTopologyModel)
        → Enriched topology r
        → Enriched topology s
        → Enriched topology (if b then r else s)
    by_if true r s h k = h
    by_if false r s h k = k

    after : (run : Result ProbeRun) → Enriched topology (enrich_after run topology)
    after (raise kind) = by_if (is_probe_error kind) (ok topology) (raise kind) unchanged tt
    after (ok run) =
        by_if run.succeeded _ (ok topology) (by_payload (payload_of run.lines)) unchanged

    by_guard :
        (b : Bool) (run : Result ProbeRun)
        → Enriched topology (if b then ok topology else enrich_after run topology)
    by_guard b run = by_if b (ok topology) _ unchanged (after run)

-- ===== src/Topology/Candidates.antt =====
-- The CPUs that `resolve_cpu_pool` of prbench/topology.py selects from.
use parallel_reduction_bench.Prelude.{
  ◌≡◌, refl, sym, ap, ◌∙◌, Bool, false, ◌&&◌, ◌||◌, inl, inr, Option, none, some, String, List, [],
  ◌∷◌, arith, eq_iff, ◌==◌, String_eq, Bool-cases, filter, All-of, filter_of_All,
}
use parallel_reduction_bench.Prelude.Int.{ℤ, ℤ_eq}
use parallel_reduction_bench.Prelude.Result.{ok}
use parallel_reduction_bench.Models.{TopologyCpu, SystemTopologyModel}
use parallel_reduction_bench.Topology.{usable, on_node, node_candidates, class_candidates}

-- The request names every CPU, or the class of this one.
abbrev pub in_class : String → TopologyCpu → Bool
in_class core_class cpu = core_class == "all" || cpu.core_class == core_class

abbrev pub wanted : SystemTopologyModel → String → Option ℤ → TopologyCpu → Bool
wanted topology core_class node cpu =
    usable topology.allowed_cpus cpu && (on_node node cpu && in_class core_class cpu)

pub filter-filter :
    {A : Type 0} (p q : A → Bool) (xs : List A)
    → filter p (filter q xs) ≡ filter (λ x. q x && p x) xs
unfolding filter
filter-filter p q [] = refl
filter-filter p q (x ∷ xs) = ground (arith, filter-filter p q xs)

filter_cong :
    {A : Type 0} (p q : A → Bool) (xs : List A) → ((x : A) → p x ≡ q x) → filter p xs ≡ filter q xs
unfolding filter
filter_cong p q [] h = refl
filter_cong p q (x ∷ xs) h = rw (h x, filter_cong p q xs h)

pub node_candidates-eq :
    (topology : SystemTopologyModel) (node : Option ℤ) (found : List TopologyCpu)
    → node_candidates topology node ≡ ok found
    → found ≡ filter (on_node node) (filter (usable topology.allowed_cpus) topology.logical_cpus)
unfolding node_candidates
node_candidates-eq topology none found h =
    let all = filter (usable topology.allowed_cpus) topology.logical_cpus in
    let e : all ≡ found = cc in
    sym e ∙ sym (filter_of_All (on_node none) all (All-of _ all (λ a. refl)))
node_candidates-eq topology (some node) found h = ground arith

class_candidates-all :
    (candidates : List TopologyCpu) → class_candidates "all" candidates ≡ ok candidates
unfolding class_candidates
class_candidates-all candidates = refl

-- A request that is not for all CPUs keeps those of its class.
class_candidates-ne :
    (core_class : String) (candidates found : List TopologyCpu)
    → (core_class == "all") ≡ false
    → class_candidates core_class candidates ≡ ok found
    → found ≡ filter (λ c. c.core_class == core_class) candidates
unfolding class_candidates
class_candidates-ne core_class candidates found e h = ground arith

pub class_candidates-eq :
    (core_class : String) (candidates found : List TopologyCpu)
    → class_candidates core_class candidates ≡ ok found
    → found ≡ filter (in_class core_class) candidates
class_candidates-eq core_class candidates found h = elim (Bool-cases (core_class == "all")) [
  | inl e ↦
      let named = (eq_iff core_class "all").0 e in
      let same : candidates ≡ found =
        cc (ap (λ c. class_candidates c candidates) named, class_candidates-all candidates) in
      sym same
      ∙ sym (filter_of_All (in_class core_class) candidates (All-of _ candidates (λ c. rw e refl)))
  | inr e ↦
      class_candidates-ne core_class candidates found e h
      ∙ sym (
          filter_cong (in_class core_class) (λ c. c.core_class == core_class) candidates
            (λ c. rw e refl))
]

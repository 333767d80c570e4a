-- ===== src/Sweep/Control/Cores.antt =====
-- The control CPUs that `_assign_gpu_control_cpus` of prbench/sweep.py chooses.
use parallel_reduction_bench.Prelude.{
  ◌≡◌, refl, sym, ap, subst, Bool, true, false, inl, inr, some, String, List, [], ◌∷◌, map, arith,
  String_eq, pair_eq, Option-cases, contains, dedupe-All, contains_self, not-In,
  contains-cons_false, filter-All, find, sort-All, All, All-filter, All-map, All-imp, All-In, In,
  In-find, IsDistinct,
}
use parallel_reduction_bench.Prelude.Int.{ℤ, ℤ_eq, eqb_ℤ_iff, leb_ℤ}
use parallel_reduction_bench.Prelude.Result.{
  ok, require, require-eq-ok, value_error, assertion_error, >>=-eq-ok, ok-injective,
}
use parallel_reduction_bench.Models.{TopologyCpu, TopologyGpu, SystemTopologyModel}
use parallel_reduction_bench.Topology
use parallel_reduction_bench.Sweep.Control.{
  Binding, Assignment, Choice, choice_key, binding, core_key, numa_local, tiers, is_free, choose,
  choose_for, take_core, assign_loop, assign_gpu_control_cpus,
}

module _ (topology : SystemTopologyModel) where
  abbrev pub allowed : ℤ → Bool
  allowed = contains topology.allowed_cpus

  numa_local-allowed : (gpu : TopologyGpu) → All (λ c. allowed c ≡ true) (numa_local topology gpu)
  unfolding numa_local
  numa_local-allowed gpu =
      All-map (λ c. allowed c ≡ true) (λ cpu. cpu.cpu_id) _
        (All-imp _ (λ cpu t. ground arith) (filter-All _ topology.logical_cpus))

  pub tiers-allowed :
      (cpu_pool : List ℤ) (gpu : TopologyGpu)
      → All (λ tier. All (λ c. allowed c ≡ true) tier.1) (tiers topology cpu_pool gpu)
  unfolding tiers
  tiers-allowed cpu_pool gpu =
      let P = λ (c : ℤ). allowed c ≡ true in
      let local = filter-All allowed gpu.local_cpus in
      (
        All-filter P _ _ local,
        (
          All-filter P _ _ (numa_local-allowed gpu),
          (
            filter-All allowed _,
            (
              local,
              (
                numa_local-allowed gpu,
                (sort-All leb_ℤ P _ (dedupe-All P _ (contains_self topology.allowed_cpus)), tt),
              ),
            ),
          ),
        ),
      )

  -- What is chosen comes from a tier, and its core is known and free.
  pub choose-free :
      (P : ℤ → Type 0) (used : List (ℤ × ℤ)) (ts : List (String × List ℤ)) (found : String × ℤ)
      → All (λ tier. All P tier.1) ts
      → choose topology used ts ≡ some found
      → P found.1 × (is_free topology used found.1 ≡ true)
  unfolding choose
  choose-free P used [] found h e = absurd (cc)
  choose-free P used ((name, candidates) ∷ ts) found h e =
      elim (Option-cases (find (is_free topology used) candidates)) [
        | inl missing ↦ choose-free P used ts found h.1 (ground arith)
        | inr (c, here) ↦
            let (m, free) = In-find (is_free topology used) c candidates here in
            let same : c ≡ found.1 = ground arith in
            (rw (← same) (All-In P c candidates h.0 m), rw (← same) free)
      ]

  -- The CPU chosen for a GPU is allowed and known, and its core is not in use.
  pub record IsControl (used : List (ℤ × ℤ)) (gpu_id : ℤ) (choice : Choice) : Type 0 where
    pub for_gpu : choice.gpu.index ≡ gpu_id
    pub gpu_listed : In choice.gpu topology.gpus
    pub chosen_allowed : allowed choice.chosen ≡ true
    pub chosen_known : Topology.cpu_by_id topology choice.chosen ≡ some choice.cpu
    pub core_free : contains used (choice_key choice) ≡ false

  free_core :
      (used : List (ℤ × ℤ)) (c : ℤ) (cpu : TopologyCpu)
      → Topology.cpu_by_id topology c ≡ some cpu
      → is_free topology used c ≡ true
      → contains used (cpu.socket_id, cpu.core_id) ≡ false
  unfolding is_free core_key
  free_core used c cpu e f = ground arith

  pub choose_for-IsControl :
      (cpu_pool : List ℤ) (used : List (ℤ × ℤ)) (gpu_id : ℤ) (choice : Choice)
      → choose_for topology cpu_pool used gpu_id ≡ ok choice
      → IsControl used gpu_id choice
  unfolding choose_for
  choose_for-IsControl cpu_pool used gpu_id choice h =
      let (gpu, e₁, h₁) = >>=-eq-ok (require value_error (find _ topology.gpus)) _ h in
      let (found, e₂, h₂) = >>=-eq-ok (require value_error (choose topology used _)) _ h₁ in
      let (cpu, e₃, h₃) = >>=-eq-ok (require assertion_error _) _ h₂ in
      let (listed, index) = In-find _ gpu topology.gpus (require-eq-ok _ _ gpu e₁) in
      let known = require-eq-ok assertion_error _ cpu e₃ in
      let (fine, free) =
        choose-free (λ c. allowed c ≡ true) used _ found (tiers-allowed cpu_pool gpu)
          (require-eq-ok _ _ found e₂) in
      subst (IsControl used gpu_id) (ok-injective h₃) (record {
        for_gpu = (eqb_ℤ_iff gpu.index gpu_id).0 index;
        gpu_listed = listed;
        chosen_allowed = fine;
        chosen_known = known;
        core_free = free_core used found.1 cpu known free;
      })

-- The physical core of a binding.
abbrev pub core_of : Binding → ℤ × ℤ
core_of b = (b.socket_id, b.core_id)

-- One binding for each GPU, in order, each on an allowed CPU that lies on the core it names; no two
-- share a core, and none is on a core in use.
pub record IsAssigned (topology : SystemTopologyModel) (used : List (ℤ × ℤ)) (gpu_ids : List ℤ)
    (a : Assignment) : Type 0 where
  pub one_each : map (λ b. b.gpu_id) a.bindings ≡ gpu_ids
  pub workers_of : map (λ b. b.cpu_id) a.bindings ≡ a.workers
  pub on_core :
      All
        (λ b.
          (allowed topology b.cpu_id ≡ true)
          × (core_key topology b.cpu_id ≡ some (core_of b))
          × (contains used (core_of b) ≡ false))
        a.bindings
  pub distinct : IsDistinct (map core_of a.bindings)

module _ (topology : SystemTopologyModel) (cpu_pool : List ℤ) (mode : String) where
  core_key-known :
      (c : ℤ) (cpu : TopologyCpu)
      → Topology.cpu_by_id topology c ≡ some cpu
      → core_key topology c ≡ some (cpu.socket_id, cpu.core_id)
  unfolding core_key
  core_key-known c cpu e = ground arith

  not-In-cores :
      (key : ℤ × ℤ) (used : List (ℤ × ℤ)) (bs : List Binding)
      → All (λ b. contains (key ∷ used) (core_of b) ≡ false) bs
      → ¬ In key (map core_of bs)
  not-In-cores key used [] h m = m
  not-In-cores key used (b ∷ bs) h (inl e) = not-In (key ∷ used) (core_of b) h.0 (inl (sym e))
  not-In-cores key used (b ∷ bs) h (inr m) = not-In-cores key used bs h.1 m

  IsAssigned-cons :
      (used : List (ℤ × ℤ)) (gpu_id : ℤ) (gpu_ids : List ℤ) (choice : Choice) (a : Assignment)
      → IsControl topology used gpu_id choice
      → IsAssigned topology (choice_key choice ∷ used) gpu_ids a
      → IsAssigned topology used (gpu_id ∷ gpu_ids) (record {
        remaining = a.remaining;
        workers = choice.chosen ∷ a.workers;
        bindings = binding mode gpu_id choice ∷ a.bindings;
      })
  IsAssigned-cons used gpu_id gpu_ids choice a c h = record {
    one_each = ap (◌∷◌ gpu_id) h.one_each;
    workers_of = ap (◌∷◌ choice.chosen) h.workers_of;
    on_core = (
      (c.chosen_allowed, core_key-known choice.chosen choice.cpu c.chosen_known, c.core_free),
      All-imp a.bindings
          (λ b p. (p.0, p.1, (contains-cons_false (choice_key choice) (core_of b) used p.2).1))
          h.on_core,
    );
    distinct = (
      not-In-cores (choice_key choice) used a.bindings (All-imp a.bindings (λ b p. p.2) h.on_core),
      h.distinct,
    );
  }

  -- What a round that does not raise leaves.
  pub assign_loop-cons :
      (used : List (ℤ × ℤ)) (remaining : List ℤ) (gpu_id : ℤ) (gpu_ids : List ℤ) (a : Assignment)
      → assign_loop topology cpu_pool mode used remaining (gpu_id ∷ gpu_ids) ≡ ok a
      → (choice : Choice) × (rest : Assignment) × (choose_for topology cpu_pool used gpu_id
          ≡ ok choice)
        × (assign_loop topology cpu_pool mode
              (choice_key choice ∷ used)
              (take_core topology mode (choice_key choice) remaining)
              gpu_ids
            ≡ ok rest)
        × (a ≡ record {
          remaining = rest.remaining;
          workers = choice.chosen ∷ rest.workers;
          bindings = binding mode gpu_id choice ∷ rest.bindings;
        })
  unfolding assign_loop
  assign_loop-cons used remaining gpu_id gpu_ids a h =
      let (choice, e, h') = >>=-eq-ok (choose_for topology cpu_pool used gpu_id) _ h in
      let (rest, e', h'') =
        >>=-eq-ok
          (assign_loop topology cpu_pool mode (choice_key choice ∷ used)
            (take_core topology mode (choice_key choice) remaining) gpu_ids)
          _ h' in
      (choice, rest, e, e', sym (ok-injective h''))

  pub assign_loop-IsAssigned :
      (used : List (ℤ × ℤ)) (remaining gpu_ids : List ℤ) (a : Assignment)
      → assign_loop topology cpu_pool mode used remaining gpu_ids ≡ ok a
      → IsAssigned topology used gpu_ids a
  unfolding assign_loop
  assign_loop-IsAssigned used remaining [] a h =
      subst (IsAssigned topology used []) (ok-injective h)
        (record { one_each = refl; workers_of = refl; on_core = tt; distinct = tt })
  assign_loop-IsAssigned used remaining (gpu_id ∷ gpu_ids) a h =
      let (choice, rest, e, e', same) = assign_loop-cons used remaining gpu_id gpu_ids a h in
      subst (IsAssigned topology used (gpu_id ∷ gpu_ids)) (sym same) (
        IsAssigned-cons used gpu_id gpu_ids choice rest
          (choose_for-IsControl topology cpu_pool used gpu_id choice e)
          (assign_loop-IsAssigned (choice_key choice ∷ used)
            (take_core topology mode (choice_key choice) remaining) gpu_ids rest e'))

  -- A successful assignment has one worker for each GPU, in order; each runs on an allowed CPU, and
  -- no two of them share a physical core.
  pub assign_gpu_control_cpus-IsAssigned :
      (gpu_ids : List ℤ) (a : Assignment)
      → assign_gpu_control_cpus topology cpu_pool gpu_ids mode ≡ ok a
      → IsAssigned topology [] gpu_ids a
  unfolding assign_gpu_control_cpus
  assign_gpu_control_cpus-IsAssigned [] a h =
      subst (IsAssigned topology [] []) (ok-injective h)
        (record { one_each = refl; workers_of = refl; on_core = tt; distinct = tt })
  assign_gpu_control_cpus-IsAssigned (g ∷ gs) a h =
      assign_loop-IsAssigned [] cpu_pool (g ∷ gs) a (ground arith)

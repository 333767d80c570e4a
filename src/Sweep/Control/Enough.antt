-- ===== src/Sweep/Control/Enough.antt =====
-- When `_assign_gpu_control_cpus` of prbench/sweep.py finds a control CPU for every GPU.
use parallel_reduction_bench.Prelude.{
  ◌+◌, ◌≤◌, ◌≡◌, refl, sym, ◌∙◌, Bool, true, false, not, ◌||◌, ◌⊎◌, ◌≢◌, inl, inr, Option, none,
  some, String, List, [], ◌∷◌, map, arith, ◌==◌, String_eq, pair_eq, pair_beq, pair_beq_iff,
  Bool-cases, Option-cases, length, contains, contains→In, In-dedupe, filter, find, find-none,
  In-sort, All, All-imp, All-In, All-filter, filter-All, filter_of_All, In, In-of_In-map,
  In-of_In-filter, IsDistinct,
}
use parallel_reduction_bench.Prelude.Int.{ℤ, ℤ_eq, eqb_ℤ_iff, leb_ℤ}
use parallel_reduction_bench.Prelude.Result.{ok, require}
use parallel_reduction_bench.Models.{TopologyCpu, TopologyGpu, SystemTopologyModel}
use parallel_reduction_bench.Topology
use parallel_reduction_bench.Sweep.Control.{
  Assignment, Choice, choice_key, binding, core_key, tiers, is_free, choose, choose_for, take_core,
  assign_loop, assign_gpu_control_cpus,
}
use parallel_reduction_bench.Sweep.Control.Cores.{choose-free, tiers-allowed, allowed}

-- A core that is not in use, on which an allowed CPU of the machine lies.
pub record IsFreeCore (topology : SystemTopologyModel) (used : List (ℤ × ℤ)) (key : ℤ × ℤ)
    : Type 0 where
  pub cpu_id : ℤ
  pub cpu_allowed : allowed topology cpu_id ≡ true
  pub cpu_core : core_key topology cpu_id ≡ some key
  pub unused : contains used key ≡ false

module _ (topology : SystemTopologyModel) where
  pub choose-none :
      (used : List (ℤ × ℤ)) (ts : List (String × List ℤ))
      → choose topology used ts ≡ none
      → All (λ tier. All (λ c. is_free topology used c ≡ false) tier.1) ts
  unfolding choose
  choose-none used [] h = tt
  choose-none used ((name, candidates) ∷ ts) h =
      elim (Option-cases (find (is_free topology used) candidates)) [
        | inl missing ↦ (find-none _ candidates missing, choose-none used ts (ground arith))
        | inr (c, here) ↦ absurd (ground arith)
      ]

  is_free_of_unused :
      (used : List (ℤ × ℤ)) (key : ℤ × ℤ) (c : ℤ)
      → core_key topology c ≡ some key
      → contains used key ≡ false
      → is_free topology used c ≡ true
  unfolding is_free
  is_free_of_unused used key c e f = ground arith

  -- the last tier holds every allowed CPU
  choose-some :
      (cpu_pool : List ℤ) (gpu : TopologyGpu) (used : List (ℤ × ℤ)) (key : ℤ × ℤ)
      → IsFreeCore topology used key
      → choose topology used (tiers topology cpu_pool gpu) ≢ none
  unfolding tiers
  choose-some cpu_pool gpu used key c h =
      let last = (choose-none used (tiers topology cpu_pool gpu) h).1.1.1.1.1.0 in
      cc (
        is_free_of_unused used key c.cpu_id c.cpu_core c.unused,
        All-In (λ x. is_free topology used x ≡ false) c.cpu_id _ last
            (In-sort leb_ℤ c.cpu_id _ (
              In-dedupe c.cpu_id topology.allowed_cpus
                (contains→In topology.allowed_cpus c.cpu_id c.cpu_allowed))),
      )

  known_of_free :
      (used : List (ℤ × ℤ)) (c : ℤ)
      → is_free topology used c ≡ true
      → (cpu : TopologyCpu) × (Topology.cpu_by_id topology c ≡ some cpu)
  unfolding is_free core_key
  known_of_free used c h = elim (Option-cases (Topology.cpu_by_id topology c)) [
    | inl e ↦ absurd (ground arith)
    | inr found ↦ found
  ]

  abbrev by_index : ℤ → Option TopologyGpu
  by_index gpu_id = find (λ item. item.index == gpu_id) topology.gpus

  choose_for-total :
      (cpu_pool : List ℤ) (used : List (ℤ × ℤ)) (gpu_id : ℤ) (key : ℤ × ℤ)
      → by_index gpu_id ≢ none
      → IsFreeCore topology used key
      → (choice : Choice) × (choose_for topology cpu_pool used gpu_id ≡ ok choice)
  unfolding choose_for require
  choose_for-total cpu_pool used gpu_id key listed c = elim (Option-cases (by_index gpu_id)) [
    | inl missing ↦ absurd (listed missing)
    | inr (gpu, e) ↦ elim (Option-cases (choose topology used (tiers topology cpu_pool gpu))) [
      | inl missing ↦ absurd (choose-some cpu_pool gpu used key c missing)
      | inr (found, e') ↦
          let (_, free) =
            choose-free topology (λ c. allowed topology c ≡ true) used _ found
              (tiers-allowed topology cpu_pool gpu) e' in
          let (cpu, e'') = known_of_free used found.1 free in
          (
            record { locality = found.0; gpu = gpu; chosen = found.1; cpu = cpu },
            rw (e, e', e'') refl,
          )
    ]
  ]

abbrev off : ℤ × ℤ → ℤ × ℤ → Bool
off key k = not (k == key)

length-filter-off :
    (key : ℤ × ℤ) (cores : List (ℤ × ℤ))
    → IsDistinct cores
    → length cores ≤ length (filter (off key) cores) + 1
unfolding filter
length-filter-off key [] d = omega arith
length-filter-off key (k ∷ cores) d = elim (Bool-cases (k == key)) [
  | inl e ↦
      let same : k ≡ key = (pair_beq_iff k key).0 e in
      let others : filter (off key) cores ≡ cores =
        filter_of_All (off key) cores (apart same cores d.0) in
      rw (e, others) (omega arith)
  | inr e ↦ rw e (omega (arith, length-filter-off key cores d.1))
]
  where
    apart : k ≡ key → (ks : List (ℤ × ℤ)) → ¬ In k ks → All (λ j. off key j ≡ true) ks
    apart same [] h = tt
    apart same (j ∷ ks) h = (differs (Bool-cases (j == key)), apart same ks (λ m. h (inr m)))
      where
        differs : (pair_beq j key ≡ true) ⊎ (pair_beq j key ≡ false) → off key j ≡ true
        differs (inl t) = absurd (h (inl (same ∙ sym ((pair_beq_iff j key).0 t))))
        differs (inr f) = rw f refl

filter-IsDistinct :
    (p : ℤ × ℤ → Bool) (cores : List (ℤ × ℤ)) → IsDistinct cores → IsDistinct (filter p cores)
unfolding filter
filter-IsDistinct p [] d = tt
filter-IsDistinct p (k ∷ cores) d = elim (Bool-cases (p k)) [
  | inl e ↦ rw e (λ m. d.0 ((In-of_In-filter p k cores m).0), filter-IsDistinct p cores d.1)
  | inr e ↦ rw e (filter-IsDistinct p cores d.1)
]

module _ (topology : SystemTopologyModel) (cpu_pool : List ℤ) (mode : String) where
  IsFreeCore-cons :
      (used : List (ℤ × ℤ)) (key k : ℤ × ℤ)
      → IsFreeCore topology used k
      → off key k ≡ true
      → IsFreeCore topology (key ∷ used) k
  unfolding contains
  IsFreeCore-cons used key k c h = record {
    cpu_id = c.cpu_id;
    cpu_allowed = c.cpu_allowed;
    cpu_core = c.cpu_core;
    unused = unused' c.unused;
  }
    where
      unused' : contains used k ≡ false → contains (key ∷ used) k ≡ false
      unused' u = ground arith

  assign_loop-total :
      (used : List (ℤ × ℤ)) (remaining gpu_ids : List ℤ) (cores : List (ℤ × ℤ))
      → All (λ g. by_index topology g ≢ none) gpu_ids
      → IsDistinct cores
      → All (IsFreeCore topology used) cores
      → length gpu_ids ≤ length cores
      → (a : Assignment) × (assign_loop topology cpu_pool mode used remaining gpu_ids ≡ ok a)
  unfolding assign_loop
  assign_loop-total used remaining [] cores listed d free enough =
      (record { remaining = remaining; workers = []; bindings = [] }, refl)
  assign_loop-total used remaining (g ∷ gs) [] listed d free enough = absurd (omega arith)
  assign_loop-total used remaining (g ∷ gs) (k ∷ cores) listed d free enough =
      let (choice, e) = choose_for-total topology cpu_pool used g k listed.0 free.0 in
      let key = choice_key choice in
      let left = filter (off key) (k ∷ cores) in
      let (a, e') =
        assign_loop-total (key ∷ used) (take_core topology mode key remaining) gs left listed.1
          (filter-IsDistinct (off key) (k ∷ cores) d)
          (both left (filter-All (off key) (k ∷ cores))
            (All-filter (IsFreeCore topology used) (off key) (k ∷ cores) free)
            (IsFreeCore-cons used key))
          (omega (arith, length-filter-off key (k ∷ cores) d)) in
      (
        record {
          remaining = a.remaining;
          workers = choice.chosen ∷ a.workers;
          bindings = binding mode g choice ∷ a.bindings;
        },
        rw (e, e') refl,
      )
    where
      both :
          {P Q R : ℤ × ℤ → Type 0} (ks : List (ℤ × ℤ))
          → All P ks
          → All Q ks
          → ((j : ℤ × ℤ) → Q j → P j → R j)
          → All R ks
      both [] p q f = tt
      both (j ∷ ks) p q f = (f j q.0 p.0, both ks p.1 q.1 f)

  by_index-some : (g : ℤ) → In g (map (λ gpu. gpu.index) topology.gpus) → by_index topology g ≢ none
  by_index-some g m missing =
      let (gpu, i, e) = In-of_In-map (λ item. item.index) g topology.gpus m in
      let other =
        All-In _ gpu topology.gpus (find-none (λ item. item.index == g) topology.gpus missing) i in
      cc (other, (eqb_ℤ_iff gpu.index g).1 (sym e))

  -- In a mode that exists, the assignment succeeds for GPUs of the machine as soon as there are at
  -- least as many different physical cores with an allowed CPU as GPUs.
  pub assign_gpu_control_cpus-total :
      (gpu_ids : List ℤ) (cores : List (ℤ × ℤ))
      → (mode == "dedicated" || mode == "shared") ≡ true
      → All (λ g. In g (map (λ gpu. gpu.index) topology.gpus)) gpu_ids
      → IsDistinct cores
      → All (IsFreeCore topology []) cores
      → length gpu_ids ≤ length cores
      → (a : Assignment) × (assign_gpu_control_cpus topology cpu_pool gpu_ids mode ≡ ok a)
  unfolding assign_gpu_control_cpus
  assign_gpu_control_cpus-total [] cores known listed d free enough =
      (record { remaining = cpu_pool; workers = []; bindings = [] }, refl)
  assign_gpu_control_cpus-total (g ∷ gs) cores known listed d free enough = rw known (
      assign_loop-total [] cpu_pool (g ∷ gs) cores (All-imp (g ∷ gs) by_index-some listed) d free
        enough)

-- ===== src/Topology/Pool.antt =====
-- `resolve_cpu_pool` of prbench/topology.py: what a resolved pool holds.
use parallel_reduction_bench.Prelude.{
  ◌≡◌, refl, sym, ap, subst, ◌∙◌, ◌↔◌, true, false, ◌⊎◌, inl, inr, Option, none, some, String, List,
  [], ◌∷◌, map, arith, ◌==◌, String_eq, Bool-cases, Option-cases, contains, contains→In, filter,
  is_empty, is_empty→nil, All, All-map, All-imp, In, In-map, In-of_In-map, In-of_In-filter,
  In-filter, In-find_last, none_of_filter, filter_of_none, IsSorted, sort, sort-IsSorted, In-sort,
  In-of_In-sort, All-self,
}
use parallel_reduction_bench.Prelude.Int.{ℤ, ℤ_eq, leb_ℤ, eqb_ℤ_iff, leb_ℤ_total, leb_ℤ_trans}
use parallel_reduction_bench.Prelude.Result.{ok, raise, value_error, >>=-eq-ok}
use parallel_reduction_bench.Models.{TopologyCpu, SystemTopologyModel}
use parallel_reduction_bench.Topology.{
  id_le, usable, cpu_by_id, unavailable, explicit_pool, node_candidates, class_candidates,
  with_policy, choose_one_thread_per_core, resolve_cpu_pool,
}
use parallel_reduction_bench.Topology.Cores.{choose_one_thread_per_core-Chosen}
use parallel_reduction_bench.Topology.Candidates.{
  wanted, in_class, filter-filter, node_candidates-eq, class_candidates-eq,
}

-- The id of an online, allowed CPU of the machine, on the NUMA node and in the class asked for.
pub record IsCandidate (topology : SystemTopologyModel) (core_class : String) (node : Option ℤ)
    (id : ℤ) : Type 0 where
  pub cpu : TopologyCpu
  pub listed : In cpu topology.logical_cpus
  pub named : id ≡ cpu.cpu_id
  pub meets : wanted topology core_class node cpu ≡ true

module _ (topology : SystemTopologyModel) (core_class thread_policy : String)
    (node : Option ℤ) where
  -- The ids of the machine's CPUs that meet the request, in order.
  abbrev pub requested : List ℤ
  requested =
      map (λ c. c.cpu_id)
        (sort id_le (filter (wanted topology core_class node) topology.logical_cpus))

  -- A pool without explicit ids is the policy applied to the sorted ids of the CPUs that meet the
  -- request.
  pub resolve_cpu_pool-eq :
      (pool : List ℤ)
      → resolve_cpu_pool topology core_class thread_policy node none ≡ ok pool
      → with_policy topology thread_policy requested ≡ ok pool
  unfolding resolve_cpu_pool
  resolve_cpu_pool-eq pool h =
      let (local, e, h') = >>=-eq-ok (node_candidates topology node) _ h in
      let (found, e', h'') = >>=-eq-ok (class_candidates core_class local) _ h' in
      subst
        (λ cpus.
          with_policy topology thread_policy (map (λ c. c.cpu_id) (sort id_le cpus)) ≡ ok pool)
        (class_candidates-eq core_class local found e'
          ∙ ap (filter (in_class core_class)) (node_candidates-eq topology node local e)
          ∙ filter-filter _ _ _
          ∙ filter-filter _ _ _)
        h''

  In-requested : (id : ℤ) → In id requested → IsCandidate topology core_class node id
  In-requested id m =
      let (cpu, i, e) = In-of_In-map (λ c. c.cpu_id) id (sort id_le _) m in
      let (j, t) =
        In-of_In-filter (wanted topology core_class node) cpu _ (In-of_In-sort id_le cpu _ i) in
      record { cpu = cpu; listed = j; named = e; meets = t }

  with_policy_cases :
      (ids pool : List ℤ)
      → with_policy topology thread_policy ids ≡ ok pool
      → (pool ≡ ids) ⊎ (pool ≡ choose_one_thread_per_core topology ids)
  unfolding with_policy
  with_policy_cases ids pool h = ground arith

  chosen-In :
      (ids : List ℤ) (chosen : List TopologyCpu)
      → All (λ c. usable ids c ≡ true) chosen
      → All (λ id. In id ids) (map (λ c. c.cpu_id) chosen)
  chosen-In ids [] h = tt
  chosen-In ids (c ∷ cs) h = (contains→In ids c.cpu_id (allowed c h.0), chosen-In ids cs h.1)
    where
      allowed : (c : TopologyCpu) → usable ids c ≡ true → contains ids c.cpu_id ≡ true
      allowed c u = ground arith

  -- Every id of a pool without explicit ids is that of an online, allowed CPU of the machine, on the
  -- NUMA node and in the core class that were asked for.
  pub resolve_cpu_pool-IsCandidate :
      (pool : List ℤ)
      → resolve_cpu_pool topology core_class thread_policy node none ≡ ok pool
      → All (IsCandidate topology core_class node) pool
  resolve_cpu_pool-IsCandidate pool h = All-imp pool In-requested members
    where
      members : All (λ id. In id requested) pool
      members = elim (with_policy_cases requested pool (resolve_cpu_pool-eq pool h)) [
        | inl e ↦ rw e (All-self requested)
        | inr e ↦
            let found = choose_one_thread_per_core-Chosen topology requested in
            rw (e, found.ids_of)
              (chosen-In requested found.chosen (All-imp found.chosen (λ c p. p.1) found.each))
      ]

  with_policy-all : (ids : List ℤ) → with_policy topology "all_threads" ids ≡ ok ids
  unfolding with_policy
  with_policy-all ids = refl

  map-IsSorted :
      (cpus : List TopologyCpu) → IsSorted id_le cpus → IsSorted leb_ℤ (map (λ c. c.cpu_id) cpus)
  map-IsSorted [] h = tt
  map-IsSorted (c ∷ cpus) h =
      (All-map (λ y. leb_ℤ c.cpu_id y ≡ true) (λ x. x.cpu_id) cpus h.0, map-IsSorted cpus h.1)

  -- With all threads and no explicit ids, the pool is sorted and holds exactly the ids of the online,
  -- allowed CPUs of the machine that are on the node and in the class asked for.
  pub resolve_cpu_pool-IsSelection :
      (pool : List ℤ)
      → thread_policy ≡ "all_threads"
      → resolve_cpu_pool topology core_class thread_policy node none ≡ ok pool
      → IsSorted leb_ℤ pool × ((id : ℤ) → In id pool ↔ IsCandidate topology core_class node id)
  resolve_cpu_pool-IsSelection pool all h =
      subst
        (λ ids.
          IsSorted leb_ℤ ids × ((id : ℤ) → In id ids ↔ IsCandidate topology core_class node id))
        same (ordered, λ id. (In-requested id, held id))
    where
      same : requested ≡ pool
      same = cc (
        resolve_cpu_pool-eq pool h,
        with_policy-all requested,
        ap (λ p. with_policy topology p requested) all,
      )

      held : (id : ℤ) → IsCandidate topology core_class node id → In id requested
      held id c =
          subst (λ i. In i requested) (sym c.named)
            (In-map (λ c. c.cpu_id) c.cpu (sort id_le _)
              (In-sort id_le c.cpu _
                (In-filter c.cpu (wanted topology core_class node) _ c.listed c.meets)))

      ordered : IsSorted leb_ℤ requested
      ordered = map-IsSorted _ (
          sort-IsSorted id_le (λ a b. leb_ℤ_total a.cpu_id b.cpu_id)
            (λ a b c. leb_ℤ_trans a.cpu_id b.cpu_id c.cpu_id) _)

module _ (topology : SystemTopologyModel) (core_class thread_policy : String)
    (node : Option ℤ) where
  -- Explicit ids are returned as they stand if each is allowed, known and online; otherwise the
  -- call raises a ValueError.
  pub resolve_cpu_pool-explicit :
      (ids : List ℤ)
      → All (λ c. unavailable topology c ≡ false) ids
          × (resolve_cpu_pool topology core_class thread_policy node (some ids) ≡ ok ids)
        ⊎ (¬ All (λ c. unavailable topology c ≡ false) ids)
          × (resolve_cpu_pool topology core_class thread_policy node (some ids) ≡ raise value_error)
  unfolding resolve_cpu_pool explicit_pool
  resolve_cpu_pool-explicit ids = elim (Bool-cases (is_empty (filter (unavailable topology) ids))) [
    | inl e ↦ inl (none_of_filter _ ids (is_empty→nil _ e), rw e refl)
    | inr e ↦ inr (λ h. cc (ap is_empty (filter_of_none (unavailable topology) ids h)), rw e refl)
  ]

  available-IsCandidate :
      (id : ℤ) → unavailable topology id ≡ false → IsCandidate topology "all" none id
  unfolding unavailable cpu_by_id
  available-IsCandidate id h = elim (Option-cases (cpu_by_id topology id)) [
    | inl e ↦ absurd (ground arith)
    | inr (cpu, e) ↦
        let (listed, named) = In-find_last (λ c. c.cpu_id == id) cpu topology.logical_cpus e in
        let same : cpu.cpu_id ≡ id = (eqb_ℤ_iff cpu.cpu_id id).0 named in
        record {
          cpu = cpu;
          listed = listed;
          named = sym same;
          meets = online cpu same (ground arith) (ground arith);
        }
  ]
    where
      online :
          (cpu : TopologyCpu)
          → cpu.cpu_id ≡ id
          → cpu.online ≡ true
          → contains topology.allowed_cpus id ≡ true
          → wanted topology "all" none cpu ≡ true
      online cpu same on allowed = ground (arith, ap (contains topology.allowed_cpus) same)

  -- Each id of a pool of explicit ids belongs to an online, allowed CPU of the machine, whatever
  -- class and NUMA node were asked for.
  pub resolve_cpu_pool-explicit_online :
      (ids pool : List ℤ)
      → resolve_cpu_pool topology core_class thread_policy node (some ids) ≡ ok pool
      → All (IsCandidate topology "all" none) pool
  resolve_cpu_pool-explicit_online ids pool h = elim (resolve_cpu_pool-explicit ids) [
    | inl (available, e) ↦
        let same : ids ≡ pool = cc in
        subst (All (IsCandidate topology "all" none)) same
          (All-imp ids available-IsCandidate available)
    | inr (_, e) ↦ absurd (cc)
  ]

module _ (topology : SystemTopologyModel) (core_class thread_policy : String)
    (node : Option ℤ) where
  weaken : (id : ℤ) → IsCandidate topology core_class node id → IsCandidate topology "all" none id
  weaken id c = record {
    cpu = c.cpu;
    listed = c.listed;
    named = c.named;
    meets = usable_of_wanted c.cpu c.meets;
  }
    where
      usable_of_wanted :
          (cpu : TopologyCpu)
          → wanted topology core_class node cpu ≡ true
          → wanted topology "all" none cpu ≡ true
      usable_of_wanted cpu h = ground arith

  -- Whatever was asked for, each id of a pool belongs to an online, allowed CPU of the machine.
  pub resolve_cpu_pool-online :
      (explicit_ids : Option (List ℤ)) (pool : List ℤ)
      → resolve_cpu_pool topology core_class thread_policy node explicit_ids ≡ ok pool
      → All (IsCandidate topology "all" none) pool
  resolve_cpu_pool-online none pool h =
      All-imp pool weaken
        (resolve_cpu_pool-IsCandidate topology core_class thread_policy node pool h)
  resolve_cpu_pool-online (some ids) pool h =
      resolve_cpu_pool-explicit_online topology core_class thread_policy node ids pool h

-- ===== src/Topology/Cores.antt =====
-- `choose_one_thread_per_core` of prbench/topology.py: one usable CPU for each physical core.
use parallel_reduction_bench.Prelude.{
  ◌≡◌, refl, sym, ap, subst, true, false, ◌⊎◌, inl, inr, List, [], ◌∷◌, map, arith, pair_eq,
  contains, not-In, All, contains-cons_false, contains-cons_cases, All-In, All-imp, All-self, In,
  In-of_In-filter, filter, IsDistinct, IsSorted, sort, sort-IsSorted, In-sort, In-of_In-sort,
}
use parallel_reduction_bench.Prelude.Int.{ℤ, ℤ_eq, leb_ℤ, leb_ℤ_refl, leb_ℤ_total, leb_ℤ_trans}
use parallel_reduction_bench.Models.{TopologyCpu, SystemTopologyModel}
use parallel_reduction_bench.Topology.{
  core_key, id_le, usable, choose_loop, choose_one_thread_per_core,
}

-- The chosen ids belong to usable CPUs of the list, on pairwise different cores outside `seen`.
pub record Chosen (allowed : List ℤ) (seen : List (ℤ × ℤ)) (cpus : List TopologyCpu) (ids : List ℤ)
    : Type 0 where
  pub chosen : List TopologyCpu
  pub ids_of : ids ≡ map (λ c. c.cpu_id) chosen
  pub each :
      All (λ c. In c cpus × (usable allowed c ≡ true) × (contains seen (core_key c) ≡ false)) chosen
  pub distinct : IsDistinct (map core_key chosen)

not-In-map :
    (k : ℤ × ℤ) (seen : List (ℤ × ℤ)) (cs : List TopologyCpu)
    → All (λ c. contains (k ∷ seen) (core_key c) ≡ false) cs
    → ¬ In k (map core_key cs)
not-In-map k seen [] h m = m
not-In-map k seen (c ∷ cs) h (inl e) = not-In (k ∷ seen) (core_key c) h.0 (inl (sym e))
not-In-map k seen (c ∷ cs) h (inr m) = not-In-map k seen cs h.1 m

module _ (allowed : List ℤ) where
  Chosen-skip :
      (seen : List (ℤ × ℤ)) (cpu : TopologyCpu) (cpus : List TopologyCpu) (ids : List ℤ)
      → Chosen allowed seen cpus ids
      → Chosen allowed seen (cpu ∷ cpus) ids
  Chosen-skip seen cpu cpus ids h = record {
    chosen = h.chosen;
    ids_of = h.ids_of;
    each = All-imp h.chosen (λ c p. (inr p.0, p.1, p.2)) h.each;
    distinct = h.distinct;
  }

  Chosen-take :
      (seen : List (ℤ × ℤ)) (cpu : TopologyCpu) (cpus : List TopologyCpu) (ids : List ℤ)
      → usable allowed cpu ≡ true
      → contains seen (core_key cpu) ≡ false
      → Chosen allowed (core_key cpu ∷ seen) cpus ids
      → Chosen allowed seen (cpu ∷ cpus) (cpu.cpu_id ∷ ids)
  Chosen-take seen cpu cpus ids u new h = record {
    chosen = cpu ∷ h.chosen;
    ids_of = ap (◌∷◌ cpu.cpu_id) h.ids_of;
    each = (
      (inl refl, u, new),
      All-imp h.chosen
          (λ c p. (inr p.0, p.1, (contains-cons_false (core_key cpu) (core_key c) seen p.2).1))
          h.each,
    );
    distinct = (
      not-In-map (core_key cpu) seen h.chosen (All-imp h.chosen (λ c p. p.2) h.each),
      h.distinct,
    );
  }

  -- What one round of the loop does.
  choose_loop_cases :
      (seen : List (ℤ × ℤ)) (cpu : TopologyCpu) (cpus : List TopologyCpu)
      → (choose_loop allowed seen (cpu ∷ cpus) ≡ choose_loop allowed seen cpus)
          × ((usable allowed cpu ≡ false) ⊎ (contains seen (core_key cpu) ≡ true))
        ⊎ (choose_loop allowed seen (cpu ∷ cpus)
            ≡ cpu.cpu_id ∷ choose_loop allowed (core_key cpu ∷ seen) cpus)
          × (usable allowed cpu ≡ true)
          × (contains seen (core_key cpu) ≡ false)
  unfolding choose_loop
  choose_loop_cases seen cpu cpus = ground arith

  choose_loop-Chosen :
      (seen : List (ℤ × ℤ)) (cpus : List TopologyCpu)
      → Chosen allowed seen cpus (choose_loop allowed seen cpus)
  unfolding choose_loop
  choose_loop-Chosen seen [] = record { chosen = []; ids_of = refl; each = tt; distinct = tt }
  choose_loop-Chosen seen (cpu ∷ cpus) = elim (choose_loop_cases seen cpu cpus) [
    | inl (same, _) ↦
        subst (Chosen allowed seen (cpu ∷ cpus)) (sym same)
          (Chosen-skip seen cpu cpus _ (choose_loop-Chosen seen cpus))
    | inr (more, u, new) ↦
        subst (Chosen allowed seen (cpu ∷ cpus)) (sym more)
          (Chosen-take seen cpu cpus _ u new (choose_loop-Chosen (core_key cpu ∷ seen) cpus))
  ]

-- A CPU of the list that stands for the core of `cpu`, with no larger id, and is chosen.
pub record Represents (ids : List ℤ) (cpus : List TopologyCpu) (cpu : TopologyCpu) : Type 0 where
  pub chosen : TopologyCpu
  pub listed : In chosen cpus
  pub taken : In chosen.cpu_id ids
  pub same_core : core_key chosen ≡ core_key cpu
  pub no_larger : leb_ℤ chosen.cpu_id cpu.cpu_id ≡ true

Represents-widen :
    (ids more : List ℤ) (x : TopologyCpu) (cpus : List TopologyCpu) (cpu : TopologyCpu)
    → ((k : ℤ) → In k ids → In k more)
    → Represents ids cpus cpu
    → Represents more (x ∷ cpus) cpu
Represents-widen ids more x cpus cpu f h = record {
  chosen = h.chosen;
  listed = inr h.listed;
  taken = f h.chosen.cpu_id h.taken;
  same_core = h.same_core;
  no_larger = h.no_larger;
}

module _ (allowed : List ℤ) where
  choose_loop-covers :
      (seen : List (ℤ × ℤ)) (cpus : List TopologyCpu) (cpu : TopologyCpu)
      → IsSorted id_le cpus
      → In cpu cpus
      → usable allowed cpu ≡ true
      → (contains seen (core_key cpu) ≡ true) ⊎ Represents (choose_loop allowed seen cpus) cpus cpu
  choose_loop-covers seen [] cpu s m u = absurd m
  choose_loop-covers seen (x ∷ cpus) cpu s (inl e) u =
      elim (choose_loop_cases allowed seen x cpus) [
        | inl (same, inl unusable) ↦ cc (ap (usable allowed) e)
        | inl (same, inr old) ↦ inl (rw (ap core_key e) old)
        | inr (more, ux, new) ↦ inr (record {
          chosen = x;
          listed = inl refl;
          taken = rw more (inl refl);
          same_core = ap core_key (sym e);
          no_larger = rw (ap (λ c. c.cpu_id) e) (leb_ℤ_refl x.cpu_id);
        })
      ]
  choose_loop-covers seen (x ∷ cpus) cpu s (inr m) u =
      elim (choose_loop_cases allowed seen x cpus) [
        | inl (same, _) ↦ elim (choose_loop-covers seen cpus cpu s.1 m u) [
          | inl old ↦ inl old
          | inr r ↦ inr (Represents-widen _ _ x cpus cpu (λ k i. rw same i) r)
        ]
        | inr (more, ux, new) ↦ elim (choose_loop-covers (core_key x ∷ seen) cpus cpu s.1 m u) [
          | inl old ↦ elim (contains-cons_cases (core_key x) (core_key cpu) seen old) [
            | inl same ↦ inr (record {
              chosen = x;
              listed = inl refl;
              taken = rw more (inl refl);
              same_core = sym same;
              no_larger = All-In (λ y. id_le x y ≡ true) cpu cpus s.0 m;
            })
            | inr old ↦ inl old
          ]
          | inr r ↦ inr (Represents-widen _ _ x cpus cpu (λ k i. rw more (inr i)) r)
        ]
      ]

-- The ids returned are those of usable CPUs (online, and allowed) of the machine, no two of which
-- share a physical core.
pub choose_one_thread_per_core-Chosen :
    (topology : SystemTopologyModel) (allowed : List ℤ)
    → Chosen allowed [] topology.logical_cpus (choose_one_thread_per_core topology allowed)
unfolding choose_one_thread_per_core
choose_one_thread_per_core-Chosen topology allowed =
    let found = choose_loop-Chosen allowed [] (sort id_le topology.logical_cpus) in
    record {
      chosen = found.chosen;
      ids_of = found.ids_of;
      each =
          All-imp found.chosen (λ c p. (In-of_In-sort id_le c topology.logical_cpus p.0, p.1, p.2))
            found.each;
      distinct = found.distinct;
    }

-- The core of every usable CPU of the machine is represented among the ids returned, by a CPU of
-- the machine on that core whose id is not larger.
pub choose_one_thread_per_core-covers :
    (topology : SystemTopologyModel) (allowed : List ℤ) (cpu : TopologyCpu)
    → In cpu topology.logical_cpus
    → usable allowed cpu ≡ true
    → Represents (choose_one_thread_per_core topology allowed) topology.logical_cpus cpu
unfolding choose_one_thread_per_core contains
choose_one_thread_per_core-covers topology allowed cpu m u = elim covered [
  | inl seen ↦ cc
  | inr r ↦ record {
    chosen = r.chosen;
    listed = In-of_In-sort id_le r.chosen topology.logical_cpus r.listed;
    taken = r.taken;
    same_core = r.same_core;
    no_larger = r.no_larger;
  }
]
  where
    sorted : List TopologyCpu
    sorted = sort id_le topology.logical_cpus

    covered :
        (contains [] (core_key cpu) ≡ true) ⊎ Represents (choose_loop allowed [] sorted) sorted cpu
    covered =
        choose_loop-covers allowed [] sorted cpu
          (sort-IsSorted id_le (λ a b. leb_ℤ_total a.cpu_id b.cpu_id)
            (λ a b c. leb_ℤ_trans a.cpu_id b.cpu_id c.cpu_id) topology.logical_cpus)
          (In-sort id_le cpu topology.logical_cpus m) u

-- The ids returned are those of usable CPUs (online, and allowed) of the machine, no two of which
-- share a physical core. Each usable CPU of the machine shares its core with one of them, whose id is
-- not larger than its own.
pub choose_one_thread_per_core-IsSelection :
    (topology : SystemTopologyModel) (allowed : List ℤ)
    → Chosen allowed [] topology.logical_cpus (choose_one_thread_per_core topology allowed)
      × All
          (Represents (choose_one_thread_per_core topology allowed) topology.logical_cpus)
          (filter (usable allowed) topology.logical_cpus)
choose_one_thread_per_core-IsSelection topology allowed = (
  choose_one_thread_per_core-Chosen topology allowed,
  All-imp (filter (usable allowed) topology.logical_cpus)
      (λ cpu m.
        let (listed, is_usable) = In-of_In-filter (usable allowed) cpu topology.logical_cpus m in
        choose_one_thread_per_core-covers topology allowed cpu listed is_usable)
      (All-self (filter (usable allowed) topology.logical_cpus)),
)

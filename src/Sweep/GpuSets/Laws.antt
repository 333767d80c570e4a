-- ===== src/Sweep/GpuSets/Laws.antt =====
-- What the resolved GPU sets of a group are.
use parallel_reduction_bench.Prelude.{
  ◌+◌, ◌*◌, ◌≤◌, ◌<◌, ◌≡◌, refl, ap, true, false, not, ◌⊎◌, inl, inr, List, [], ◌∷◌, map, arith,
  list_eq, Bool-cases, is_empty, is_empty→nil, is_empty-map, ltb, length, length-append, length-map,
  any, contains, not-In, ◌≢◌, All, All-map, All-append, All-self, All-In, All-imp,
  contains-cons_false, contains-cons_cases, In, IsDistinct,
}
use parallel_reduction_bench.Prelude.Int.{ℤ, ℤ_eq}
use parallel_reduction_bench.Prelude.Result.{ok, >>=-eq-ok, extend_each}
use parallel_reduction_bench.Models.{
  GpuSet, AlgorithmDefinition, SystemTopologyModel, HardwareConfig,
}
use parallel_reduction_bench.Prelude.Loops.{extend_each-In}
use parallel_reduction_bench.Sweep.GpuSets.{pairs, resolve_entry, unique_sets, resolve_gpu_sets}

-- A set of GPUs on which the algorithm can run.
pub record Fits (available : List ℤ) (definition : AlgorithmDefinition) (gpu_set : List ℤ)
    : Type 0 where
  pub present : All (λ g. contains available g ≡ true) gpu_set
  pub enough : definition.min_gpus ≤ length gpu_set
  pub one_gpu : definition.supports_multi_gpu ≡ false → length gpu_set ≡ 1

none_missing :
    (available gpu_set : List ℤ)
    → any (λ g. not (contains available g)) gpu_set ≡ false
    → All (λ g. contains available g ≡ true) gpu_set
unfolding any
none_missing available [] h = tt
none_missing available (g ∷ gs) h = (ground arith, none_missing available gs (ground arith))

-- What one round of the loop does when it does not raise.
module _ (available : List ℤ) (definition : AlgorithmDefinition) where
  abbrev pub Kept : List (List ℤ) → List ℤ → List (List ℤ) → List (List ℤ) → Type 0
  Kept seen gpu_set resolved sets =
      (unique : List (List ℤ)) × (contains seen gpu_set ≡ false)
      × Fits available definition gpu_set
      × (unique_sets available definition (gpu_set ∷ seen) resolved ≡ ok unique)
      × (sets ≡ gpu_set ∷ unique)

  pub unique_sets_cases :
      (seen resolved sets : List (List ℤ)) (gpu_set : List ℤ)
      → unique_sets available definition seen (gpu_set ∷ resolved) ≡ ok sets
      → (unique_sets available definition seen resolved ≡ ok sets)
          × ((contains seen gpu_set ≡ true) ⊎ (length gpu_set < definition.min_gpus))
        ⊎ Kept seen gpu_set resolved sets
  unfolding unique_sets
  unique_sets_cases seen resolved sets gpu_set h = elim (Bool-cases (contains seen gpu_set)) [
    | inl e ↦ inl (ground arith, inl e)
    | inr new ↦ elim (Bool-cases (any (λ g. not (contains available g)) gpu_set)) [
      | inl e ↦ absurd (ground arith)
      | inr all ↦ elim (Bool-cases (ltb (length gpu_set) definition.min_gpus)) [
        | inl e ↦ inl (ground arith, inr (ground arith))
        | inr e ↦
            let (unique, rest, same) =
              >>=-eq-ok (unique_sets available definition (gpu_set ∷ seen) resolved)
                (λ unique. ok (gpu_set ∷ unique)) {b = sets} (ground arith) in
            inr (
              unique,
              new,
              record {
                present = none_missing available gpu_set all;
                enough = ground arith;
                one_gpu = λ m. ground arith;
              },
              rest,
              cc,
            )
      ]
    ]
  ]

  unique_sets-Fits :
      (seen resolved sets : List (List ℤ))
      → unique_sets available definition seen resolved ≡ ok sets
      → All (λ s. Fits available definition s × (contains seen s ≡ false)) sets × IsDistinct sets
  unfolding unique_sets
  unique_sets-Fits seen [] sets h = let e : [] ≡ sets = cc in rw (← e) (tt, tt)
  unique_sets-Fits seen (gpu_set ∷ resolved) sets h =
      elim (unique_sets_cases seen resolved sets gpu_set h) [
        | inl (skip, _) ↦ unique_sets-Fits seen resolved sets skip
        | inr (unique, new, fits, take, e) ↦
            let (all, distinct) = unique_sets-Fits (gpu_set ∷ seen) resolved unique take in
            rw e (
              (
                (fits, new),
                All-imp unique (λ s p. (p.0, (contains-cons_false gpu_set s seen p.1).1)) all,
              ),
              (
                (λ m.
                    not-In (gpu_set ∷ seen) gpu_set
                      (All-In (λ s. contains (gpu_set ∷ seen) s ≡ false) gpu_set unique
                        (All-imp unique (λ s p. p.1) all) m)
                      (inl refl)),
                distinct,
              ),
            )
      ]

  -- A set that is large enough and not kept before is kept.
  unique_sets_complete :
      (seen resolved sets : List (List ℤ)) (s : List ℤ)
      → unique_sets available definition seen resolved ≡ ok sets
      → In s resolved
      → definition.min_gpus ≤ length s
      → (contains seen s ≡ true) ⊎ In s sets
  unfolding unique_sets
  unique_sets_complete seen [] sets s h m enough = absurd m
  unique_sets_complete seen (gpu_set ∷ resolved) sets s h (inl same) enough =
      elim (unique_sets_cases seen resolved sets gpu_set h) [
        | inl (_, inl old) ↦ inl (rw same old)
        | inl (_, inr small) ↦ absurd (omega (arith, ap length same))
        | inr (unique, _, _, _, e) ↦ inr (rw e (inl same))
      ]
  unique_sets_complete seen (gpu_set ∷ resolved) sets s h (inr m) enough =
      elim (unique_sets_cases seen resolved sets gpu_set h) [
        | inl (skip, _) ↦ unique_sets_complete seen resolved sets s skip m enough
        | inr (unique, _, _, take, e) ↦
            elim (unique_sets_complete (gpu_set ∷ seen) resolved unique s take m enough) [
              | inl old ↦ elim (contains-cons_cases gpu_set s seen old) [
                | inl same ↦ inr (rw e (inl same))
                | inr older ↦ inl older
              ]
              | inr kept ↦ inr (rw e (inr kept))
            ]
      ]

-- An algorithm without GPUs gets the one empty set, and a machine without GPUs gives none.
pub resolve_gpu_sets-trivial :
    (topology : SystemTopologyModel) (hardware : HardwareConfig) (definition : AlgorithmDefinition)
    → (definition.uses_gpu ≡ false → resolve_gpu_sets topology hardware definition ≡ ok ([] ∷ []))
      × (definition.uses_gpu ≡ true
          → topology.gpus ≡ []
          → resolve_gpu_sets topology hardware definition ≡ ok [])
unfolding resolve_gpu_sets
resolve_gpu_sets-trivial topology hardware definition =
    (λ e. rw e refl, λ e none. rw (e, none) refl)

module _ (topology : SystemTopologyModel) (hardware : HardwareConfig)
    (definition : AlgorithmDefinition) (sets : List (List ℤ)) where
  abbrev pub indices : List ℤ
  indices = map (λ gpu. gpu.index) topology.gpus

  pub resolve_gpu_sets_cases :
      definition.uses_gpu ≡ true
      → resolve_gpu_sets topology hardware definition ≡ ok sets
      → (topology.gpus ≡ []) × (sets ≡ [])
        ⊎ ((resolved : List (List ℤ)) × (extend_each
                (resolve_entry indices definition.supports_multi_gpu)
                hardware.gpu_sets
              ≡ ok resolved)
            × (unique_sets indices definition [] resolved ≡ ok sets))
  unfolding resolve_gpu_sets
  resolve_gpu_sets_cases uses h = elim (Bool-cases (is_empty indices)) [
    | inl e ↦ inl (is_empty→nil topology.gpus (is_empty-map _ topology.gpus e), ground arith)
    | inr e ↦ inr (
        >>=-eq-ok (extend_each _ hardware.gpu_sets) (unique_sets indices definition []) {b = sets}
          (ground arith))
  ]

  -- The sets resolved for an algorithm that uses GPUs are pairwise different. Each holds GPUs of the
  -- machine only, at least as many as the algorithm needs, and exactly one if the algorithm cannot
  -- use several.
  pub resolve_gpu_sets-Fits :
      definition.uses_gpu ≡ true
      → resolve_gpu_sets topology hardware definition ≡ ok sets
      → All (Fits indices definition) sets × IsDistinct sets
  resolve_gpu_sets-Fits uses h = elim (resolve_gpu_sets_cases uses h) [
    | inl (_, e) ↦ rw e (tt, tt)
    | inr (resolved, _, e) ↦
        let (all, distinct) = unique_sets-Fits indices definition [] resolved sets e in
        (All-imp sets (λ s p. p.0) all, distinct)
  ]

  -- Every set that an entry of `gpu_sets` stands for is resolved, if it has as many GPUs as the
  -- algorithm needs.
  pub resolve_gpu_sets_complete :
      (entry : GpuSet) (meant : List (List ℤ)) (s : List ℤ)
      → definition.uses_gpu ≡ true
      → resolve_gpu_sets topology hardware definition ≡ ok sets
      → topology.gpus ≢ []
      → In entry hardware.gpu_sets
      → resolve_entry indices definition.supports_multi_gpu entry ≡ ok meant
      → In s meant
      → definition.min_gpus ≤ length s
      → In s sets
  unfolding contains
  resolve_gpu_sets_complete entry meant s uses h some m e i enough =
      elim (resolve_gpu_sets_cases uses h) [
        | inl (no_gpu, _) ↦ absurd (some no_gpu)
        | inr (resolved, r, u) ↦
            elim (unique_sets_complete indices definition [] resolved sets s u
              (extend_each-In _ s entry hardware.gpu_sets resolved meant r m e i) enough) [
                | inl seen ↦ absurd (cc)
                | inr kept ↦ kept
              ]
      ]

-- n GPUs have n * (n - 1) / 2 pairs.
pub length-pairs : (xs : List ℤ) → 2 * length (pairs xs) + length xs ≡ length xs * length xs
unfolding pairs
length-pairs [] = omega arith
length-pairs (x ∷ xs) = omega (
  arith,
  length-append (map (λ y. x ∷ y ∷ []) xs) (pairs xs),
  length-map xs (λ y. x ∷ y ∷ []),
  length-pairs xs,
)

-- From a list of different GPUs, each pair holds two different GPUs of the list.
pub pairs-IsDistinct :
    (xs : List ℤ)
    → IsDistinct xs
    → All (λ s. (length s ≡ 2) × IsDistinct s × All (λ g. In g xs) s) (pairs xs)
unfolding pairs
pairs-IsDistinct [] d = tt
pairs-IsDistinct (x ∷ xs) d =
    All-append _ (map (λ y. x ∷ y ∷ []) xs) (pairs xs)
      (All-map _ (λ y. x ∷ y ∷ []) xs
        (All-imp xs
          (λ y m. (
            refl,
            (λ i. elim i [ inl e ↦ d.0 (rw e m) | inr b ↦ b ], (λ z. z, tt)),
            (inl refl, (inr m, tt)),
          ))
          (All-self xs)))
      (All-imp (pairs xs) (λ s p. (p.0, p.1, All-imp s (λ g m. inr m) p.2))
        (pairs-IsDistinct xs d.1))

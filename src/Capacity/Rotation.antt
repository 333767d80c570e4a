-- ===== src/Capacity/Rotation.antt =====
-- `cache_rotation_replicas` of prbench/capacity.py.
use native.Mathlib.Nat.{le-div_iff_mul-le, lt-div-mul-add, mul-le-mul_right}
use parallel_reduction_bench.Prelude.{
  ℕ, suc, ◌+◌, ◌-◌, ◌*◌, ◌≤◌, ◌<◌, min, max, ◌≡◌, refl, ◌⊎◌, inl, inr, Bool-cases, true, false, ◌^◌,
  arith, leb,
}
use parallel_reduction_bench.Capacity.{exact_ceil, ceil_ℕ, cache_rotation_replicas}

-- up to 2 ^ 53 the ceiling is exact
ceil-exact : (n d : ℕ) → n ≤ 2 ^ 53 → ceil_ℕ n d ≡ exact_ceil n d
unfolding ceil_ℕ
ceil-exact n d small = let test : leb n (2 ^ 53) ≡ true = ground arith in rw test refl

-- as many parts of size d as the ceiling says hold n
pub ceil_covers : (n d : ℕ) → 0 < d → n ≤ 2 ^ 53 → n ≤ ceil_ℕ n d * d
ceil_covers n d h small =
    rw (ceil-exact n d small) (omega (arith, lt-div-mul-add {a = n + (d - 1)} h))

-- fewer parts do not
pub ceil_least : (n d k : ℕ) → 0 < d → n ≤ 2 ^ 53 → k < ceil_ℕ n d → k * d < n
ceil_least n d k h small lt =
    let below : k < exact_ceil n d = rw (ceil-exact n d small) at lt in
    let fits : suc k * d ≤ n + (d - 1) =
      (le-div_iff_mul-le {k = d} {x = suc k} {y = n + (d - 1)} h).0 (omega arith) in
    omega arith

-- For a target of at most 2 ^ 53 bytes, the number of replicas is at least 1, and at most the configured
-- maximum if that is not 0. For an empty dataset it is 1. Otherwise the replicas reach the target unless the
-- maximum stops them, and one replica less would not reach it unless there is only one.
pub cache_rotation_replicas-bounds :
    (dataset_bytes target_bytes max_replicas : ℕ)
    → target_bytes ≤ 2 ^ 53
    → (1 ≤ cache_rotation_replicas dataset_bytes target_bytes max_replicas)
      × (cache_rotation_replicas dataset_bytes target_bytes max_replicas ≤ max 1 max_replicas)
      × ((dataset_bytes ≡ 0) × (cache_rotation_replicas dataset_bytes target_bytes max_replicas ≡ 1)
          ⊎ (0 < dataset_bytes)
            × ((target_bytes
                  ≤ cache_rotation_replicas dataset_bytes target_bytes max_replicas * dataset_bytes)
                ⊎ (cache_rotation_replicas dataset_bytes target_bytes max_replicas
                    ≡ max 1 max_replicas))
            × ((cache_rotation_replicas dataset_bytes target_bytes max_replicas ≡ 1)
                ⊎ ((cache_rotation_replicas dataset_bytes target_bytes max_replicas - 1)
                      * dataset_bytes
                    < target_bytes)))
unfolding cache_rotation_replicas
cache_rotation_replicas-bounds d t m small = elim (Bool-cases (leb d 0)) [
  | inl empty ↦
      let zero : d ≡ 0 = ground arith in
      let r : cache_rotation_replicas d t m ≡ 1 = rw empty refl in
      rw r (omega arith, omega arith, inl (zero, refl))
  | inr full ↦ filled (ground arith) full
]
  where
    reached : (c : ℕ) → t ≤ c * d → (t ≤ max 1 (min m c) * d) ⊎ (max 1 (min m c) ≡ max 1 m)
    reached c covers = elim (Bool-cases (leb c m)) [
      | inl below ↦
          let more : c ≤ max 1 (min m c) = ground arith in
          inl (omega (arith, mul-le-mul_right d more))
      | inr above ↦ inr (ground arith)
    ]

    smallest :
        (c : ℕ)
        → ((k : ℕ) → k < c → k * d < t)
        → (max 1 (min m c) ≡ 1) ⊎ ((max 1 (min m c) - 1) * d < t)
    smallest c least = elim (Bool-cases (leb (max 1 (min m c)) 1)) [
      | inl one ↦ inl (ground arith)
      | inr more ↦ inr (least (max 1 (min m c) - 1) (ground arith))
    ]

    filled :
        0 < d
        → leb d 0 ≡ false
        → (1 ≤ cache_rotation_replicas d t m)
          × (cache_rotation_replicas d t m ≤ max 1 m)
          × ((d ≡ 0) × (cache_rotation_replicas d t m ≡ 1)
              ⊎ (0 < d)
                × ((t ≤ cache_rotation_replicas d t m * d)
                    ⊎ (cache_rotation_replicas d t m ≡ max 1 m))
                × ((cache_rotation_replicas d t m ≡ 1)
                    ⊎ ((cache_rotation_replicas d t m - 1) * d < t)))
    filled h full = elim (Bool-cases (leb t 0)) [
      | inl none ↦
          let r : cache_rotation_replicas d t m ≡ 1 = rw (full, none) refl in
          rw r (omega arith, omega arith, inr (h, inl (ground arith), inl refl))
      | inr some ↦
          let r : cache_rotation_replicas d t m ≡ max 1 (min m (ceil_ℕ t d)) =
            rw (full, some) refl in
          rw r (
            ground arith,
            ground arith,
            inr (
              h,
              reached (ceil_ℕ t d) (ceil_covers t d h small),
              smallest (ceil_ℕ t d) (λ k. ceil_least t d k h small),
            ),
          )
    ]

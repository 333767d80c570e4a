-- ===== src/Runner/Thermal/Decides.antt =====
-- How the thermal wait of prbench/runner.py ends.
use parallel_reduction_bench.Prelude.{
  ℕ, zero, suc, ◌+◌, ◌≤◌, ◌<◌, ◌≡◌, ◌⊎◌, Bool, none, some-injective, ◌&&◌, refl, sym, subst, ◌∙◌,
  ap, leb, leb→le, inl, inr, true, false, Bool-cases, Option, some, if◌then◌else◌, arith,
}
use parallel_reduction_bench.Prelude.Float.{Float, finite, le_float}
use parallel_reduction_bench.Prelude.Int.{pos}
use parallel_reduction_bench.Prelude.Result.{Result, ok, raise, timeout_error}
use parallel_reduction_bench.Models.{MeasurementConfig}
use parallel_reduction_bench.Runner.Thermal.{
  Rounds, within_limit, is_safe, wait_loop, wait_until_safe,
}

-- A temperature that is known and above its limit.
abbrev pub IsHot : Option Float → Float → Type 0
IsHot temperature limit = (t : Float) × (temperature ≡ some t) × (le_float t limit ≡ false)

-- No temperature that is known is above its limit.
abbrev pub IsCool : Option Float → Float → Type 0
IsCool temperature limit = (t : Float) → temperature ≡ some t → le_float t limit ≡ true

within_limit-IsCool :
    (temperature : Option Float) (limit : Float)
    → within_limit temperature limit ≡ true
    → IsCool temperature limit
within_limit-IsCool none limit h t e = absurd (cc e)
within_limit-IsCool (some u) limit h t e = rw (← some-injective e) h

within_limit-IsHot :
    (temperature : Option Float) (limit : Float)
    → within_limit temperature limit ≡ false
    → IsHot temperature limit
within_limit-IsHot none limit h = absurd (cc h)
within_limit-IsHot (some u) limit h = (u, refl, h)

and-true : (a b : Bool) → (a && b) ≡ true → (a ≡ true) × (b ≡ true)
and-true a b h = ground arith

module _ (config : MeasurementConfig) (rounds : Rounds) where
  -- In round n neither the processor nor the GPUs are too hot, each by its own limit.
  abbrev pub AllCool : ℕ → Type 0
  AllCool n =
      IsCool (rounds.cpu n) config.thermal_safety_cpu_c
      × IsCool (rounds.gpu n) config.thermal_safety_gpu_c

  abbrev pub SomeHot : ℕ → Type 0
  SomeHot n =
      IsHot (rounds.cpu n) config.thermal_safety_cpu_c
      ⊎ IsHot (rounds.gpu n) config.thermal_safety_gpu_c

  safe-AllCool : (n : ℕ) → is_safe config rounds n ≡ true → AllCool n
  safe-AllCool n h = (
    within_limit-IsCool (rounds.cpu n) config.thermal_safety_cpu_c (and-true _ _ h).0,
    within_limit-IsCool (rounds.gpu n) config.thermal_safety_gpu_c (and-true _ _ h).1,
  )

  unsafe-SomeHot : (n : ℕ) → is_safe config rounds n ≡ false → SomeHot n
  unsafe-SomeHot n h = elim (Bool-cases (within_limit (rounds.cpu n) config.thermal_safety_cpu_c)) [
    | inr hot ↦ inl (within_limit-IsHot (rounds.cpu n) config.thermal_safety_cpu_c hot)
    | inl cool ↦ inr (within_limit-IsHot (rounds.gpu n) config.thermal_safety_gpu_c (rw cool at h))
  ]

  -- How the wait may end from round n on, by round k: at a cool round, or at a late one that is, like
  -- the rounds before it, too hot.
  pub data Ends (n k : ℕ) : Result (Unit {0}) → Type 0 where
    safe_at : (m : ℕ) → n ≤ m → m ≤ k → AllCool m → Ends n k (ok tt)
    late_at :
        (m : ℕ)
        → n ≤ m
        → m ≤ k
        → rounds.late m ≡ true
        → ((j : ℕ) → n ≤ j → j ≤ m → SomeHot j)
        → Ends n k (raise timeout_error)

  abbrev Decided : ℕ → ℕ → Option (Result (Unit {0})) → Type 0
  Decided n k outcome = (r : Result (Unit {0})) × (outcome ≡ some r) × Ends n k r

  later : (n k : ℕ) (r : Result (Unit {0})) → SomeHot n → Ends (suc n) k r → Ends n k r
  later n k r unsafe (safe_at m a b h) = safe_at m (omega (arith, a)) b h
  later n k r unsafe (late_at m a b h all) = late_at m (omega (arith, a)) b h before
    where
      before : (j : ℕ) → n ≤ j → j ≤ m → SomeHot j
      before j low high = elim (Bool-cases (leb j n)) [
        | inl same ↦ subst SomeHot (omega (arith, low, leb→le j n same)) unsafe
        | inr more ↦ all j (ground arith) high
      ]

  wait_loop-Ends :
      (fuel n k : ℕ)
      → n ≤ k
      → k < n + fuel
      → rounds.late k ≡ true
      → Decided n k (wait_loop config rounds fuel n)
  unfolding wait_loop
  wait_loop-Ends zero n k le enough late = absurd (omega (arith, le, enough))
  wait_loop-Ends (suc fuel) n k le enough late = elim (Bool-cases (is_safe config rounds n)) [
    | inl safe ↦ rw safe (ok tt, refl, safe_at n (omega arith) le (safe-AllCool n safe))
    | inr unsafe ↦ rw unsafe (elim (Bool-cases (rounds.late n)) [
      | inl now ↦ rw now (
        raise timeout_error,
        refl,
        late_at n (omega arith) le now (only n (unsafe-SomeHot n unsafe)),
      )
      | inr early ↦ rw early (
          after n k (unsafe-SomeHot n unsafe)
            (wait_loop-Ends fuel (suc n) k (beyond early) (omega (arith, enough)) late))
    ])
  ]
    where
      not_both : true ≡ false → ⊥
      not_both h = cc

      only : (n : ℕ) → SomeHot n → (j : ℕ) → n ≤ j → j ≤ n → SomeHot j
      only n unsafe j low high = subst SomeHot (omega (arith, low, high)) unsafe

      beyond : rounds.late n ≡ false → suc n ≤ k
      beyond early = elim (Bool-cases (leb k n)) [
        | inl h ↦
            absurd (not_both (sym late ∙ ap rounds.late (omega (arith, le, leb→le k n h)) ∙ early))
        | inr h ↦ ground arith
      ]

      after :
          (n k : ℕ) {outcome : Option (Result (Unit {0}))}
          → SomeHot n
          → Decided (suc n) k outcome
          → Decided n k outcome
      after n k unsafe (r, same, ends) = (r, same, later n k r unsafe ends)

  -- Where some round is past the deadline, as many rounds as lead there are fuel enough, and the guard
  -- has decided: it returns at a round in which the processor's temperature, if one is known, is at
  -- most the processor's limit and the GPUs' at most the GPUs' limit, or it raises TimeoutError at a late round, where
  -- in this round and each before it one of the two was known and not at most its limit. Without a positive timeout it
  -- returns at once.
  pub wait_until_safe-Ends :
      (fuel k : ℕ)
      → k < fuel
      → rounds.late k ≡ true
      → (r : Result (Unit {0})) × (wait_until_safe config rounds fuel ≡ some r)
        × (if le_float config.thermal_wait_timeout_s (finite (pos 0) 0)
            then r ≡ ok tt
            else Ends 0 k r)
  unfolding wait_until_safe
  wait_until_safe-Ends fuel k enough late =
      elim (Bool-cases (le_float config.thermal_wait_timeout_s (finite (pos 0) 0))) [
        | inl off ↦ rw off (ok tt, refl, refl)
        | inr on ↦ rw on (wait_loop-Ends fuel 0 k (omega arith) (omega (arith, enough)) late)
      ]

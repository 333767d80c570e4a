-- ===== src/Energy/Integral.antt =====
-- The integral of sampled power of prbench/energy.py.
use parallel_reduction_bench.Prelude.{
  ℕ, ◌+◌, ◌-◌, ◌*◌, ◌≤◌, ◌≡◌, ◌≢◌, ◌↔◌, refl, sym, subst, inl, inr, Bool-cases, filter-cons_true,
  filter-cons_false, min, max, true, List, [], ◌∷◌, map, filter, All, arith,
}
use parallel_reduction_bench.Prelude.Result.{Kind, ok, raise, index_error, ok-injective}
use native.Mathlib.Nat.{mul-add, mul-le-mul_right}
use parallel_reduction_bench.Energy.{
  in_window, clip, trapezoids, integrate_clipped, integrate_samples,
}

-- The timestamps do not decrease and none is before `from`.
abbrev pub Increasing : ℕ → List (ℕ × ℕ) → Type 0
Increasing from [] = Unit
Increasing from ((t, p) ∷ rest) = (from ≤ t) × Increasing t rest

abbrev pub Between : ℕ → ℕ → ℕ × ℕ → Type 0
Between low high (t, p) = (low ≤ p) × (p ≤ high)

module _ (low high end_ns : ℕ) where
  abbrev pub Within : ℕ → ℕ → Type 0
  Within energy duration = (2 * low * duration ≤ energy) × (energy ≤ 2 * high * duration)

  piece : (q duration : ℕ) → 2 * low ≤ q → q ≤ 2 * high → Within (q * duration) duration
  piece q duration l h = (mul-le-mul_right duration l, mul-le-mul_right duration h)

  Within-add : (a b c d : ℕ) → Within a c → Within b d → Within (a + b) (c + d)
  Within-add a b c d h k = (
    omega (arith, mul-add (2 * low) c d, h.0, k.0),
    omega (arith, mul-add (2 * high) c d, h.1, k.1),
  )

  -- The samples that follow, up to the end of the window.
  trapezoids-Within :
      (t0 p0 : ℕ) (rest : List (ℕ × ℕ))
      → t0 ≤ end_ns
      → Between low high (t0, p0)
      → Increasing t0 rest
      → All (λ s. s.0 ≤ end_ns) rest
      → All (Between low high) rest
      → Within (trapezoids end_ns (t0, p0) rest) (end_ns - t0)
  unfolding trapezoids
  trapezoids-Within t0 p0 [] le b inc ends all =
      piece (2 * p0) (end_ns - t0) (omega (arith, b.0)) (omega (arith, b.1))
  trapezoids-Within t0 p0 ((t1, p1) ∷ rest) le b inc ends all =
      subst (Within ((p0 + p1) * (t1 - t0) + trapezoids end_ns (t1, p1) rest))
        (omega (arith, inc.0, ends.0, le))
        (Within-add ((p0 + p1) * (t1 - t0)) (trapezoids end_ns (t1, p1) rest) (t1 - t0)
          (end_ns - t1)
          (piece (p0 + p1) (t1 - t0) (omega (arith, b.0, all.0.0)) (omega (arith, b.1, all.0.1)))
          (trapezoids-Within t1 p1 rest ends.0 all.0 inc.1 ends.1 all.1))

  clipped-Within :
      (start_ns : ℕ) (samples : List (ℕ × ℕ)) (energy : ℕ)
      → start_ns ≤ end_ns
      → Increasing start_ns samples
      → All (λ s. s.0 ≤ end_ns) samples
      → All (Between low high) samples
      → integrate_clipped start_ns end_ns samples ≡ ok energy
      → Within energy (end_ns - start_ns)
  unfolding integrate_clipped
  clipped-Within start_ns [] energy le inc ends all h = absurd (cc)
  clipped-Within start_ns ((t0, p0) ∷ []) energy le inc ends all h =
      subst (λ e. Within e (end_ns - start_ns)) (ok-injective h)
        (piece (2 * p0) (end_ns - start_ns) (omega (arith, all.0.0)) (omega (arith, all.0.1)))
  clipped-Within start_ns ((t0, p0) ∷ (t1, p1) ∷ rest) energy le inc ends all h =
      subst (λ e. Within e (end_ns - start_ns)) (ok-injective h)
        (subst (Within _) (omega (arith, inc.0, ends.0, le)) (
          Within-add (trapezoids end_ns (t0, p0) ((t1, p1) ∷ rest)) (2 * p0 * (t0 - start_ns))
            (end_ns - t0) (t0 - start_ns)
            (trapezoids-Within t0 p0 ((t1, p1) ∷ rest) ends.0 all.0 inc.1 ends.1 all.1)
            (piece (2 * p0) (t0 - start_ns) (omega (arith, all.0.0)) (omega (arith, all.0.1)))))

  -- What is left of samples whose timestamps do not decrease.
  module _ (start_ns : ℕ) where
    abbrev clipped : List (ℕ × ℕ) → List (ℕ × ℕ)
    clipped samples = map (clip start_ns end_ns) (filter (in_window start_ns end_ns) samples)

    record IsClipped (from : ℕ) (samples : List (ℕ × ℕ)) : Type 0 where
      increasing : Increasing from samples
      ends : All (λ s. s.0 ≤ end_ns) samples
      between : All (Between low high) samples

    keep_sample :
        (b t p : ℕ) (rest : List (ℕ × ℕ))
        → b ≤ t
        → in_window start_ns end_ns (t, p) ≡ true
        → Between low high (t, p)
        → IsClipped t rest
        → IsClipped b (clip start_ns end_ns (t, p) ∷ rest)
    keep_sample b t p rest le inside between clean = record {
      increasing = (ground arith, subst (λ u. Increasing u rest) same clean.increasing);
      ends = (ground arith, clean.ends);
      between = (between, clean.between);
    }
      where
        same : t ≡ max start_ns (min t end_ns)
        same = ground arith

    clipped-IsClipped :
        (b from : ℕ) (samples : List (ℕ × ℕ))
        → b ≤ max start_ns from
        → Increasing from samples
        → All (Between low high) samples
        → IsClipped b (clipped samples)
    unfolding filter
    clipped-IsClipped b from [] le inc all = record { increasing = tt; ends = tt; between = tt }
    clipped-IsClipped b from ((t, p) ∷ rest) le inc all =
        elim (Bool-cases (in_window start_ns end_ns (t, p))) [
          | inl inside ↦
              subst (λ ys. IsClipped b (map (clip start_ns end_ns) ys))
                (sym (filter-cons_true (in_window start_ns end_ns) (t, p) rest inside))
                (keep_sample b t p (clipped rest) (ground (arith, inc.0)) inside all.0
                  (clipped-IsClipped t t rest (omega arith) inc.1 all.1))
          | inr outside ↦
              subst (λ ys. IsClipped b (map (clip start_ns end_ns) ys))
                (sym (filter-cons_false (in_window start_ns end_ns) (t, p) rest outside))
                (clipped-IsClipped b t rest (omega (arith, inc.0)) inc.1 all.1)
        ]

    -- The energy that sampled power integrates to, doubled, lies between what the lowest and what the
    -- highest power would use over the whole window, where the window has not a negative length and
    -- there are samples, whose timestamps do not decrease. In particular the samples' ends are extended
    -- to the window's.
    pub integrate_samples-Within :
        (s : ℕ × ℕ) (samples : List (ℕ × ℕ)) (energy : ℕ)
        → start_ns ≤ end_ns
        → Increasing 0 (s ∷ samples)
        → All (Between low high) (s ∷ samples)
        → integrate_samples (s ∷ samples) start_ns end_ns ≡ ok energy
        → Within energy (end_ns - start_ns)
    unfolding integrate_samples
    integrate_samples-Within s samples energy le inc all h =
        clipped-Within start_ns (clipped (s ∷ samples)) energy le clean.increasing clean.ends
          clean.between h
      where
        clean : IsClipped start_ns (clipped (s ∷ samples))
        clean = clipped-IsClipped start_ns 0 (s ∷ samples) (omega arith) inc all

-- The integration raises just if there are samples and none of them lies in the window; without samples
-- it returns 0, and it never raises another exception than the IndexError.
pub integrate_samples-raises_iff :
    (samples : List (ℕ × ℕ)) (start_ns end_ns : ℕ)
    → ((kind : Kind)
        → (integrate_samples samples start_ns end_ns ≡ raise kind) ↔ (
            (kind ≡ index_error)
            × (samples ≢ [])
            × (filter (in_window start_ns end_ns) samples ≡ [])))
      × (integrate_samples [] start_ns end_ns ≡ ok 0)
unfolding integrate_samples integrate_clipped
integrate_samples-raises_iff [] start_ns end_ns =
    (λ kind. (λ h. absurd (cc h), λ r. absurd (r.1 refl)), refl)
integrate_samples-raises_iff (s ∷ samples) start_ns end_ns =
    (λ kind. by_clipped kind (filter (in_window start_ns end_ns) (s ∷ samples)), refl)
  where
    by_clipped :
        (kind : Kind) (xs : List (ℕ × ℕ))
        → (integrate_clipped start_ns end_ns (map (clip start_ns end_ns) xs) ≡ raise kind)
          ↔ ((kind ≡ index_error) × (s ∷ samples ≢ []) × (xs ≡ []))
    by_clipped kind [] = (λ h. (cc h, λ e. cc e, refl), λ r. rw r.0 refl)
    by_clipped kind (x ∷ []) = (λ h. absurd (cc h), λ r. absurd (cc (r.2)))
    by_clipped kind (x ∷ y ∷ xs) = (λ h. absurd (cc h), λ r. absurd (cc (r.2)))

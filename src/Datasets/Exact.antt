-- ===== src/Datasets/Exact.antt =====
-- A generated integer dataset of prbench/datasets.py: its sum is exact.
use parallel_reduction_bench.Prelude.{
  ℕ, zero, suc, ◌+◌, ◌-◌, ◌*◌, ◌^◌, ◌≤◌, ◌<◌, ◌≡◌, refl, sym, ap, ap₂, ◌∙◌, subst, inl, inr, min,
  max, ltb, Bool, true, false, Bool-cases, List, [], ◌∷◌, ◌++◌, All, length, length-append,
  All-append, arith,
}
use native.Mathlib.Nat.{mul-le-mul_left}
use parallel_reduction_bench.Prelude.Int.{ℤ, pos, leb_ℤ, ◌+ℤ◌}
use parallel_reduction_bench.Prelude.Result.{
  Result, ok, raise_if, value_error, >>=-eq-ok, ok-injective,
}
use parallel_reduction_bench.Models.{
  DType, int32, int64, float32, float64, DatasetSpec, Distribution, zeros, ones, uniform, integers,
  symmetric_uniform,
}
use parallel_reduction_bench.Validation.{is_integer}
use parallel_reduction_bench.Datasets.{
  abs, floor, ceil, accumulator_max, max_abs_for, max_abs, validate_integer_sum_bound, sum_ℤ,
  Generated, draw_between, chunk_of, generate_chunk, add_chunk, generate_loop, generate,
}
use parallel_reduction_bench.Datasets.Bound.{
  Bounded, sum_ℤ-append, abs-sum_ℤ, between, floor-le-ceil, replicate-Bounded, length-replicate,
  wrap_int64_lem,
}

abbrev Lies : ℤ → ℤ → ℤ → Type 0
Lies low high v = (leb_ℤ low v ≡ true) × (leb_ℤ v high ≡ true)

-- `rng.integers(low, high + 1, size=count)` returns `count` values from low to high.
pub record IsDraw (draw : ℤ → ℤ → ℕ → ℕ → Result (List ℤ)) : Type 0 where
  pub count :
      (low high : ℤ) (offset n : ℕ) (values : List ℤ)
      → draw low high offset n ≡ ok values
      → length values ≡ n
  pub lies :
      (low high : ℤ) (offset n : ℕ) (values : List ℤ)
      → draw low high offset n ≡ ok values
      → All (Lies low high) values

-- A generated dataset: all its values are there, the reference is their exact sum, and no sum of values
-- from the start leaves the range of the native accumulator.
pub record IsExact (spec : DatasetSpec) (g : Generated) : Type 0 where
  pub complete : length g.values ≡ spec.size
  pub exact : g.int_reference ≡ sum_ℤ g.values
  pub in_range :
      (first rest : List ℤ)
      → g.values ≡ first ++ rest
      → abs (sum_ℤ first) ≤ accumulator_max spec.dtype

All-map : {P Q : ℤ → Type 0} (values : List ℤ) → ((v : ℤ) → P v → Q v) → All P values → All Q values
All-map [] f h = tt
All-map (v ∷ values) f h = (f v h.0, All-map values f h.1)

All-first : (P : ℤ → Type 0) (first rest : List ℤ) → All P (first ++ rest) → All P first
All-first P [] rest h = tt
All-first P (v ∷ first) rest h = (h.0, All-first P first rest h.1)

accumulator-lt : (dtype : DType) → accumulator_max dtype < 2 ^ 63
accumulator-lt int32 = omega arith
accumulator-lt int64 = omega arith
accumulator-lt float32 = omega arith
accumulator-lt float64 = omega arith

raise_if-ok : (b : Bool) {u : Unit {0}} → raise_if b value_error ≡ ok u → b ≡ false
raise_if-ok true h = absurd (cc)
raise_if-ok false h = refl

-- What the check on the bound says where it passes.
bound-holds :
    (spec : DatasetSpec) {u : Unit {0}}
    → is_integer spec.dtype ≡ true
    → validate_integer_sum_bound spec ≡ ok u
    → (m : ℕ) × (max_abs spec ≡ ok m) × (m * spec.size ≤ accumulator_max spec.dtype)
unfolding validate_integer_sum_bound
bound-holds spec is_int h =
    let (m, same, checked) = >>=-eq-ok (max_abs spec) _ (rw is_int at h) in
    (
      m,
      same,
      ground (arith, raise_if-ok (ltb (accumulator_max spec.dtype) (m * spec.size)) checked),
    )

-- The two ends from which the bound is computed.
record IsRange (spec : DatasetSpec) (low high : ℤ) : Type 0 where
  at_low : floor spec.low ≡ ok low
  at_high : ceil spec.high ≡ ok high

record IsChunk (m n : ℕ) (values : List ℤ) : Type 0 where
  count : length values ≡ n
  bounded : All (Bounded m) values

module _ (draw : ℤ → ℤ → ℕ → ℕ → Result (List ℤ)) (is_draw : IsDraw draw) (chunk_elements : ℕ)
    (spec : DatasetSpec) where
  drawn-IsChunk :
      (low high : ℤ) (offset n : ℕ) (values : List ℤ)
      → IsRange spec low high
      → draw_between draw chunk_elements spec offset n ≡ ok values
      → IsChunk (max (max (abs low) (abs high)) 1) n values
  drawn-IsChunk low high offset n values range h =
      let (a, at_a, h') = >>=-eq-ok (ceil spec.low) _ h in
      let (b, at_b, drawn) = >>=-eq-ok (floor spec.high) _ h' in
      record {
        count = is_draw.count a b offset n values drawn;
        bounded =
            All-map values
              (λ v lies.
                between low a b high v (floor-le-ceil spec.low low a range.at_low at_a) lies.0
                  lies.1 (floor-le-ceil spec.high b high at_b range.at_high))
              (is_draw.lies a b offset n values drawn);
      }

  chunk_of-IsChunk :
      (distribution : Distribution) (low high : ℤ) (offset n : ℕ) (values : List ℤ)
      → IsRange spec low high
      → chunk_of draw chunk_elements distribution spec offset n ≡ ok values
      → IsChunk (max_abs_for distribution (max (max (abs low) (abs high)) 1)) n values
  chunk_of-IsChunk ones low high offset n values range h =
      subst (IsChunk 1 n) (ok-injective h) (record {
        count = length-replicate n (pos 1);
        bounded = replicate-Bounded 1 n (pos 1) (omega arith);
      })
  chunk_of-IsChunk zeros low high offset n values range h =
      subst (IsChunk 0 n) (ok-injective h) (record {
        count = length-replicate n (pos 0);
        bounded = replicate-Bounded 0 n (pos 0) (omega arith);
      })
  chunk_of-IsChunk integers low high offset n values range h =
      drawn-IsChunk low high offset n values range h
  chunk_of-IsChunk symmetric_uniform low high offset n values range h = absurd (cc)
  chunk_of-IsChunk uniform low high offset n values range h =
      drawn-IsChunk low high offset n values range h

  generate_chunk-IsChunk :
      (m offset n : ℕ) (values : List ℤ)
      → max_abs spec ≡ ok m
      → generate_chunk draw chunk_elements spec offset n ≡ ok values
      → IsChunk m n values
  unfolding max_abs generate_chunk
  generate_chunk-IsChunk m offset n values bound h =
      let (low, at_low, b) = >>=-eq-ok (floor spec.low) _ bound in
      let (high, at_high, b') = >>=-eq-ok (ceil spec.high) _ b in
      subst (λ k. IsChunk k n values) (ok-injective b')
        (chunk_of-IsChunk spec.distribution low high offset n values
          (record { at_low = at_low; at_high = at_high }) h)

  module _ (m : ℕ) (bound : max_abs spec ≡ ok m)
      (fits : m * spec.size ≤ accumulator_max spec.dtype) where
    -- What holds of the part that is written.
    record IsPart (g : Generated) : Type 0 where
      count : length g.values ≡ g.written
      exact : g.int_reference ≡ sum_ℤ g.values
      bounded : All (Bounded m) g.values
      inside : g.written ≤ spec.size

    small :
        (values : List ℤ)
        → All (Bounded m) values
        → length values ≤ spec.size
        → abs (sum_ℤ values) ≤ accumulator_max spec.dtype
    small values h le = omega (arith, abs-sum_ℤ m values h, mul-le-mul_left m le, fits)

    add_chunk-IsPart :
        (g : Generated) (n : ℕ) (values : List ℤ)
        → IsPart g
        → g.written + n ≤ spec.size
        → IsChunk m n values
        → IsPart (add_chunk draw chunk_elements g values n)
    add_chunk-IsPart g n values part le chunk = record {
      count = omega (arith, length-append g.values values, part.count, chunk.count);
      exact =
          ap₂ (λ a b. a +ℤ b) part.exact
            (wrap_int64_lem (sum_ℤ values) (
              omega (
                arith,
                small values chunk.bounded (omega (arith, chunk.count, le)),
                accumulator-lt spec.dtype,
              )))
          ∙ sym (sum_ℤ-append g.values values);
      bounded = All-append (Bounded m) g.values values part.bounded chunk.bounded;
      inside = le;
    }

    generate_loop-IsPart :
        (fuel : ℕ) (g r : Generated)
        → 0 < chunk_elements
        → spec.size ≤ g.written + fuel
        → IsPart g
        → generate_loop draw chunk_elements fuel spec g ≡ ok r
        → IsPart r × (r.written ≡ spec.size)
    unfolding generate_loop
    generate_loop-IsPart zero g r some_chunk enough part h =
        subst (λ x. IsPart x × (x.written ≡ spec.size)) (ok-injective h)
          (part, omega (arith, enough, part.inside))
    generate_loop-IsPart (suc fuel) g r some_chunk enough part h =
        elim (Bool-cases (ltb g.written spec.size)) [
          | inl more ↦
              let n = min chunk_elements (spec.size - g.written) in
              let (values, drawn, h') =
                >>=-eq-ok (generate_chunk draw chunk_elements spec g.written n) _ (rw more at h) in
              generate_loop-IsPart fuel (add_chunk draw chunk_elements g values n) r some_chunk
                (ground (arith, enough, some_chunk, more))
                (add_chunk-IsPart g n values part (ground (arith, part.inside))
                  (generate_chunk-IsChunk m g.written n values bound drawn))
                h'
          | inr done ↦
              subst (λ x. IsPart x × (x.written ≡ spec.size)) (ok-injective (rw done at h))
                (part, ground (arith, part.inside, done))
        ]

    part-IsExact : (g : Generated) → IsPart g → g.written ≡ spec.size → IsExact spec g
    part-IsExact g part whole = record {
      complete = part.count ∙ whole;
      exact = part.exact;
      in_range = λ first rest same.
          small first (All-first (Bounded m) first rest (subst (All (Bounded m)) same part.bounded))
            (omega (arith, part.count, whole, ap length same, length-append first rest));
    }

  -- Where the generation of an integer dataset in chunks of at least one value returns, it has written
  -- `size` values, its reference is their exact sum, though each chunk is summed in 64 bits, and no sum of
  -- values from the start leaves the range of the data type that the workers accumulate in. The random
  -- numbers are as many as asked for and between the ends asked for.
  pub generate-IsExact :
      (g : Generated)
      → is_integer spec.dtype ≡ true
      → 0 < chunk_elements
      → generate draw chunk_elements spec ≡ ok g
      → IsExact spec g
  unfolding generate sum_ℤ
  generate-IsExact g is_int some_chunk h =
      let (u, checked, looped) = >>=-eq-ok (validate_integer_sum_bound spec) _ h in
      let (m, bound, fits) = bound-holds spec is_int checked in
      let (part, whole) =
        generate_loop-IsPart m bound fits spec.size _ g some_chunk (omega arith)
          (record { count = refl; exact = refl; bounded = tt; inside = omega arith }) looped in
      part-IsExact m bound fits g part whole

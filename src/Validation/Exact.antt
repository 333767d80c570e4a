-- ===== src/Validation/Exact.antt =====
-- When prbench/validation.py finds a result correct.
use parallel_reduction_bench.Prelude.{
  ℕ, ltb, ◌≡◌, refl, Bool, true, false, ◌&&◌, ◌⊎◌, inl, inr, ◌↔◌, arith, ◌==◌, Bool-cases,
  if◌then◌else◌,
}
use parallel_reduction_bench.Prelude.Int.{ℤ, ℤ_eq, pos, eqb_ℤ_iff, ◌*ℤ◌}
use parallel_reduction_bench.Prelude.Float.{
  Float, finite, infinity, neg_infinity, nan, le_float, lt_float,
}
use parallel_reduction_bench.Prelude.Result.{ok}
use parallel_reduction_bench.Models.{DType, int32, int64, float32, float64, ReductionOperation}
use parallel_reduction_bench.Validation.{
  Number, to_int, is_finite, eq_float, is_integer, is_sum, abs_difference, abs_float, one_float,
  at_least_one, rtol, Arithmetic, float_of, same_int, abs_error, cancellation_atol,
  relative_tolerance, is_close, validate,
}

abbrev zero_float : Float
zero_float = finite (pos 0) 0

-- The arithmetic is that of IEEE 754 where the validator relies on it: equal finite floats have the difference 0,
-- a product of finite floats that are not negative is not negative, and neither is 64 eps x for x from 1 on.
pub record IsLawful (float_ops : Arithmetic) : Type 0 where
  pub difference :
      (a r : Float) → is_finite a ≡ true → eq_float a r ≡ true → float_ops.subtract a r ≡ zero_float
  pub product :
      (x y : Float)
      → is_finite x ≡ true
      → is_finite y ≡ true
      → le_float zero_float x ≡ true
      → le_float zero_float y ≡ true
      → le_float zero_float (float_ops.multiply x y) ≡ true
  pub scaled :
      (dtype : DType) (x : Float)
      → le_float one_float x ≡ true
      → float_ops.scalar_ge dtype (float_ops.scaled_eps dtype x) zero_float ≡ true

-- the values that are compared: integers, or floats with the float of the count
pub data Values : Type 0 where
  integers : ℤ → ℤ → Values
  floats : Float → Float → Float → Values

at_least_one_le : (x : Float) → le_float one_float (at_least_one x) ≡ true
unfolding at_least_one le_float lt_float ◌*ℤ◌
at_least_one_le (finite m k) = ground arith
at_least_one_le infinity = refl
at_least_one_le neg_infinity = refl
at_least_one_le nan = refl

-- what equals a finite float is one, and its absolute value is not negative
equal-finite :
    (a r : Float)
    → is_finite a ≡ true
    → eq_float a r ≡ true
    → (is_finite (abs_float r) ≡ true) × (le_float zero_float (abs_float r) ≡ true)
unfolding eq_float le_float abs_float ◌*ℤ◌
equal-finite (finite m k) (finite n j) h e = (refl, ground arith)
equal-finite (finite m k) infinity h e = absurd (cc e)
equal-finite (finite m k) neg_infinity h e = absurd (cc e)
equal-finite (finite m k) nan h e = absurd (cc e)
equal-finite infinity r h e = absurd (cc h)
equal-finite neg_infinity r h e = absurd (cc h)
equal-finite nan r h e = absurd (cc h)

abs-zero : abs_float zero_float ≡ zero_float
unfolding abs_float
abs-zero = refl

rtol-positive :
    (dtype : DType) → (is_finite (rtol dtype) ≡ true) × (le_float zero_float (rtol dtype) ≡ true)
unfolding le_float ◌*ℤ◌
rtol-positive int32 = (refl, refl)
rtol-positive int64 = (refl, refl)
rtol-positive float32 = (refl, refl)
rtol-positive float64 = (refl, refl)

module _ (float_ops : Arithmetic) (laws : IsLawful float_ops) (operation : ReductionOperation)
    (dtype : DType) (count : ℕ) (sum_abs : Float) where
  -- The conversions of the two numbers, and of what else is converted for them, do not raise.
  abbrev pub Converts : Number → Number → Values → Type 0
  Converts actual reference (integers a r) =
      (is_integer dtype ≡ true)
      × (to_int actual ≡ ok a)
      × (to_int reference ≡ ok r)
      × ((err : Float) × (float_ops.to_float (abs_difference a r) ≡ ok err))
  Converts actual reference (floats a r n) =
      (is_integer dtype ≡ false)
      × (float_of float_ops actual ≡ ok a)
      × (float_of float_ops reference ≡ ok r)
      × (float_ops.to_float (pos (if ltb 1 count then count else 1)) ≡ ok n)

  -- The error is at most `rtol` times the reference, or at most 64 eps times the scale of the sum.
  abbrev pub Near : Float → Float → Float → Type 0
  Near a r n =
      let o = float_ops in
      let error = abs_float (o.subtract a r) in
      (le_float error (o.multiply (rtol dtype) (abs_float r)) ≡ true)
      ⊎ (o.scalar_ge dtype
            (o.scaled_eps dtype (at_least_one (o.true_divide sum_abs (at_least_one (o.sqrt n)))))
            error
          ≡ true)

  pub record IsVerdict (a r n : Float) (verdict : Bool) : Type 0 where
    pub infinite : is_finite a ≡ false → verdict ≡ false
    pub equal : is_finite a ≡ true → eq_float a r ≡ true → verdict ≡ true
    pub sound : verdict ≡ true → (eq_float a r ≡ true) ⊎ (is_sum operation ≡ true) × Near a r n

  abbrev pub Judges : Values → Bool → Type 0
  Judges (integers a r) verdict = (verdict ≡ true) ↔ (a ≡ r)
  Judges (floats a r n) verdict = IsVerdict a r n verdict

  is_close-equal :
      (a r n : Float)
      → is_finite a ≡ true
      → eq_float a r ≡ true
      → is_close float_ops dtype sum_abs n a r ≡ true
  unfolding is_close
  is_close-equal a r n h e =
      let (r_finite, r_positive) = equal-finite a r h e in
      let (t_finite, t_positive) = rtol-positive dtype in
      let none : abs_error float_ops a r ≡ zero_float = rw (laws.difference a r h e) (abs-zero) in
      elim (Bool-cases (
        float_ops.scalar_lt dtype (cancellation_atol float_ops dtype sum_abs n)
          (relative_tolerance float_ops dtype r))) [
            | inl larger ↦
                rw (larger, none)
                  (laws.product (rtol dtype) (abs_float r) t_finite r_finite t_positive r_positive)
            | inr smaller ↦ rw (smaller, none) (laws.scaled dtype _ (at_least_one_le _))
          ]

  is_close-Near : (a r n : Float) → is_close float_ops dtype sum_abs n a r ≡ true → Near a r n
  unfolding is_close
  is_close-Near a r n h =
      elim (Bool-cases (
        float_ops.scalar_lt dtype (cancellation_atol float_ops dtype sum_abs n)
          (relative_tolerance float_ops dtype r))) [
            | inl larger ↦ inl (rw larger at h)
            | inr smaller ↦ inr (rw smaller at h)
          ]

  -- Where no conversion raises, validation returns a verdict. Integers are found correct just if they are equal.
  -- Of floats, a result that is not finite is found wrong, and a finite one that equals the reference is
  -- found correct, a sum too, since no tolerance is negative. Any other float that is found correct is a
  -- sum whose error is at most `rtol` times the absolute reference, or at most 64 eps times the sum of
  -- absolute values by the root of the count, where that root and that quotient are at least 1. The hypotheses
  -- on the arithmetic: equal finite floats have the difference 0, the product of finite floats that are not
  -- negative is not negative, and 64 eps x is not negative for x from 1 on.
  pub validate_correct :
      (actual reference : Number) (values : Values)
      → Converts actual reference values
      → (verdict : Bool) × (validate float_ops operation dtype count sum_abs actual reference
          ≡ ok verdict)
        × Judges values verdict
  unfolding validate same_int
  validate_correct actual reference (integers a r)
        (integral, of_actual, of_reference, (err, made)) =
      (a == r, rw (integral, of_actual, of_reference, made) refl, eqb_ℤ_iff a r)
  validate_correct actual reference (floats a r n) (floating, of_actual, of_reference, made) =
      elim (Bool-cases (is_sum operation)) [
        | inr extremum ↦ (
          is_finite a && eq_float a r,
          rw (floating, of_actual, of_reference, extremum) refl,
          record {
            infinite = λ h. ground arith;
            equal = λ h e. ground arith;
            sound = λ h. inl (ground arith);
          },
        )
        | inl total ↦ elim (Bool-cases (is_finite a)) [
          | inr unbounded ↦ (
            false,
            rw (floating, of_actual, of_reference, total, unbounded) refl,
            record {
              infinite = λ h. refl;
              equal = λ h e. absurd (cc (unbounded, h));
              sound = λ h. absurd (cc h);
            },
          )
          | inl bounded ↦ (
            is_close float_ops dtype sum_abs n a r,
            rw (floating, of_actual, of_reference, total, bounded, made) refl,
            record {
              infinite = λ h. absurd (cc (bounded, h));
              equal = λ h e. is_close-equal a r n h e;
              sound = λ h. inr (total, is_close-Near a r n h);
            },
          )
        ]
      ]

-- ===== src/Examples/Verdicts.antt =====
-- prbench/validation.py with an arithmetic that does not round.
use parallel_reduction_bench.Prelude.{
  ℕ, ◌+◌, ◌*◌, ◌^◌, ◌≡◌, refl, Bool, true, false, arith, if◌then◌else◌,
}
use parallel_reduction_bench.Prelude.Int.{pos, negsuc, ◌+ℤ◌, ◌*ℤ◌}
use parallel_reduction_bench.Prelude.Float.{
  Float, finite, infinity, neg_infinity, nan, le_float, lt_float,
}
use parallel_reduction_bench.Prelude.Result.{ok}
use parallel_reduction_bench.Models.{DType, float32, float64, ReductionOperation}
use parallel_reduction_bench.Validation.{
  Number, is_finite, eq_float, abs_float, at_least_one, one_float, Arithmetic, is_close, validate,
}
use parallel_reduction_bench.Validation.Exact.{IsLawful, floats, Judges, validate_correct}

unfoldable pub minus : Float → Float → Float
minus (finite m k) (finite n j) =
    if eq_float (finite m k) (finite n j)
    then finite (pos 0) 0
    else finite (m *ℤ pos (2 ^ j) +ℤ n *ℤ negsuc 0 *ℤ pos (2 ^ k)) (k + j)
minus a b = nan

unfoldable pub times : Float → Float → Float
times (finite m k) (finite n j) = finite (m *ℤ n) (k + j)
times a b = nan

-- 64 eps is 2 ^ -17 or 2 ^ -46
abbrev pub eps_digits : DType → ℕ
eps_digits float32 = 17
eps_digits dtype = 46

unfoldable pub shrink : DType → Float → Float
shrink dtype (finite m k) = finite m (k + eps_digits dtype)
shrink dtype x = x

-- in place of a root or a quotient, the number itself
abbrev pub exact : Arithmetic
exact = record {
  to_float = λ n. ok (finite n 0);
  sqrt = λ x. x;
  true_divide = λ x y. x;
  multiply = times;
  subtract = minus;
  scaled_eps = shrink;
  scalar_lt = λ dtype scalar x. lt_float scalar x;
  scalar_ge = λ dtype scalar x. le_float x scalar;
}

exact-difference :
    (a r : Float) → is_finite a ≡ true → eq_float a r ≡ true → minus a r ≡ finite (pos 0) 0
unfolding minus eq_float le_float
exact-difference (finite m k) (finite n j) h e = rw e refl
exact-difference (finite m k) infinity h e = absurd (cc e)
exact-difference (finite m k) neg_infinity h e = absurd (cc e)
exact-difference (finite m k) nan h e = absurd (cc e)
exact-difference infinity r h e = absurd (cc h)
exact-difference neg_infinity r h e = absurd (cc h)
exact-difference nan r h e = absurd (cc h)

nonneg : (m k : ℕ) → le_float (finite (pos 0) 0) (finite (pos m) k) ≡ true
unfolding le_float ◌*ℤ◌
nonneg m k = ground arith

negative : (m k : ℕ) → le_float (finite (pos 0) 0) (finite (negsuc m) k) ≡ true → ⊥
unfolding le_float ◌*ℤ◌
negative m k h = ground arith

below : (m k : ℕ) → le_float one_float (finite (negsuc m) k) ≡ true → ⊥
unfolding le_float ◌*ℤ◌
below m k h = ground arith

*ℤ-pos : (m n : ℕ) → pos m *ℤ pos n ≡ pos (m * n)
unfolding ◌*ℤ◌
*ℤ-pos m n = ground arith

exact-product :
    (x y : Float)
    → is_finite x ≡ true
    → is_finite y ≡ true
    → le_float (finite (pos 0) 0) x ≡ true
    → le_float (finite (pos 0) 0) y ≡ true
    → le_float (finite (pos 0) 0) (times x y) ≡ true
unfolding times le_float
exact-product (finite (pos m) k) (finite (pos n) j) h i p q =
    rw (*ℤ-pos m n) (nonneg (m * n) (k + j))
exact-product (finite (negsuc m) k) y h i p q = absurd (negative m k p)
exact-product (finite (pos m) k) (finite (negsuc n) j) h i p q = absurd (negative n j q)
exact-product (finite (pos m) k) infinity h i p q = absurd (cc i)
exact-product (finite (pos m) k) neg_infinity h i p q = absurd (cc i)
exact-product (finite (pos m) k) nan h i p q = absurd (cc i)
exact-product infinity y h i p q = absurd (cc h)
exact-product neg_infinity y h i p q = absurd (cc h)
exact-product nan y h i p q = absurd (cc h)

exact-scaled :
    (dtype : DType) (x : Float)
    → le_float one_float x ≡ true
    → le_float (finite (pos 0) 0) (shrink dtype x) ≡ true
unfolding shrink le_float
exact-scaled dtype (finite (pos m) k) h = nonneg m (k + eps_digits dtype)
exact-scaled dtype (finite (negsuc m) k) h = absurd (below m k h)
exact-scaled dtype infinity h = refl
exact-scaled dtype neg_infinity h = absurd (cc h)
exact-scaled dtype nan h = absurd (cc h)

exact-IsLawful : IsLawful exact
exact-IsLawful = record {
  difference = exact-difference;
  product = exact-product;
  scaled = exact-scaled;
}

-- 6 + 2 ^ -16 for a sum of 6: the tolerance for a `float32` is 6.0e-5, for a `float64` it is too small
abbrev near : Float
near = finite (pos (6 * 2 ^ 16 + 1)) 16

near_accepted :
    (validate exact ReductionOperation.sum float32 4
        (finite (pos 1) 0)
        (Number.float near)
        (Number.float (finite (pos 6) 0))
      ≡ ok true)
    × (validate exact ReductionOperation.sum float64 4
          (finite (pos 1) 0)
          (Number.float near)
          (Number.float (finite (pos 6) 0))
        ≡ ok false)
unfolding validate is_close minus times shrink at_least_one abs_float eq_float le_float lt_float
    ◌*ℤ◌ ◌+ℤ◌
near_accepted = (refl, refl)

validate_correct_example :
    (verdict : Bool) × (validate exact ReductionOperation.sum float32 4
        (finite (pos 1) 0)
        (Number.float near)
        (Number.float (finite (pos 6) 0))
      ≡ ok verdict)
    × Judges exact exact-IsLawful ReductionOperation.sum float32 4
        (finite (pos 1) 0)
        (floats near (finite (pos 6) 0) (finite (pos 4) 0))
        verdict
validate_correct_example =
    validate_correct exact exact-IsLawful ReductionOperation.sum float32 4 (finite (pos 1) 0)
      (Number.float near) (Number.float (finite (pos 6) 0))
      (floats near (finite (pos 6) 0) (finite (pos 4) 0)) (refl, refl, refl, refl)

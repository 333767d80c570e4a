-- ===== src/Validation.antt =====
-- `ResultValidator.validate` of prbench/validation.py: the verdict on a result. The error measures that
-- it also returns are left out; a conversion to a float that may raise on the way is not.
pub mod Exact
use parallel_reduction_bench.Prelude.{
  ℕ, ◌+◌, ◌-◌, ltb, Bool, true, false, not, ◌&&◌, ◌||◌, ◌==◌, if◌then◌else◌,
}
use parallel_reduction_bench.Prelude.Int.{ℤ, ℤ_eq, pos, pos_part, neg_part}
use parallel_reduction_bench.Prelude.Float.{
  Float, finite, infinity, neg_infinity, nan, le_float, lt_float, of_ℤ,
}
use parallel_reduction_bench.Prelude.Result.{Result, ok, raise, value_error, overflow_error, ◌>>=◌}
use parallel_reduction_bench.Models.{
  DType, int32, int64, float32, float64, ReductionOperation, sum, min, max,
}
use parallel_reduction_bench.Sweep.Params.{truncate}

-- `int | float`
pub data Number : Type 0 where
  int : ℤ → Number
  float : Float → Number

-- `int(number)`
unfoldable pub to_int : Number → Result ℤ
to_int (int n) = ok n
to_int (float (finite m k)) = ok (truncate m k)
to_int (float nan) = raise value_error
to_int (float infinity) = raise overflow_error
to_int (float neg_infinity) = raise overflow_error

abbrev pub is_finite : Float → Bool
is_finite (finite m k) = true
is_finite infinity = false
is_finite neg_infinity = false
is_finite nan = false

-- `a == b` of floats
unfoldable pub eq_float : Float → Float → Bool
eq_float a b = le_float a b && le_float b a

abbrev pub is_integer : DType → Bool
is_integer int32 = true
is_integer int64 = true
is_integer float32 = false
is_integer float64 = false

abbrev pub is_sum : ReductionOperation → Bool
is_sum sum = true
is_sum min = false
is_sum max = false

-- `abs(a - b)`
unfoldable pub abs_difference : ℤ → ℤ → ℤ
abs_difference a b =
    let x = pos_part a + neg_part b in let y = neg_part a + pos_part b in pos ((x - y) + (y - x))

unfoldable pub abs_float : Float → Float
abs_float (finite m k) = finite (pos (pos_part m + neg_part m)) k
abs_float infinity = infinity
abs_float neg_infinity = infinity
abs_float nan = nan

abbrev pub one_float : Float
one_float = of_ℤ (pos 1)

-- `max(1.0, x)`, which is the second only if it is larger
unfoldable pub at_least_one : Float → Float
at_least_one x = if lt_float one_float x then x else one_float

-- 1.0e-5 for a `float32`, and otherwise 1.0e-12, as the doubles that they are read as
abbrev pub rtol : DType → Float
rtol float32 = finite (pos 5_902_958_103_587_057) 69
rtol float64 = finite (pos 4_951_760_157_141_521) 92
rtol int32 = finite (pos 4_951_760_157_141_521) 92
rtol int64 = finite (pos 4_951_760_157_141_521) 92

-- The rounding arithmetic that the validator takes from Python and numpy. `scaled_eps` is `64.0 * eps * x`, a
-- scalar of numpy for the data type; `scalar_lt` and `scalar_ge` are numpy's `<` and `>=` of such a scalar
-- and a float. `to_float` raises beyond the range.
pub record Arithmetic : Type 0 where
  pub to_float : ℤ → Result Float
  pub sqrt : Float → Float
  pub true_divide : Float → Float → Float
  pub multiply : Float → Float → Float
  pub subtract : Float → Float → Float
  pub scaled_eps : DType → Float → Float
  pub scalar_lt : DType → Float → Float → Bool
  pub scalar_ge : DType → Float → Float → Bool

module _ (float_ops : Arithmetic) where
  abbrev pub float_of : Number → Result Float
  float_of (int n) = float_ops.to_float n
  float_of (float x) = ok x

  -- The comparison of integers; the absolute error must have a float.
  unfoldable pub same_int : Number → Number → Result Bool
  same_int actual reference = do
    a ← to_int actual
    r ← to_int reference
    err ← float_ops.to_float (abs_difference a r)
    ok (a == r)

  abbrev pub abs_error : Float → Float → Float
  abs_error a r = abs_float (float_ops.subtract a r)

  -- at the float of the count
  abbrev pub rms_scale : Float → Float → Float
  rms_scale sum_abs n = float_ops.true_divide sum_abs (at_least_one (float_ops.sqrt n))

  abbrev pub cancellation_atol : DType → Float → Float → Float
  cancellation_atol dtype sum_abs n =
      float_ops.scaled_eps dtype (at_least_one (rms_scale sum_abs n))

  abbrev pub relative_tolerance : DType → Float → Float
  relative_tolerance dtype r = float_ops.multiply (rtol dtype) (abs_float r)

  -- `abs_error <= max(cancellation_atol, rtol * abs(ref_f))`
  unfoldable pub is_close : DType → Float → Float → Float → Float → Bool
  is_close dtype sum_abs n a r =
      let atol = cancellation_atol dtype sum_abs n in
      let relative = relative_tolerance dtype r in
      if float_ops.scalar_lt dtype atol relative
      then le_float (abs_error a r) relative
      else float_ops.scalar_ge dtype atol (abs_error a r)

  unfoldable pub validate : ReductionOperation → DType → ℕ → Float → Number → Number → Result Bool
  validate operation dtype count sum_abs actual reference =
      if is_integer dtype then same_int actual reference else do
        a ← float_of actual
        r ← float_of reference
        (if not (is_sum operation)
            then ok (is_finite a && eq_float a r)
            else if not (is_finite a)
            then ok false
            else (do
              n ← float_ops.to_float (pos (if ltb 1 count then count else 1))
              ok (is_close dtype sum_abs n a r)))

-- ===== src/Datasets.antt =====
-- prbench/datasets.py for the integer data types: the bound on the sum of a dataset, the distributions,
-- and the loop that generates a dataset in chunks. Hashing, files and the float types are left out.
pub mod Bound
pub mod Exact
pub mod Cache
use parallel_reduction_bench.Prelude.{
  ℕ, zero, suc, ◌+◌, ◌-◌, ◌*◌, ◌/◌, ◌%◌, ◌^◌, min, max, ltb, Bool, true, false, Option, none, some,
  List, [], ◌∷◌, ◌++◌, if◌then◌else◌,
}
use parallel_reduction_bench.Prelude.Int.{ℤ, pos, negsuc, sub_ℕ, ◌+ℤ◌}
use parallel_reduction_bench.Prelude.Float.{Float, finite, infinity, neg_infinity, nan}
use parallel_reduction_bench.Prelude.Result.{
  Result, ok, raise, ◌>>=◌, ◌>>◌, raise_if, value_error, overflow_error,
}
use parallel_reduction_bench.Models.{
  DType, int32, int64, DatasetSpec, Distribution, zeros, ones, uniform, integers, symmetric_uniform,
}
use parallel_reduction_bench.Validation.{is_integer}

abbrev pub abs : ℤ → ℕ
abs (pos n) = n
abs (negsuc n) = suc n

-- `int(math.floor(x))` and `int(math.ceil(x))`
abbrev pub floor : Float → Result ℤ
floor (finite (pos n) k) = ok (pos (n / 2 ^ k))
floor (finite (negsuc n) k) = ok (sub_ℕ 0 ((suc n + (2 ^ k - 1)) / 2 ^ k))
floor nan = raise value_error
floor infinity = raise overflow_error
floor neg_infinity = raise overflow_error

abbrev pub ceil : Float → Result ℤ
ceil (finite (pos n) k) = ok (pos ((n + (2 ^ k - 1)) / 2 ^ k))
ceil (finite (negsuc n) k) = ok (sub_ℕ 0 (suc n / 2 ^ k))
ceil nan = raise value_error
ceil infinity = raise overflow_error
ceil neg_infinity = raise overflow_error

-- `np.iinfo(...).max`
abbrev pub accumulator_max : DType → ℕ
accumulator_max int32 = 2_147_483_647
accumulator_max _ = 9_223_372_036_854_775_807

abbrev pub max_abs_for : Distribution → ℕ → ℕ
max_abs_for ones n = 1
max_abs_for zeros n = 0
max_abs_for _ n = n

unfoldable pub max_abs : DatasetSpec → Result ℕ
max_abs spec = do
  low ← floor spec.low
  high ← ceil spec.high
  ok (max_abs_for spec.distribution (max (max (abs low) (abs high)) 1))

-- `_validate_integer_sum_bound`
unfoldable pub validate_integer_sum_bound : DatasetSpec → Result (Unit {0})
validate_integer_sum_bound spec =
    if is_integer spec.dtype
    then (do
      bound ← max_abs spec
      raise_if (ltb (accumulator_max spec.dtype) (bound * spec.size)) value_error)
    else ok tt

-- a value as a signed 64-bit integer
abbrev pub wrap_int64 : ℤ → ℤ
wrap_int64 (pos n) =
    if ltb (n % 2 ^ 64) (2 ^ 63) then pos (n % 2 ^ 64) else sub_ℕ (n % 2 ^ 64) (2 ^ 64)
wrap_int64 (negsuc n) =
    if ltb (n % 2 ^ 64) (2 ^ 63) then negsuc (n % 2 ^ 64) else pos (2 ^ 64 - 1 - n % 2 ^ 64)

unfoldable pub sum_ℤ : List ℤ → ℤ
sum_ℤ [] = pos 0
sum_ℤ (v ∷ values) = v +ℤ sum_ℤ values

abbrev pub replicate : {A : Type 0} → ℕ → A → List A
replicate zero a = []
replicate (suc n) a = a ∷ replicate n a

-- The file so far, as its values, and the running totals of the loop.
pub record Generated : Type 0 where
  pub values : List ℤ
  pub int_reference : ℤ
  pub written : ℕ

-- `draw low high offset count` is `rng.integers(low, high + 1, size=count)`, once `offset` values are
-- drawn.
module _ (draw : ℤ → ℤ → ℕ → ℕ → Result (List ℤ)) (chunk_elements : ℕ) where
  abbrev pub draw_between : DatasetSpec → ℕ → ℕ → Result (List ℤ)
  draw_between spec offset count = do
    low ← ceil spec.low
    high ← floor spec.high
    draw low high offset count

  abbrev pub chunk_of : Distribution → DatasetSpec → ℕ → ℕ → Result (List ℤ)
  chunk_of ones spec offset count = ok (replicate count (pos 1))
  chunk_of zeros spec offset count = ok (replicate count (pos 0))
  chunk_of integers spec offset count = draw_between spec offset count
  chunk_of symmetric_uniform spec offset count = raise value_error
  chunk_of uniform spec offset count = draw_between spec offset count

  unfoldable pub generate_chunk : DatasetSpec → ℕ → ℕ → Result (List ℤ)
  generate_chunk spec = chunk_of spec.distribution spec

  abbrev pub add_chunk : Generated → List ℤ → ℕ → Generated
  add_chunk g values count = record {
    values = g.values ++ values;
    int_reference = g.int_reference +ℤ wrap_int64 (sum_ℤ values);
    written = g.written + count;
  }

  -- The `while written < spec.size`, on fuel.
  unfoldable pub generate_loop : ℕ → DatasetSpec → Generated → Result Generated
  generate_loop zero spec g = ok g
  generate_loop (suc fuel) spec g =
      if ltb g.written spec.size
      then (do
        values ← generate_chunk spec g.written (min chunk_elements (spec.size - g.written))
        generate_loop fuel spec (add_chunk g values (min chunk_elements (spec.size - g.written))))
      else ok g

  -- `get_or_create` for an integer type that is not in the cache; one round per value is fuel enough.
  unfoldable pub generate : DatasetSpec → Result Generated
  generate spec = do
    validate_integer_sum_bound spec
    generate_loop spec.size spec (record { values = []; int_reference = pos 0; written = 0 })

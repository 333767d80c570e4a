-- ===== src/Sweep/Params.antt =====
-- `_expand_params` of prbench/sweep.py.
pub mod Product
pub mod Valid
use parallel_reduction_bench.Prelude.{
  ℕ, ◌+◌, ◌/◌, ◌-◌, ◌^◌, Bool, true, false, ◌||◌, Option, none, some, String, List, [], ◌∷◌, ◌++◌,
  map, ◌==◌, String_eq, is_empty, any, if◌then◌else◌,
}
use parallel_reduction_bench.Prelude.Int.{ℤ, pos, negsuc, ltb_ℤ, sub_ℕ}
use parallel_reduction_bench.Prelude.Float.{Float, finite, infinity, neg_infinity, nan}
use parallel_reduction_bench.Prelude.Result.{
  Result, ok, raise, value_error, overflow_error, type_error, ◌>>=◌,
}
use parallel_reduction_bench.Models.{Scalar, int, bool, float, text, null, Param, one, many}

-- One combination of a grid: a dict from the parameters' names to scalars.
abbrev pub Combo : Type 0
Combo = List (String × Scalar)

module _ {V : Type 0} where
  -- `d.get(key)`
  unfoldable pub get : List (String × V) → String → Option V
  get [] key = none
  get ((k, v) ∷ rest) key = let later = get rest key in if k == key then some v else later

-- `int(value)` of a finite float drops the fraction.
abbrev pub truncate : ℤ → ℕ → ℤ
truncate (pos m) k = pos (m / 2 ^ k)
truncate (negsuc n) k = sub_ℕ 0 ((n + 1) / 2 ^ k)

-- `int(value)`; the builtin's reading of a text is a parameter.
unfoldable pub to_int : (String → Result ℤ) → Scalar → Result ℤ
to_int int_of_text (int n) = ok n
to_int int_of_text (bool true) = ok (pos 1)
to_int int_of_text (bool false) = ok (pos 0)
to_int int_of_text (float (finite m k)) = ok (truncate m k)
to_int int_of_text (float nan) = raise value_error
to_int int_of_text (float infinity) = raise overflow_error
to_int int_of_text (float neg_infinity) = raise overflow_error
to_int int_of_text (text s) = int_of_text s
to_int int_of_text null = raise type_error

abbrev pub is_list : Param → Bool
is_list (one v) = false
is_list (many vs) = true

abbrev pub values_of : Param → List Scalar
values_of (one v) = v ∷ []
values_of (many vs) = vs

-- each combination of the later keys, below each value of this one
unfoldable pub with_values : String → List Scalar → List Combo → List Combo
with_values key [] rest = []
with_values key (v ∷ vs) rest = map (λ combo. (key, v) ∷ combo) rest ++ with_values key vs rest

-- `dict(zip(keys, product_values))` for each of `itertools.product(*values)`: the last key varies
-- fastest.
unfoldable pub combos : List (String × Param) → List Combo
unfolding with_values
combos [] = [] ∷ []
combos ((key, param) ∷ params) = with_values key (values_of param) (combos params)

-- Why a combination is dropped.
pub data Reason : Type 0 where
  chunk_bounds pipeline_bounds : Reason

module _ (int_of_text : String → Result ℤ) where
  -- a test on `int(a)` and `int(b)`, in this order, where both are there
  abbrev pub compare_ints : (ℤ → ℤ → Bool) → Option Scalar → Option Scalar → Result Bool
  compare_ints test (some a) (some b) = do
    x ← to_int int_of_text a
    y ← to_int int_of_text b
    ok (test x y)
  compare_ints test (some a) none = ok false
  compare_ints test none b = ok false

  unfoldable pub check_combo : Combo → Result (Option Reason)
  check_combo combo = do
    chunks ←
        compare_ints (λ low high. ltb_ℤ high low) (get combo "min_chunk_size")
          (get combo "max_chunk_size")
    if chunks then ok (some chunk_bounds) else do
      pipeline ←
          compare_ints (λ parts streams. ltb_ℤ parts streams) (get combo "pipeline_chunks")
            (get combo "pipeline_streams")
      if pipeline then ok (some pipeline_bounds) else ok none

  -- One round of the loop, at the verdict on its combination.
  abbrev pub judge : Bool → Combo → Option Reason → Result (List Combo) → Result (List Combo)
  judge is_sweep combo none rest = do valid ← rest; ok (combo ∷ valid)
  judge is_sweep combo (some reason) rest = if is_sweep then rest else raise value_error

  -- The loop over the combinations: an invalid one is dropped from a sweep, and raises otherwise.
  unfoldable pub keep_valid : Bool → List Combo → Result (List Combo)
  keep_valid is_sweep [] = ok []
  keep_valid is_sweep (combo ∷ rest) = do
    reason ← check_combo combo
    judge is_sweep combo reason (keep_valid is_sweep rest)

  unfoldable pub expand_params : List (String × Param) → Result (List Combo)
  expand_params params = if is_empty params then ok ([] ∷ []) else do
    valid ← keep_valid (any (λ p. is_list p.1) params) (combos params)
    if is_empty valid then raise value_error else ok valid

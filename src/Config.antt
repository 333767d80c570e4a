-- ===== src/Config.antt =====
-- `ConfigurationLoader` of prbench/config.py: the checks on the algorithms of a configuration. Reading
-- the YAML file and pydantic's checks come before it.
pub mod Accepted
pub mod Valid
pub mod Supported
pub mod Values
use parallel_reduction_bench.Prelude.{
  ℕ, zero, suc, ◌+◌, ◌-◌, ◌*◌, ◌/◌, ◌%◌, ◌^◌, Bool, true, false, not, ◌&&◌, ◌||◌, String, List, [],
  ◌∷◌, map, ◌==◌, ℕ_eq, String_eq, filter, contains, is_empty, leb, if◌then◌else◌,
}
use parallel_reduction_bench.Prelude.Int.{ℤ, pos, negsuc, pos_part, neg_part, leb_ℤ, ltb_ℤ}
use parallel_reduction_bench.Prelude.Float.{Float, le_float, lt_float, of_ℤ}
use parallel_reduction_bench.Prelude.Result.{
  Result, ok, raise, value_error, overflow_error, ◌>>=◌, ◌>>◌, for_each,
}
use parallel_reduction_bench.Models.{
  Scalar, int, bool, float, text, null, Param, AlgorithmRequest, ExperimentGroup, RootConfig,
}
use parallel_reduction_bench.Catalog
use parallel_reduction_bench.Catalog.{AlgorithmCatalog}
use parallel_reduction_bench.Sweep.Params.{values_of}

-- `a & b` on the lowest `bits` bits
unfoldable pub bit_and : ℕ → ℕ → ℕ → ℕ
bit_and zero a b = 0
bit_and (suc bits) a b = (a % 2) * (b % 2) + 2 * bit_and bits (a / 2) (b / 2)

abbrev pub as_int : Scalar → Result ℤ
as_int (int n) = ok n
as_int (bool b) = raise value_error
as_int (float x) = raise value_error
as_int (text s) = raise value_error
as_int null = raise value_error

-- `float(n)` raises where n rounds to 2 ^ 1024 or above; below, only comparisons with 0 and 1 follow,
-- which rounding keeps.
abbrev pub float_of_int : ℤ → Result Float
float_of_int n =
    if leb (2 ^ 1024 - 2 ^ 970) (pos_part n + neg_part n) then raise overflow_error else ok (of_ℤ n)

abbrev pub as_number : Scalar → Result Float
as_number (int n) = float_of_int n
as_number (bool b) = raise value_error
as_number (float x) = ok x
as_number (text s) = raise value_error
as_number null = raise value_error

-- `if not test: raise ValueError(...)`
abbrev pub demand : Bool → Result (Unit {0})
demand true = ok tt
demand false = raise value_error

-- A power of two in [32, 1024]: a number that gets to the bit test is below 2 ^ 11.
unfoldable pub is_block_size : ℤ → Bool
is_block_size number = not (
    ltb_ℤ number (pos 32)
    || ltb_ℤ (pos 1024) number
    || not (bit_and 11 (pos_part number) (pos_part number - 1) == 0))

abbrev pub is_bool : Scalar → Bool
is_bool (int n) = false
is_bool (bool b) = true
is_bool (float x) = false
is_bool (text s) = false
is_bool null = false

abbrev pub positive_names : List String
positive_names =
    "chunk_size" ∷ "min_chunk_size" ∷ "max_chunk_size" ∷ "pipeline_chunk_elements"
    ∷ "pipeline_streams" ∷ "pipeline_chunks" ∷ "reuse_count" ∷ []

unfoldable pub validate_parameter_value : String → Scalar → Result (Unit {0})
validate_parameter_value name value =
    if name == "block_size"
    then (do number ← as_int value; demand (is_block_size number))
    else if contains positive_names name
    then (do number ← as_int value; demand (not (leb_ℤ number (pos 0))))
    else if name == "use_cuda_graphs"
    then demand (is_bool value)
    else if name == "cpu_fraction"
    then (do
      fraction ← as_number value
      demand (le_float (of_ℤ (pos 0)) fraction && lt_float fraction (of_ℤ (pos 1))))
    else if name == "guided_factor" || name == "target_chunk_ms"
    then (do number ← as_number value; demand (not (le_float number (of_ℤ (pos 0)))))
    else if name == "ema_alpha"
    then (do
      alpha ← as_number value
      demand (lt_float (of_ℤ (pos 0)) alpha && le_float alpha (of_ℤ (pos 1))))
    else ok tt

-- the two loops over the parameters of a request and their values
unfoldable pub validate_params : List (String × Param) → Result (Unit {0})
validate_params =
    for_each (λ entry. for_each (validate_parameter_value entry.0) (values_of entry.1))

unfoldable pub validate_request : AlgorithmCatalog → AlgorithmRequest → Result (Unit {0})
validate_request catalog request = do
  definition ← Catalog.get catalog request.id
  demand (
      is_empty
        (filter (λ name. not (contains definition.tunables name)) (map (λ p. p.0) request.params)))
  validate_params request.params

unfoldable pub validate_algorithms : AlgorithmCatalog → RootConfig → Result (Unit {0})
validate_algorithms catalog config =
    for_each (λ group. for_each (validate_request catalog) group.algorithms) config.experiments

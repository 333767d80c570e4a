-- ===== src/Examples/Checks.antt =====
-- prbench/config.py on the sample campaign.
use parallel_reduction_bench.Prelude.{◌≡◌, ◌↔◌, refl, Option, All, filter, find_last, contains}
use parallel_reduction_bench.Prelude.Int.{pos}
use parallel_reduction_bench.Prelude.Float.{Float, le_float}
use parallel_reduction_bench.Prelude.Result.{ok, raise, value_error, require, for_each}
use parallel_reduction_bench.Models.{Scalar}
use parallel_reduction_bench.Samples.{catalog, config, builtins}
use parallel_reduction_bench.Catalog.{get}
use parallel_reduction_bench.Config.{
  bit_and, is_block_size, validate_parameter_value, validate_params, validate_request,
  validate_algorithms,
}
use parallel_reduction_bench.Config.Accepted.{validate_algorithms-checked}
use parallel_reduction_bench.Config.Supported.{IsSupported, validate_algorithms_iff}
use parallel_reduction_bench.Sweep.Params.{Reason, combos, check_combo}

config-accepted : validate_algorithms catalog config ≡ ok tt
unfolding validate_algorithms validate_request validate_params validate_parameter_value get require
    for_each find_last filter contains
config-accepted = refl

not_a_power : validate_parameter_value "block_size" (Scalar.int (pos 96)) ≡ raise value_error
unfolding validate_parameter_value is_block_size bit_and
not_a_power = refl

-- a NaN is not a fraction, but passes for a positive factor
nan_fraction : validate_parameter_value "cpu_fraction" (Scalar.float Float.nan) ≡ raise value_error
unfolding validate_parameter_value contains le_float
nan_fraction = refl

nan_factor : validate_parameter_value "guided_factor" (Scalar.float Float.nan) ≡ ok tt
unfolding validate_parameter_value contains le_float
nan_factor = refl

validate_algorithms_iff_example :
    (validate_algorithms catalog config ≡ ok tt)
    ↔ All (λ group. All (IsSupported catalog) group.algorithms) config.experiments
validate_algorithms_iff_example = validate_algorithms_iff catalog config

validate_algorithms-checked_example :
    All
      (λ group.
        All
          (λ request.
            All
              (λ c. (r : Option Reason) × (check_combo builtins.int_of_text c ≡ ok r))
              (combos request.params))
          group.algorithms)
      config.experiments
validate_algorithms-checked_example =
    validate_algorithms-checked builtins.int_of_text catalog config config-accepted

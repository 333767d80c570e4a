-- ===== src/Config/Supported.antt =====
-- Which configurations `_validate_algorithms` of prbench/config.py accepts.
use parallel_reduction_bench.Prelude.{
  ◌≡◌, refl, ◌↔◌, false, not, String, String_eq, List, map, filter, is_empty, is_empty→nil,
  none_of_filter, filter_of_none, contains, contains→In, In→contains, All, All-imp, All-map, In,
  arith,
}
use parallel_reduction_bench.Prelude.Result.{ok, >>=-eq-ok}
use parallel_reduction_bench.Prelude.Loops.{for_each-All, for_each_of_All}
use parallel_reduction_bench.Models.{Param, AlgorithmDefinition, AlgorithmRequest, RootConfig}
use parallel_reduction_bench.Catalog
use parallel_reduction_bench.Catalog.{AlgorithmCatalog}
use parallel_reduction_bench.Config.{demand, validate_params, validate_request, validate_algorithms}
use parallel_reduction_bench.Config.Accepted.{demand-ok, All-of_map}
use parallel_reduction_bench.Config.Valid.{IsValid}
use parallel_reduction_bench.Config.Values.{validate_parameter_value-IsValid}
use parallel_reduction_bench.Sweep.Params.{values_of}

-- The catalog has an algorithm for the request, and each parameter is one of the algorithm's and has
-- valid values.
pub record IsSupported (catalog : AlgorithmCatalog) (request : AlgorithmRequest) : Type 0 where
  pub definition : AlgorithmDefinition
  pub found : Catalog.get catalog request.id ≡ ok definition
  pub tunable : All (λ p. In p.0 definition.tunables) request.params
  pub valid : All (λ p. All (IsValid p.0) (values_of p.1)) request.params

module _ (definition : AlgorithmDefinition) where
  abbrev unknown : List (String × Param) → List String
  unknown params = filter (λ name. not (contains definition.tunables name)) (map (λ p. p.0) params)

  tunable-from :
      (params : List (String × Param))
      → demand (is_empty (unknown params)) ≡ ok tt
      → All (λ p. In p.0 definition.tunables) params
  tunable-from params h =
      All-imp params (λ p no. contains→In definition.tunables p.0 (ground arith))
        (All-of_map (λ name. not (contains definition.tunables name) ≡ false) params
          (none_of_filter _ _ (is_empty→nil _ (demand-ok _ h))))

  tunable-of :
      (params : List (String × Param))
      → All (λ p. In p.0 definition.tunables) params
      → demand (is_empty (unknown params)) ≡ ok tt
  tunable-of params h =
      rw
        (filter_of_none (λ name. not (contains definition.tunables name)) (map (λ p. p.0) params)
          (All-map _ (λ p. p.0) params
            (All-imp params (λ p m. rw (In→contains definition.tunables p.0 m) refl) h)))
        refl

validate_params-valid :
    (params : List (String × Param))
    → (validate_params params ≡ ok tt) ↔ All (λ p. All (IsValid p.0) (values_of p.1)) params
unfolding validate_params
validate_params-valid params = (
  λ h.
      All-imp params
        (λ p each.
          All-imp (values_of p.1) (λ v one. (validate_parameter_value-IsValid p.0 v).0 one)
            (for_each-All _ (values_of p.1) each))
        (for_each-All _ params h),
  λ h. for_each_of_All _ params (
      All-imp params
        (λ p each.
          for_each_of_All _ (values_of p.1) (
            All-imp (values_of p.1) (λ v one. (validate_parameter_value-IsValid p.0 v).1 one) each))
        h),
)

validate_request-IsSupported :
    (catalog : AlgorithmCatalog) (request : AlgorithmRequest)
    → (validate_request catalog request ≡ ok tt) ↔ IsSupported catalog request
unfolding validate_request
validate_request-IsSupported catalog request = (
  λ h.
      let (definition, e, h') = >>=-eq-ok (Catalog.get catalog request.id) _ h in
      let (_, known, h'') =
        >>=-eq-ok (demand (is_empty (unknown definition request.params))) _ h' in
      record {
        definition = definition;
        found = e;
        tunable = tunable-from definition request.params known;
        valid = (validate_params-valid request.params).0 h'';
      },
  λ s.
      rw (s.found, tunable-of s.definition request.params s.tunable)
        ((validate_params-valid request.params).1 s.valid),
)

-- A configuration is accepted exactly if for each of its requests the catalog has an algorithm, each
-- parameter of the request is one of the algorithm's, and each value is valid: a block size is 32, 64,
-- 128, 256, 512 or 1024, a size or a count a positive integer, `use_cuda_graphs` a Boolean,
-- `cpu_fraction` a number in [0, 1), `ema_alpha` one in (0, 1], `guided_factor` and `target_chunk_ms` a
-- number that is not at most 0, as a NaN is, and the value of any other parameter is free. An integer
-- counts as a number if it is small enough for a float.
pub validate_algorithms_iff :
    (catalog : AlgorithmCatalog) (config : RootConfig)
    → (validate_algorithms catalog config ≡ ok tt)
      ↔ All (λ group. All (IsSupported catalog) group.algorithms) config.experiments
unfolding validate_algorithms
validate_algorithms_iff catalog config = (
  λ h.
      All-imp config.experiments
        (λ group g.
          All-imp group.algorithms (λ request r. (validate_request-IsSupported catalog request).0 r)
            (for_each-All _ group.algorithms g))
        (for_each-All _ config.experiments h),
  λ h. for_each_of_All _ config.experiments (
      All-imp config.experiments
        (λ group g. for_each_of_All _ group.algorithms (
          All-imp group.algorithms (λ request r. (validate_request-IsSupported catalog request).1 r)
            g))
        h),
)

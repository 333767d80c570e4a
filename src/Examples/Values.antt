-- ===== src/Examples/Values.antt =====
-- The generation of prbench/datasets.py with a generator that draws the lowest value.
use parallel_reduction_bench.Prelude.{
  ℕ, zero, suc, ◌≡◌, refl, subst, inl, inr, true, Bool-cases, none, List, [], ◌∷◌, All, length,
  if◌then◌else◌, arith,
}
use parallel_reduction_bench.Prelude.Int.{ℤ, pos, negsuc, leb_ℤ, leb_ℤ_refl, ◌+ℤ◌}
use parallel_reduction_bench.Prelude.Float.{finite}
use parallel_reduction_bench.Prelude.Result.{Result, ok, raise, value_error, ok-injective}
use parallel_reduction_bench.Models.{DatasetSpec, Distribution}
use parallel_reduction_bench.Samples
use parallel_reduction_bench.Datasets.{
  replicate, max_abs, validate_integer_sum_bound, sum_ℤ, Generated, generate_chunk, generate_loop,
  generate,
}
use parallel_reduction_bench.Datasets.Bound.{length-replicate}
use parallel_reduction_bench.Datasets.Cache.{
  CacheEntry, Serves, cached_artifact, get_or_create, get_or_create-Serves,
}
use parallel_reduction_bench.Datasets.Exact.{IsDraw, IsExact, generate-IsExact}

abbrev pub lowest : ℤ → ℤ → ℕ → ℕ → Result (List ℤ)
lowest low high offset n = if leb_ℤ low high then ok (replicate n low) else raise value_error

replicate-All : (P : ℤ → Type 0) (n : ℕ) (v : ℤ) → P v → All P (replicate n v)
replicate-All P zero v h = tt
replicate-All P (suc n) v h = (h, replicate-All P n v h)

drawn :
    (low high : ℤ) (offset n : ℕ) (values : List ℤ)
    → lowest low high offset n ≡ ok values
    → (leb_ℤ low high ≡ true) × (replicate n low ≡ values)
drawn low high offset n values h = elim (Bool-cases (leb_ℤ low high)) [
  | inl e ↦ (e, ok-injective (rw e at h))
  | inr e ↦ let impossible : raise value_error ≡ ok values = (rw e at h) in absurd (cc)
]

pub lowest-IsDraw : IsDraw lowest
lowest-IsDraw = record {
  count = λ low high offset n values h.
      subst (λ vs. length vs ≡ n) (drawn low high offset n values h).1 (length-replicate n low);
  lies = λ low high offset n values h.
      let (ends, same) = drawn low high offset n values h in
      subst (All (λ v. (leb_ℤ low v ≡ true) × (leb_ℤ v high ≡ true))) same (
        replicate-All (λ v. (leb_ℤ low v ≡ true) × (leb_ℤ v high ≡ true)) n low
          (leb_ℤ_refl low, ends));
}

abbrev pub five : DatasetSpec
five = record Samples.dataset {
  size = 5;
  distribution = Distribution.integers;
  low = finite (negsuc 2) 0;
  high = finite (pos 7) 0;
}

abbrev five_values : Generated
five_values = record {
  values = negsuc 2 ∷ negsuc 2 ∷ negsuc 2 ∷ negsuc 2 ∷ negsuc 2 ∷ [];
  int_reference = negsuc 14;
  written = 5;
}

five-generate : generate lowest 2 five ≡ ok five_values
unfolding generate generate_loop generate_chunk validate_integer_sum_bound max_abs sum_ℤ ◌+ℤ◌
five-generate = refl

generate-IsExact_example : IsExact five five_values
generate-IsExact_example =
    generate-IsExact lowest lowest-IsDraw 2 five five_values refl (omega arith) five-generate

abbrev empty_cache : CacheEntry
empty_cache = record { data_bytes = none; metadata = none }

get_or_create-Serves_example :
    Serves (λ a b. true) lowest 2 five (get_or_create (λ a b. true) lowest 2 five empty_cache)
get_or_create-Serves_example =
    get_or_create-Serves (λ a b. true) lowest 2 five lowest-IsDraw refl (omega arith) refl
      empty_cache

-- what is generated first is the artifact of the second call
stored :
    (get_or_create (λ a b. true) lowest 2 five empty_cache).0
    ≡ ok (record { schema_version = 4; spec = five; size_bytes = 20; reference_sum = negsuc 14 })
unfolding get_or_create cached_artifact generate generate_loop generate_chunk
    validate_integer_sum_bound max_abs sum_ℤ ◌+ℤ◌
stored = refl

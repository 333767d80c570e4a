-- ===== src/Datasets/Cache.antt =====
-- `cached_artifact` and `get_or_create` of prbench/datasets.py for an integer data type, on the two files
-- of one dataset in the cache.
use parallel_reduction_bench.Prelude.{
  ℕ, ◌*◌, ◌<◌, ◌≡◌, refl, Bool, true, false, ◌&&◌, Option, none, some, List, length, is_empty, ◌==◌,
  ℕ_eq, if◌then◌else◌, arith,
}
use parallel_reduction_bench.Prelude.Int.{ℤ}
use parallel_reduction_bench.Prelude.Result.{Result, ok, raise, runtime_error}
use parallel_reduction_bench.Models.{DatasetSpec}
use parallel_reduction_bench.Capacity.{dtype_size_bytes}
use parallel_reduction_bench.Validation.{is_integer}
use parallel_reduction_bench.Datasets.{Generated, validate_integer_sum_bound, generate}
use parallel_reduction_bench.Datasets.Exact.{IsDraw, IsExact, generate-IsExact}

-- The entries of the metadata that are read again.
pub record Metadata : Type 0 where
  pub schema_version : ℕ
  pub spec : DatasetSpec
  pub size_bytes : ℕ
  pub reference_sum : ℤ

-- The metadata's file: not readable as JSON, without a key that is asked for, and complete.
pub data MetadataFile : Type 0 where
  unreadable incomplete : MetadataFile
  complete : Metadata → MetadataFile

-- The size of the data's file and the metadata's file, where they exist.
pub record CacheEntry : Type 0 where
  pub data_bytes : Option ℕ
  pub metadata : Option MetadataFile

abbrev pub dataset_schema_version : ℕ
dataset_schema_version = 4

abbrev pub expected_bytes : DatasetSpec → ℕ
expected_bytes spec = spec.size * dtype_size_bytes spec.dtype

-- `same_spec` compares the JSON values of two specifications.
module _ (same_spec : DatasetSpec → DatasetSpec → Bool) where
  abbrev pub is_current : DatasetSpec → ℕ → Metadata → Bool
  is_current spec bytes m =
      bytes == expected_bytes spec
      && same_spec m.spec spec
      && m.schema_version == dataset_schema_version

  abbrev pub checked_file : DatasetSpec → ℕ → MetadataFile → Option Metadata
  checked_file spec bytes unreadable = none
  checked_file spec bytes incomplete = none
  checked_file spec bytes (complete m) = if is_current spec bytes m then some m else none

  abbrev pub checked_files : DatasetSpec → Option ℕ → Option MetadataFile → Option Metadata
  checked_files spec none file = none
  checked_files spec (some bytes) none = none
  checked_files spec (some bytes) (some file) = checked_file spec bytes file

  unfoldable pub cached_artifact : DatasetSpec → CacheEntry → Option Metadata
  cached_artifact spec entry = checked_files spec entry.data_bytes entry.metadata

  module _ (draw : ℤ → ℤ → ℕ → ℕ → Result (List ℤ)) (chunk_elements : ℕ) where
    abbrev pub metadata_of : DatasetSpec → Generated → Metadata
    metadata_of spec g = record {
      schema_version = dataset_schema_version;
      spec = spec;
      size_bytes = length g.values * dtype_size_bytes spec.dtype;
      reference_sum = g.int_reference;
    }

    abbrev pub data_file : DatasetSpec → Generated → Option ℕ
    data_file spec g = some (length g.values * dtype_size_bytes spec.dtype)

    -- the files after the loop; without a value there is no minimum, and the metadata is not written
    abbrev pub write_files : DatasetSpec → CacheEntry → Generated → Result Metadata × CacheEntry
    write_files spec entry g =
        if is_empty g.values
        then (raise runtime_error, record entry { data_bytes = data_file spec g })
        else (
          ok (metadata_of spec g),
          record { data_bytes = data_file spec g; metadata = some (complete (metadata_of spec g)) },
        )

    abbrev pub create_files :
        DatasetSpec → CacheEntry → Result Generated → Result Metadata × CacheEntry
    create_files spec entry (raise kind) = (raise kind, entry)
    create_files spec entry (ok g) = write_files spec entry g

    abbrev pub get_or_generate :
        DatasetSpec → CacheEntry → Option Metadata → Result Metadata × CacheEntry
    get_or_generate spec entry (some m) = (ok m, entry)
    get_or_generate spec entry none = create_files spec entry (generate draw chunk_elements spec)

    -- The check of the bound comes first in either case; `generate` repeats it.
    abbrev pub get_checked :
        DatasetSpec → CacheEntry → Result (Unit {0}) → Result Metadata × CacheEntry
    get_checked spec entry (raise kind) = (raise kind, entry)
    get_checked spec entry (ok _) = get_or_generate spec entry (cached_artifact spec entry)

    unfoldable pub get_or_create : DatasetSpec → CacheEntry → Result Metadata × CacheEntry
    get_or_create spec entry = get_checked spec entry (validate_integer_sum_bound spec)

    -- A cache from which an artifact comes back gives it again.
    abbrev pub Serves : DatasetSpec → Result Metadata × CacheEntry → Type 0
    Serves spec (raise kind, entry) = Unit
    Serves spec (ok m, entry) = get_or_create spec entry ≡ (ok m, entry)

    abbrev pub Stored : DatasetSpec → Result Metadata × CacheEntry → Type 0
    Stored spec (raise kind, entry) = Unit
    Stored spec (ok m, entry) = cached_artifact spec entry ≡ some m

    module _ (spec : DatasetSpec) (is_draw : IsDraw draw) (is_int : is_integer spec.dtype ≡ true)
        (some_chunk : 0 < chunk_elements) (stable : same_spec spec spec ≡ true) where
      hit :
          (entry : CacheEntry) (m : Metadata) (u : Unit {0})
          → validate_integer_sum_bound spec ≡ ok u
          → cached_artifact spec entry ≡ some m
          → get_or_create spec entry ≡ (ok m, entry)
      unfolding get_or_create
      hit entry m u valid cached = rw valid (rw cached refl)

      written-cached :
          (g : Generated) (entry : CacheEntry)
          → IsExact spec g
          → cached_artifact spec (record {
            data_bytes = data_file spec g;
            metadata = some (complete (metadata_of spec g));
          })
            ≡ some (metadata_of spec g)
      unfolding cached_artifact
      written-cached g entry exact = rw exact.complete (rw stable (ground arith))

      retain_written :
          (entry : CacheEntry) (g : Generated) (no_values : Bool)
          → is_empty g.values ≡ no_values
          → IsExact spec g
          → Stored spec (write_files spec entry g)
      retain_written entry g true none_written exact = rw none_written tt
      retain_written entry g false some_written exact =
          rw some_written (written-cached g entry exact)

      retain_created :
          (entry : CacheEntry) (r : Result Generated)
          → generate draw chunk_elements spec ≡ r
          → Stored spec (create_files spec entry r)
      retain_created entry (raise kind) made = tt
      retain_created entry (ok g) made =
          retain_written entry g (is_empty g.values) refl
            (generate-IsExact draw is_draw chunk_elements spec g is_int some_chunk made)

      retain_found :
          (entry : CacheEntry) (found : Option Metadata)
          → cached_artifact spec entry ≡ found
          → Stored spec (get_or_generate spec entry found)
      retain_found entry (some m) cached = cached
      retain_found entry none cached = retain_created entry (generate draw chunk_elements spec) refl

      retain_checked :
          (entry : CacheEntry) (checked : Result (Unit {0}))
          → Stored spec (get_checked spec entry checked)
      retain_checked entry (raise kind) = tt
      retain_checked entry (ok u) = retain_found entry (cached_artifact spec entry) refl

      -- An artifact that is returned is in the cache.
      pub get_or_create-Stored : (entry : CacheEntry) → Stored spec (get_or_create spec entry)
      unfolding get_or_create
      get_or_create-Stored entry = retain_checked entry (validate_integer_sum_bound spec)

      Serves-Stored :
          (u : Unit {0}) (result : Result Metadata × CacheEntry)
          → validate_integer_sum_bound spec ≡ ok u
          → Stored spec result
          → Serves spec result
      Serves-Stored u (raise kind, entry) valid stored = tt
      Serves-Stored u (ok m, entry) valid stored = hit entry m u valid stored

      serve_checked :
          (entry : CacheEntry) (checked : Result (Unit {0}))
          → validate_integer_sum_bound spec ≡ checked
          → Serves spec (get_checked spec entry checked)
      serve_checked entry (raise kind) valid = tt
      serve_checked entry (ok u) valid =
          Serves-Stored u (get_checked spec entry (ok u)) valid (retain_checked entry (ok u))

      -- What is stored is found again: an artifact that `get_or_create` returns for an integer dataset,
      -- from the cache or newly generated, is what it returns the next time, and then it leaves the files
      -- as they are. The random numbers are as many as asked for and lie between the ends asked for, a
      -- chunk has at least one value, and the dataset's specification equals itself as JSON.
      pub get_or_create-Serves : (entry : CacheEntry) → Serves spec (get_or_create spec entry)
      unfolding get_or_create
      get_or_create-Serves entry = serve_checked entry (validate_integer_sum_bound spec) refl

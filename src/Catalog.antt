-- ===== src/Catalog.antt =====
-- prbench/catalog.py: the registry of algorithms. The definitions come from the YAML file, as input.
use parallel_reduction_bench.Prelude.{
  ◌≡◌, String, List, map, ◌==◌, String_eq, unique, find_last, In, In-find_last, if◌then◌else◌,
  eq_iff,
}
use parallel_reduction_bench.Prelude.Result.{
  Result, ok, raise, require, require-eq-ok, value_error, key_error,
}
use parallel_reduction_bench.Models.{AlgorithmDefinition}

-- `AlgorithmCatalog._definitions`, in the order of the file
pub record AlgorithmCatalog : Type 0 where
  pub definitions : List AlgorithmDefinition

-- `__init__`: a repeated id makes the dict shorter than the list
unfoldable pub create : List AlgorithmDefinition → Result AlgorithmCatalog
create defs =
    if unique (map (λ item. item.id) defs)
    then ok (record { definitions = defs })
    else raise value_error

unfoldable pub get : AlgorithmCatalog → String → Result AlgorithmDefinition
get catalog algorithm_id =
    require key_error (find_last (λ item. item.id == algorithm_id) catalog.definitions)

-- What the catalog returns is one of its definitions, with the id asked for.
pub get-In :
    (catalog : AlgorithmCatalog) (algorithm_id : String) (definition : AlgorithmDefinition)
    → get catalog algorithm_id ≡ ok definition
    → In definition catalog.definitions × (definition.id ≡ algorithm_id)
unfolding get
get-In catalog algorithm_id definition h =
    let (m, e) =
      In-find_last _ definition catalog.definitions (require-eq-ok key_error _ definition h) in
    (m, (eq_iff definition.id algorithm_id).0 e)

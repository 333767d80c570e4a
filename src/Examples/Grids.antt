-- ===== src/Examples/Grids.antt =====
-- `_expand_params` of prbench/sweep.py on a grid with one valid and one invalid combination.
use parallel_reduction_bench.Prelude.{
  ◌≡◌, refl, false, Option, none, some, [], ◌∷◌, All, In, ◌↔◌, any, is_empty, String_eq,
}
use mathlib.Core.List.{cons≢nil}
use parallel_reduction_bench.Prelude.Int.{pos}
use parallel_reduction_bench.Prelude.Result.{ok}
use parallel_reduction_bench.Models.{Scalar}
use parallel_reduction_bench.Samples.{grid, builtins}
use parallel_reduction_bench.Sweep.Params.{
  Combo, Reason, chunk_bounds, get, to_int, combos, check_combo, keep_valid, expand_params,
}
use parallel_reduction_bench.Sweep.Params.Product.{IsComboOf}
use parallel_reduction_bench.Sweep.Params.Valid.{expand_params_iff}

abbrev good : Combo
good = ("min_chunk_size", Scalar.int (pos 10)) ∷ ("max_chunk_size", Scalar.int (pos 20)) ∷ []

abbrev bad : Combo
bad = ("min_chunk_size", Scalar.int (pos 30)) ∷ ("max_chunk_size", Scalar.int (pos 20)) ∷ []

grid-combos : combos grid ≡ good ∷ bad ∷ []
unfolding combos
grid-combos = refl

good-checked : check_combo builtins.int_of_text good ≡ ok none
unfolding check_combo get to_int
good-checked = refl

bad-checked : check_combo builtins.int_of_text bad ≡ ok (some chunk_bounds)
unfolding check_combo get to_int
bad-checked = refl

grid-expanded : expand_params builtins.int_of_text grid ≡ ok (good ∷ [])
unfolding expand_params keep_valid combos check_combo get to_int any
grid-expanded = refl

expand_params_iff_example :
    (is_empty (good ∷ []) ≡ false)
    × ((c : Combo)
        → In c (good ∷ []) ↔ (IsComboOf grid c × (check_combo builtins.int_of_text c ≡ ok none)))
expand_params_iff_example =
    expand_params_iff builtins.int_of_text grid (good ∷ []) cons≢nil grid-expanded

grid-checks :
    All (λ c. (r : Option Reason) × (check_combo builtins.int_of_text c ≡ ok r)) (combos grid)
grid-checks = rw grid-combos ((none, good-checked), ((some chunk_bounds, bad-checked), tt))

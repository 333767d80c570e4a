-- ===== src/Prelude/Float.antt =====
-- Python's `float` as the comparisons of the code see it: every finite double is a dyadic rational,
-- so orders between floats are exact. Rounding arithmetic is not modelled here.
use Prim.Native.Nat.{ℕ, ◌^◌}
use mathlib.Core.Bool.{Bool, true, false}
use parallel_reduction_bench.Prelude.Int.{ℤ, pos, leb_ℤ, ltb_ℤ, ◌*ℤ◌}

-- `finite m k` is m / 2^k.
pub data Float : Type 0 where
  finite : ℤ → ℕ → Float
  infinity neg_infinity nan : Float

-- `a <= b` and `a < b`; a comparison with a NaN is false
unfoldable pub le_float : Float → Float → Bool
unfolding ◌*ℤ◌
le_float (finite m k) (finite n j) = leb_ℤ (m *ℤ pos (2 ^ j)) (n *ℤ pos (2 ^ k))
le_float (finite m k) infinity = true
le_float (finite m k) _ = false
le_float infinity infinity = true
le_float infinity _ = false
le_float neg_infinity nan = false
le_float neg_infinity _ = true
le_float nan _ = false

unfoldable pub lt_float : Float → Float → Bool
unfolding ◌*ℤ◌
lt_float (finite m k) (finite n j) = ltb_ℤ (m *ℤ pos (2 ^ j)) (n *ℤ pos (2 ^ k))
lt_float (finite m k) infinity = true
lt_float (finite m k) _ = false
lt_float infinity _ = false
lt_float neg_infinity (finite n j) = true
lt_float neg_infinity infinity = true
lt_float neg_infinity _ = false
lt_float nan _ = false

-- an integer as a float; the code compares such values with 0 and 1 only
abbrev pub of_ℤ : ℤ → Float
of_ℤ n = finite n 0

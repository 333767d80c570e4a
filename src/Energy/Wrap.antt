-- ===== src/Energy/Wrap.antt =====
-- The RAPL counters of prbench/energy.py over a wrap-around.
use parallel_reduction_bench.Prelude.{
  ℕ, ◌+◌, ◌-◌, ◌%◌, ◌≤◌, ◌<◌, ◌≡◌, ap, ◌∙◌, inl, inr, Bool-cases, leb→le, leb, arith,
}
use parallel_reduction_bench.Prelude.Int.{pos, ◌+ℤ◌}
use native.Mathlib.Nat.{mod-eq-sub-mod, mod-eq_of_lt}
use parallel_reduction_bench.Energy.{zone_delta}

no_wrap : (range s used : ℕ) → zone_delta range s (s + used) ≡ pos used
unfolding zone_delta ◌+ℤ◌
no_wrap range s used = ground arith

wrapped :
    (range s used : ℕ)
    → s < range
    → used < range
    → range ≤ s + used
    → zone_delta range s (s + used - range) ≡ pos used
unfolding zone_delta ◌+ℤ◌
wrapped range s used hs hu h = ground arith

-- A counter that goes back to 0 on reaching its range gives the energy that was used, if it is less than
-- the range: the difference of the readings s and (s + used) mod range is `used`, with a wrap or without.
pub zone_delta-wrap :
    (range s used : ℕ)
    → s < range
    → used < range
    → zone_delta range s ((s + used) % range) ≡ pos used
zone_delta-wrap range s used hs hu = elim (Bool-cases (leb range (s + used))) [
  | inl h ↦
      ap (zone_delta range s)
        (mod-eq-sub-mod (leb→le range (s + used) h) ∙ mod-eq_of_lt (ground arith))
      ∙ wrapped range s used hs hu (leb→le range (s + used) h)
  | inr h ↦ ap (zone_delta range s) (mod-eq_of_lt (ground arith)) ∙ no_wrap range s used
]

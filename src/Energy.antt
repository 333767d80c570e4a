-- ===== src/Energy.antt =====
-- prbench/energy.py: the difference of two readings of the RAPL counters, and the integral of sampled
-- GPU power. Energies are exact numbers of the counters' units, where the code divides to get joules.
pub mod Wrap
pub mod Integral
pub mod Meters
pub mod Record
pub mod Measured
use parallel_reduction_bench.Prelude.{
  ℕ, ◌+◌, ◌-◌, ◌*◌, min, max, leb, Bool, true, false, ◌&&◌, Option, none, some, String, String_eq,
  List, [], ◌∷◌, map, filter, find_last, ◌==◌, if◌then◌else◌,
}
use parallel_reduction_bench.Prelude.Int.{ℤ, pos, sub_ℕ, ◌+ℤ◌}
use parallel_reduction_bench.Prelude.Result.{Result, ok, raise, index_error}

pub record RaplZone : Type 0 where
  pub name : String
  pub max_range_uj : ℕ

-- The microjoules between two readings of one zone; a smaller reading means that the counter wrapped.
unfoldable pub zone_delta : ℕ → ℕ → ℕ → ℤ
unfolding ◌+ℤ◌
zone_delta max_range start_val end_val =
    if leb start_val end_val
    then pos (end_val - start_val)
    else sub_ℕ max_range start_val +ℤ pos end_val

abbrev pub lookup : {A : Type 0} → String → List (String × A) → Option (String × A)
lookup name readings = find_last (λ entry. entry.0 == name) readings

-- The total and the zones' differences, in microjoules.
abbrev pub add_zone : String → ℤ → ℤ × List (String × ℤ) → ℤ × List (String × ℤ)
add_zone name delta (total, per_zone) = (delta +ℤ total, (name, delta) ∷ per_zone)

-- `delta_j`: a zone that is not known, or not in the second reading, is passed over.
unfoldable pub delta_j :
    List RaplZone → List (String × ℕ) → List (String × ℕ) → ℤ × List (String × ℤ)
delta_j zones [] end = (pos 0, [])
delta_j zones ((name, start_val) ∷ start) end =
    let rest = delta_j zones start end in
    elim (lookup name end) [
      | none ↦ rest
      | some (_, end_val) ↦ elim (find_last (λ z. z.name == name) zones) [
        | none ↦ rest
        | some zone ↦ add_zone name (zone_delta zone.max_range_uj start_val end_val) rest
      ]
    ]

abbrev pub in_window : ℕ → ℕ → ℕ × ℕ → Bool
in_window start_ns end_ns (ts, power) = leb start_ns ts && leb ts end_ns

abbrev pub clip : ℕ → ℕ → ℕ × ℕ → ℕ × ℕ
clip start_ns end_ns (ts, power) = (max start_ns (min ts end_ns), power)

-- The trapezoids from a sample on, and the last sample's power up to the end; doubled. Timestamps do not
-- decrease.
unfoldable pub trapezoids : ℕ → ℕ × ℕ → List (ℕ × ℕ) → ℕ
trapezoids end_ns (t0, p0) [] = 2 * p0 * (end_ns - t0)
trapezoids end_ns (t0, p0) ((t1, p1) ∷ rest) =
    (p0 + p1) * (t1 - t0) + trapezoids end_ns (t1, p1) rest

-- Twice the energy of the samples that lie in the window.
unfoldable pub integrate_clipped : ℕ → ℕ → List (ℕ × ℕ) → Result ℕ
integrate_clipped start_ns end_ns [] = raise index_error
integrate_clipped start_ns end_ns ((t0, p0) ∷ []) = ok (2 * p0 * (end_ns - start_ns))
integrate_clipped start_ns end_ns ((t0, p0) ∷ (t1, p1) ∷ rest) =
    ok (trapezoids end_ns (t0, p0) ((t1, p1) ∷ rest) + 2 * p0 * (t0 - start_ns))

-- `_integrate_samples`, doubled
unfoldable pub integrate_samples : List (ℕ × ℕ) → ℕ → ℕ → Result ℕ
integrate_samples [] start_ns end_ns = ok 0
integrate_samples (s ∷ samples) start_ns end_ns =
    integrate_clipped start_ns end_ns
      (map (clip start_ns end_ns) (filter (in_window start_ns end_ns) (s ∷ samples)))

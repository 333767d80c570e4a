-- ===== src/Examples/Pools.antt =====
-- prbench/topology.py on the sample machine.
use parallel_reduction_bench.Prelude.{
  ◌≡◌, ◌↔◌, refl, IsSorted, none, some, List, [], ◌∷◌, ◌++◌, ℕ, dedupe, All, In, String_eq, pair_eq,
  list_eq, filter, contains, find_last, sort, insert,
}
use parallel_reduction_bench.Prelude.Int.{ℤ, pos, leb_ℤ, ◌+ℤ◌}
use parallel_reduction_bench.Prelude.Text.{split, lstrip, rstrip, split_once, signed, int_digits}
use parallel_reduction_bench.Prelude.Result.{ok, raise, value_error, require, extend_each}
use parallel_reduction_bench.Samples.{cpu_ids, machine}
use parallel_reduction_bench.Topology.{
  usable, choose_loop, choose_one_thread_per_core, explicit_pool, unavailable, cpu_by_id,
  node_candidates, class_candidates, with_policy, resolve_cpu_pool,
}
use parallel_reduction_bench.Topology.CpuList.{parse_cpu_list, ids_from}
use parallel_reduction_bench.Topology.CpuList.Print.{CpuRange, print_ranges}
use parallel_reduction_bench.Topology.CpuList.Ids.{IsAscending, Listed}
use parallel_reduction_bench.Topology.CpuList.RoundTrip.{parse_cpu_list-print}
use parallel_reduction_bench.Topology.Cores.{
  Chosen, Represents, choose_one_thread_per_core-IsSelection,
}
use parallel_reduction_bench.Topology.Pool.{
  IsCandidate, resolve_cpu_pool-IsSelection, resolve_cpu_pool-online,
}

abbrev one_per_core : List ℤ
one_per_core = pos 0 ∷ pos 1 ∷ pos 2 ∷ pos 3 ∷ []

machine-one_per_core : choose_one_thread_per_core machine cpu_ids ≡ one_per_core
unfolding choose_one_thread_per_core choose_loop sort insert contains
machine-one_per_core = refl

choose_one_thread_per_core-IsSelection_example :
    Chosen cpu_ids [] machine.logical_cpus one_per_core
    × All
        (Represents one_per_core machine.logical_cpus)
        (filter (usable cpu_ids) machine.logical_cpus)
choose_one_thread_per_core-IsSelection_example =
    rw (← machine-one_per_core) (choose_one_thread_per_core-IsSelection machine cpu_ids)

-- the performance CPUs of the second socket
abbrev second_fast : List ℤ
second_fast = pos 2 ∷ pos 6 ∷ []

machine-second_fast :
    resolve_cpu_pool machine "performance" "all_threads" (some (pos 1)) none ≡ ok second_fast
unfolding resolve_cpu_pool node_candidates class_candidates with_policy filter contains sort insert
machine-second_fast = refl

resolve_cpu_pool-IsSelection_example :
    IsSorted leb_ℤ second_fast
    × ((id : ℤ) → In id second_fast ↔ IsCandidate machine "performance" (some (pos 1)) id)
resolve_cpu_pool-IsSelection_example =
    resolve_cpu_pool-IsSelection machine "performance" "all_threads" (some (pos 1)) second_fast refl
      machine-second_fast

-- The kernel's "2-4,0,3", with a line end.
abbrev cpu_ranges : List CpuRange
cpu_ranges =
    record { first = 2; last = 4 }
    ∷ record { first = 0; last = 0 }
    ∷ record { first = 3; last = 3 }
    ∷ []

parse_cpu_list-print_example :
    (ids : List ℤ) × (parse_cpu_list (print_ranges cpu_ranges ++ b'\n' ∷ []) ≡ ok ids)
    × IsAscending ids
    × ((x : ℤ) → In x ids ↔ Listed cpu_ranges x)
parse_cpu_list-print_example = parse_cpu_list-print cpu_ranges

abbrev cpu_line : List ℕ
cpu_line = b'2' ∷ b'-' ∷ b'4' ∷ b',' ∷ b'0' ∷ b',' ∷ b'3' ∷ b'\n' ∷ []

cpu_ranges-text : print_ranges cpu_ranges ++ b'\n' ∷ [] ≡ cpu_line
unfolding print_ranges
cpu_ranges-text = refl

cpu_line-parsed : parse_cpu_list cpu_line ≡ ok (pos 0 ∷ pos 2 ∷ pos 3 ∷ pos 4 ∷ [])
unfolding parse_cpu_list split lstrip rstrip split_once signed int_digits require extend_each
    ids_from ◌+ℤ◌ dedupe contains sort insert
cpu_line-parsed = refl

-- a range that runs down has no ids, and an empty token is skipped
no_ids-parsed : parse_cpu_list (b'4' ∷ b'-' ∷ b'2' ∷ b',' ∷ b' ' ∷ []) ≡ ok []
unfolding parse_cpu_list split lstrip rstrip split_once signed int_digits require extend_each
    ids_from ◌+ℤ◌ dedupe contains sort insert
no_ids-parsed = refl

-- CPU 7 is offline
abbrev with_offline : List ℤ
with_offline = pos 0 ∷ pos 7 ∷ []

abbrev online_only : List ℤ
online_only = pos 3 ∷ pos 0 ∷ []

machine-with_offline :
    resolve_cpu_pool machine "all" "all_threads" none (some with_offline) ≡ raise value_error
unfolding resolve_cpu_pool explicit_pool unavailable cpu_by_id find_last filter contains
machine-with_offline = refl

machine-online_only :
    resolve_cpu_pool machine "performance" "all_threads" none (some online_only) ≡ ok online_only
unfolding resolve_cpu_pool explicit_pool unavailable cpu_by_id find_last filter contains
machine-online_only = refl

resolve_cpu_pool-online_example : All (IsCandidate machine "all" none) online_only
resolve_cpu_pool-online_example =
    resolve_cpu_pool-online machine "performance" "all_threads" none (some online_only) online_only
      machine-online_only

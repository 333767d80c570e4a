-- ===== src/Topology/CpuList.antt =====
-- `_parse_cpu_list` of prbench/topology.py: the ids in a text such as "0-3,8,10-11", the form in which
-- the kernel prints a set of CPUs.
pub mod Print
pub mod Ids
pub mod RoundTrip
use parallel_reduction_bench.Prelude.{
  ℕ, zero, suc, ◌+◌, ◌-◌, none, some, List, [], ◌∷◌, is_empty, sort, dedupe, if◌then◌else◌,
}
use parallel_reduction_bench.Prelude.Int.{ℤ, pos, pos_part, neg_part, ◌+ℤ◌, ℤ_eq, leb_ℤ}
use parallel_reduction_bench.Prelude.Result.{Result, ok, value_error, ◌>>=◌, require, extend_each}
use parallel_reduction_bench.Prelude.Text.{strip, split, split_once, int_of_codes}

-- as many ids as asked for, from the first on
unfoldable pub ids_from : ℤ → ℕ → List ℤ
ids_from first zero = []
ids_from first (suc n) = first ∷ ids_from (first +ℤ pos 1) n

-- `range(lo, hi + 1)`
abbrev pub id_range : ℤ → ℤ → List ℤ
id_range lo hi = ids_from lo (pos_part hi + neg_part lo + 1 - (neg_part hi + pos_part lo))

abbrev pub id_of_text : List ℕ → Result ℤ
id_of_text s = require value_error (int_of_codes s)

-- what the loop adds for a stripped token
unfoldable pub token_ids : List ℕ → Result (List ℤ)
token_ids token = elim (split_once b'-' token) [
  | some (lo, hi) ↦ do first ← id_of_text lo; last ← id_of_text hi; ok (id_range first last)
  | none ↦ do id ← id_of_text token; ok (id ∷ [])
]

-- one round of the loop over the tokens
unfoldable pub parse_token : List ℕ → Result (List ℤ)
unfolding token_ids
parse_token raw = let token = strip raw in if is_empty token then ok [] else token_ids token

unfoldable pub parse_cpu_list : List ℕ → Result (List ℤ)
unfolding parse_token
parse_cpu_list raw = do
  ids ← extend_each parse_token (split b',' (strip raw))
  ok (sort leb_ℤ (dedupe ids))

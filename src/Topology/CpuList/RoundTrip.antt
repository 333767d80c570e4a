-- ===== src/Topology/CpuList/RoundTrip.antt =====
-- `_parse_cpu_list` of prbench/topology.py reads what the kernel prints.
use parallel_reduction_bench.Prelude.{
  ◌≡◌, ◌∙◌, refl, sym, ap, ◌↔◌, inl, inr, ℕ, suc, ◌+◌, ◌-◌, ◌<◌, false, List, [], ◌∷◌, ◌++◌, arith,
  eqb, eqb_iff, Bool-cases, is_empty, dedupe, In-dedupe, All, All-append, In, In-append_left,
  In-append_right, In-of_In-append, sort, In-sort, In-of_In-sort,
}
use parallel_reduction_bench.Prelude.Int.{ℤ, pos, ℤ_eq, leb_ℤ}
use parallel_reduction_bench.Prelude.Result.{ok, require, extend_each, ◌>>=◌}
use parallel_reduction_bench.Prelude.Text.{split, split_once, lstrip, rstrip, signed}
use parallel_reduction_bench.Topology.CpuList.{
  ids_from, id_range, id_of_text, token_ids, parse_token, parse_cpu_list,
}
use parallel_reduction_bench.Topology.CpuList.Print.{
  CpuRange, digits, digits-All, digits-append, print_range, print_ranges, NoSpace, strip_of_NoSpace,
  strip-line, int_of_codes-digits, Lacks, split_of_Lacks, split-joined, split_once_of_Lacks,
  split_once-joined,
}
use parallel_reduction_bench.Topology.CpuList.Ids.{
  IsAscending, Listed, range_ids, sort-dedupe-IsAscending, In-of_In-dedupe, ids_from-eq,
  In-range_ids,
}

-- The digits of a number, a dash, or a comma.
print_range-All :
    (P : ℕ → Type 0)
    → ((d : ℕ) → d < 10 → P (b'0' + d))
    → P b'-'
    → (r : CpuRange) → All P (print_range r)
unfolding print_range
print_range-All P each dash r = elim (Bool-cases (eqb r.first r.last)) [
  | inl e ↦ rw e (digits-All P each r.first [] tt)
  | inr e ↦ rw e (digits-All P each r.first _ (dash, digits-All P each r.last [] tt))
]

print_range-NoSpace : (r : CpuRange) → NoSpace (print_range r)
print_range-NoSpace = print_range-All _ (λ d lt. ground arith) refl

print_range-Lacks : (r : CpuRange) → Lacks b',' (print_range r)
print_range-Lacks = print_range-All _ (λ d lt. ground arith) refl

print_ranges-NoSpace : (rs : List CpuRange) → NoSpace (print_ranges rs)
unfolding print_ranges
print_ranges-NoSpace [] = tt
print_ranges-NoSpace (r ∷ []) = print_range-NoSpace r
print_ranges-NoSpace (r ∷ q ∷ rest) =
    All-append _ (print_range r) _ (print_range-NoSpace r) (refl, print_ranges-NoSpace (q ∷ rest))

digits-Lacks : (n : ℕ) → Lacks b'-' (digits n [])
digits-Lacks n = digits-All _ (λ d lt. ground arith) n [] tt

id_of_text-digits : (n : ℕ) → id_of_text (digits n []) ≡ ok (pos n)
unfolding require
id_of_text-digits n = rw int_of_codes-digits refl

one_id : (n : ℕ) → id_range (pos n) (pos n) ≡ pos n ∷ []
one_id n =
    let count : n + 0 + 1 - (0 + n) ≡ suc 0 = omega arith in
    ap (ids_from (pos n)) count ∙ ids_from-eq n 0 ∙ unfold ids_from in refl

token_ids-digits : (n : ℕ) → token_ids (digits n []) ≡ ok (pos n ∷ [])
unfolding token_ids
token_ids-digits n =
    rw (split_once_of_Lacks b'-' (digits n []) (digits-Lacks n), token_ids)
      (rw (id_of_text-digits n, ◌>>=◌) refl)

token_ids-dash :
    (m n : ℕ) → token_ids (digits m [] ++ b'-' ∷ digits n []) ≡ ok (id_range (pos m) (pos n))
unfolding token_ids
token_ids-dash m n =
    rw (split_once-joined b'-' (digits m []) (digits n []) (digits-Lacks m), token_ids)
      (rw (id_of_text-digits m, id_of_text-digits n, ◌>>=◌) refl)

token_ids-print : (r : CpuRange) → token_ids (print_range r) ≡ ok (range_ids r)
unfolding print_range
token_ids-print r = elim (Bool-cases (eqb r.first r.last)) [
  | inl e ↦
      let same : r.first ≡ r.last = (eqb_iff r.first r.last).0 e in
      rw e (
        token_ids-digits r.first
        ∙ ap ok (sym (one_id r.first))
        ∙ ap (λ n. ok (id_range (pos r.first) (pos n))) same)
  | inr e ↦ rw (e, digits-append r.first (b'-' ∷ digits r.last [])) (token_ids-dash r.first r.last)
]

not_empty : (s : List ℕ) (ids : List ℤ) → token_ids s ≡ ok ids → is_empty s ≡ false
unfolding token_ids split_once require signed lstrip rstrip
not_empty [] ids h = cc
not_empty (c ∷ s) ids h = refl

parse_token-print : (r : CpuRange) → parse_token (print_range r) ≡ ok (range_ids r)
unfolding parse_token
parse_token-print r =
    rw
      (
        strip_of_NoSpace (print_range r) (print_range-NoSpace r),
        not_empty (print_range r) _ (token_ids-print r),
      )
      (token_ids-print r)

abbrev Reads : List (List ℕ) → List CpuRange → Type 0
Reads tokens rs =
    (ids : List ℤ) × (extend_each parse_token tokens ≡ ok ids) × ((x : ℤ) → In x ids ↔ Listed rs x)

Reads-cons :
    (r : CpuRange) (tokens : List (List ℕ)) (rs : List CpuRange)
    → Reads tokens rs
    → Reads (print_range r ∷ tokens) (r ∷ rs)
unfolding extend_each
Reads-cons r tokens rs (ids, read, same) = (
  range_ids r ++ ids,
  rw (parse_token-print r, read) refl,
  λ x. (
    λ m. elim (In-of_In-append x (range_ids r) ids m) [
      | inl i ↦ inl ((In-range_ids r x).0 i)
      | inr i ↦ inr ((same x).0 i)
    ],
    λ l. elim l [
      | inl c ↦ In-append_left x (range_ids r) ids ((In-range_ids r x).1 c)
      | inr c ↦ In-append_right x (range_ids r) ids ((same x).1 c)
    ],
  ),
)

print_ranges-Reads : (rs : List CpuRange) → Reads (split b',' (print_ranges rs)) rs
unfolding print_ranges
print_ranges-Reads [] =
    ([], unfold extend_each split parse_token lstrip rstrip in refl, λ x. (λ m. m, λ m. m))
print_ranges-Reads (r ∷ []) =
    rw (split_of_Lacks b',' (print_range r) (print_range-Lacks r))
      (Reads-cons r [] [] ([], unfold extend_each in refl, λ x. (λ m. m, λ m. m)))
print_ranges-Reads (r ∷ q ∷ rest) =
    rw (split-joined b',' (print_range r) (print_ranges (q ∷ rest)) (print_range-Lacks r))
      (Reads-cons r _ (q ∷ rest) (print_ranges-Reads (q ∷ rest)))

-- What the kernel prints is read back: of the line that lists some ranges of CPUs, in any order and
-- also if they overlap, the parser returns the ids that lie in one of the ranges, each once, in
-- ascending order.
pub parse_cpu_list-print :
    (rs : List CpuRange)
    → (ids : List ℤ) × (parse_cpu_list (print_ranges rs ++ b'\n' ∷ []) ≡ ok ids)
      × IsAscending ids
      × ((x : ℤ) → In x ids ↔ Listed rs x)
unfolding parse_cpu_list
parse_cpu_list-print rs =
    let (read, parsed, same) = print_ranges-Reads rs in
    (
      sort leb_ℤ (dedupe read),
      rw (strip-line (print_ranges rs) (print_ranges-NoSpace rs)) (rw parsed refl),
      sort-dedupe-IsAscending read,
      λ x. (
        λ m. (same x).0 (In-of_In-dedupe x read (In-of_In-sort leb_ℤ x _ m)),
        λ l. In-sort leb_ℤ x _ (In-dedupe x read ((same x).1 l)),
      ),
    )

-- ===== src/Topology/CpuList/Ids.antt =====
-- The ids in the ranges of `_parse_cpu_list` of prbench/topology.py, and their order.
use parallel_reduction_bench.Prelude.{
  ◌≡◌, ◌∙◌, refl, ap, ◌↔◌, ◌⊎◌, inl, inr, ℕ, zero, suc, ◌+◌, ◌≤◌, ◌<◌, true, false, List, [], ◌∷◌,
  arith, eqb, eqb_iff, Bool-cases, contains, contains-dedupe, dedupe, dedupe-All, not-In, All-imp,
  All-In, All-self, In, IsSorted, insert, insert-All, sort, In-of_In-sort,
}
use parallel_reduction_bench.Prelude.Int.{
  ℤ, pos, negsuc, eqb_ℤ, ◌+ℤ◌, ℤ_eq, eqb_ℤ_iff, leb_ℤ, ltb_ℤ,
}
use parallel_reduction_bench.Topology.CpuList.{ids_from, id_range}
use parallel_reduction_bench.Topology.CpuList.Print.{CpuRange}

-- Each id is less than all behind it.
abbrev pub IsAscending : List ℤ → Type 0
IsAscending = IsSorted ltb_ℤ

eqb_ℤ_of_le : (a x : ℤ) → leb_ℤ a x ≡ true → ltb_ℤ a x ≡ false → eqb_ℤ a x ≡ true
eqb_ℤ_of_le (pos a) (pos x) h e = ground arith
eqb_ℤ_of_le (pos a) (negsuc x) h e = ground arith
eqb_ℤ_of_le (negsuc a) (pos x) h e = ground arith
eqb_ℤ_of_le (negsuc a) (negsuc x) h e = ground arith

ltb_ℤ_of_ne : (a x : ℤ) → leb_ℤ a x ≡ true → ¬ (a ≡ x) → ltb_ℤ a x ≡ true
ltb_ℤ_of_ne a x h ne = elim (Bool-cases (ltb_ℤ a x)) [
  | inl e ↦ e
  | inr e ↦ absurd (ne ((eqb_ℤ_iff a x).0 (eqb_ℤ_of_le a x h e)))
]

insert-IsAscending :
    (a : ℤ) (xs : List ℤ) → ¬ In a xs → IsAscending xs → IsAscending (insert leb_ℤ a xs)
unfolding insert
insert-IsAscending a [] n h = (tt, tt)
insert-IsAscending a (x ∷ xs) n h = elim (Bool-cases (leb_ℤ a x)) [
  | inl e ↦
      let below = ltb_ℤ_of_ne a x e (λ q. n (inl q)) in
      rw e ((below, All-imp xs (λ y l. ground (arith)) h.0), h)
  | inr e ↦ rw e (
    insert-All leb_ℤ (λ y. ltb_ℤ x y ≡ true) a xs (ground arith) h.0,
    insert-IsAscending a xs (λ m. n (inr m)) h.1,
  )
]

pub sort-dedupe-IsAscending : (xs : List ℤ) → IsAscending (sort leb_ℤ (dedupe xs))
unfolding sort dedupe
sort-dedupe-IsAscending [] = tt
sort-dedupe-IsAscending (x ∷ xs) = elim (Bool-cases (contains xs x)) [
  | inl old ↦ rw old (sort-dedupe-IsAscending xs)
  | inr new ↦ rw new (
      insert-IsAscending x (sort leb_ℤ (dedupe xs))
        (λ m. not-In (dedupe xs) x (contains-dedupe xs x ∙ new) (In-of_In-sort leb_ℤ x _ m))
        (sort-dedupe-IsAscending xs))
]

pub In-of_In-dedupe : (x : ℤ) (xs : List ℤ) → In x (dedupe xs) → In x xs
In-of_In-dedupe x xs =
    All-In (λ y. In y xs) x (dedupe xs) (dedupe-All (λ y. In y xs) xs (All-self xs))

-- The id lies in the range.
abbrev pub Covers : CpuRange → ℤ → Type 0
Covers r x = (k : ℕ) × (x ≡ pos k) × (r.first ≤ k) × (k ≤ r.last)

-- The id lies in one of the ranges.
abbrev pub Listed : List CpuRange → ℤ → Type 0
Listed [] x = ⊥
Listed (r ∷ rs) x = Covers r x ⊎ Listed rs x

pub ids_from-eq :
    (first n : ℕ) → ids_from (pos first) (suc n) ≡ pos first ∷ ids_from (pos (first + 1)) n
unfolding ids_from ◌+ℤ◌
ids_from-eq first n = let next : pos first +ℤ pos 1 ≡ pos (first + 1) = ground arith in rw next refl

In-ids_from : (k first n : ℕ) → first ≤ k → k < first + n → In (pos k) (ids_from (pos first) n)
In-ids_from k first zero l h = absurd (omega arith)
In-ids_from k first (suc n) l h = rw ids_from-eq (elim (Bool-cases (eqb k first)) [
  | inl e ↦ inl (ap pos ((eqb_iff k first).0 e))
  | inr e ↦ inr (In-ids_from k (first + 1) n (ground arith) (omega arith))
])

In-of_In-ids_from :
    (x : ℤ) (first n : ℕ)
    → In x (ids_from (pos first) n)
    → (k : ℕ) × (x ≡ pos k) × (first ≤ k) × (k < first + n)
In-of_In-ids_from x first zero m = absurd (unfold ids_from in m)
In-of_In-ids_from x first (suc n) m = elim (cases first n m) [
  | inl e ↦ (first, e, omega arith, omega arith)
  | inr i ↦
      let (k, e, l, u) = In-of_In-ids_from x (first + 1) n i in (k, e, omega arith, omega arith)
]
  where
    cases :
        (first n : ℕ)
        → In x (ids_from (pos first) (suc n))
        → (x ≡ pos first) ⊎ In x (ids_from (pos (first + 1)) n)
    cases first n i = rw (ids_from-eq first n) at i

abbrev pub range_ids : CpuRange → List ℤ
range_ids r = id_range (pos r.first) (pos r.last)

pub In-range_ids : (r : CpuRange) (x : ℤ) → In x (range_ids r) ↔ Covers r x
In-range_ids r x = (
  λ m. let (k, e, l, u) = In-of_In-ids_from x r.first _ m in (k, e, l, omega arith),
  λ (k, e, l, u). rw e (In-ids_from k r.first _ l (omega arith)),
)

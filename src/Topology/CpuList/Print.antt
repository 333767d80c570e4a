-- ===== src/Topology/CpuList/Print.antt =====
-- The text in which the kernel prints a set of CPUs, and Python's `strip`, `split` and `int` on it.
use parallel_reduction_bench.Prelude.{
  ◌≡◌, refl, ap, ℕ, zero, suc, ◌+◌, ◌/◌, ◌%◌, ◌<◌, Bool, true, false, none, some, List, [], ◌∷◌,
  ◌++◌, ◌∙◌, ◌*◌, arith, ltb, eqb, Bool-cases, inl, inr, All, if◌then◌else◌,
}
use parallel_reduction_bench.Prelude.Int.{pos}
use parallel_reduction_bench.Prelude.Text.{
  is_space, is_digit, lstrip, rstrip, strip, split, split_once, int_digits, signed, int_of_codes,
}

-- The ids from the first to the last; a set of CPUs is printed as a list of such.
pub record CpuRange : Type 0 where
  pub first : ℕ
  pub last : ℕ

-- the decimal digits of a number, before what is already written
digits_on : ℕ → ℕ → List ℕ → List ℕ
digits_on zero n out = out
digits_on (suc fuel) n out =
    let more = digits_on fuel (n / 10) ((b'0' + n % 10) ∷ out) in
    if ltb n 10 then (b'0' + n) ∷ out else more

unfoldable pub digits : ℕ → List ℕ → List ℕ
unfolding digits_on
digits n out = digits_on (suc n) n out

unfoldable pub print_range : CpuRange → List ℕ
unfolding digits
print_range r =
    if eqb r.first r.last then digits r.first [] else digits r.first (b'-' ∷ digits r.last [])

unfoldable pub print_ranges : List CpuRange → List ℕ
unfolding print_range
print_ranges [] = []
print_ranges (r ∷ []) = print_range r
print_ranges (r ∷ q ∷ rest) = print_range r ++ b',' ∷ print_ranges (q ∷ rest)

module _ (P : ℕ → Type 0) (each : (d : ℕ) → d < 10 → P (b'0' + d)) where
  digits_on-All : (fuel n : ℕ) (out : List ℕ) → All P out → All P (digits_on fuel n out)
  unfolding digits_on
  digits_on-All zero n out h = h
  digits_on-All (suc fuel) n out h = elim (Bool-cases (ltb n 10)) [
    | inl small ↦ rw small (each n (ground arith), h)
    | inr large ↦ rw large (digits_on-All fuel (n / 10) _ (each (n % 10) (omega arith), h))
  ]

  pub digits-All : (n : ℕ) (out : List ℕ) → All P out → All P (digits n out)
  unfolding digits
  digits-All n out h = digits_on-All (suc n) n out h

digits_on-append :
    (fuel n : ℕ) (out rest : List ℕ) → digits_on fuel n (out ++ rest) ≡ digits_on fuel n out ++ rest
unfolding digits_on
digits_on-append zero n out rest = refl
digits_on-append (suc fuel) n out rest =
    ground (arith, digits_on-append fuel (n / 10) ((b'0' + n % 10) ∷ out) rest)

pub digits-append : (n : ℕ) (rest : List ℕ) → digits n rest ≡ digits n [] ++ rest
unfolding digits
digits-append n rest = digits_on-append (suc n) n [] rest

int_digits_digit :
    (after : Bool) (value d next : ℕ) (rest : List ℕ)
    → d < 10
    → value * 10 + d ≡ next
    → int_digits after value ((b'0' + d) ∷ rest) ≡ int_digits true next rest
unfolding int_digits
int_digits_digit after value d next rest h e = ground arith

-- Reading the digits of a number, and what is behind them, goes on behind them with the number.
int_digits-digits_on :
    (after : Bool) (fuel n : ℕ) (out : List ℕ)
    → n < fuel
    → int_digits after 0 (digits_on fuel n out) ≡ int_digits true n out
unfolding digits_on
int_digits-digits_on after zero n out h = absurd (omega arith)
int_digits-digits_on after (suc fuel) n out h = elim (Bool-cases (ltb n 10)) [
  | inl small ↦ rw small (int_digits_digit after 0 n n out (ground arith) (omega arith))
  | inr large ↦ rw large (
      int_digits-digits_on after fuel (n / 10) ((b'0' + n % 10) ∷ out) (ground arith)
      ∙ int_digits_digit true (n / 10) (n % 10) n out (omega arith) (omega arith))
]

signed_of_digits :
    (s : List ℕ) (n : ℕ)
    → All (λ c. is_digit c ≡ true) s
    → int_digits false 0 s ≡ some n
    → signed s ≡ some (pos n)
unfolding signed int_digits
signed_of_digits [] n h e = absurd (cc e)
signed_of_digits (c ∷ s) n h e =
    let minus : eqb c b'-' ≡ false = ground (arith, h.0) in
    let plus : eqb c b'+' ≡ false = ground (arith, h.0) in rw (minus, plus) (rw e refl)

-- A text without spaces is its own `strip`, also with a line end.
abbrev pub NoSpace : List ℕ → Type 0
NoSpace s = All (λ c. is_space c ≡ false) s

lstrip_of_NoSpace : (s : List ℕ) → NoSpace s → lstrip s ≡ s
unfolding lstrip
lstrip_of_NoSpace [] h = refl
lstrip_of_NoSpace (c ∷ s) h = rw h.0 refl

rstrip_of_NoSpace : (s : List ℕ) → NoSpace s → rstrip s ≡ s
unfolding rstrip
rstrip_of_NoSpace [] h = refl
rstrip_of_NoSpace (c ∷ s) h = rw (h.0, rstrip_of_NoSpace s h.1) refl

rstrip-line : (s : List ℕ) → NoSpace s → rstrip (s ++ b'\n' ∷ []) ≡ s
unfolding rstrip
rstrip-line [] h = refl
rstrip-line (c ∷ s) h = rw (h.0, rstrip-line s h.1) refl

pub strip_of_NoSpace : (s : List ℕ) → NoSpace s → strip s ≡ s
strip_of_NoSpace s h = ap lstrip (rstrip_of_NoSpace s h) ∙ lstrip_of_NoSpace s h

pub strip-line : (s : List ℕ) → NoSpace s → strip (s ++ b'\n' ∷ []) ≡ s
strip-line s h = ap lstrip (rstrip-line s h) ∙ lstrip_of_NoSpace s h

-- What is read back of a number is the number.
pub int_of_codes-digits : (n : ℕ) → int_of_codes (digits n []) ≡ some (pos n)
unfolding digits
int_of_codes-digits n =
    ap signed (strip_of_NoSpace _ (digits-All _ (λ d lt. ground arith) n [] tt))
    ∙ signed_of_digits _ n (digits-All _ (λ d lt. ground arith) n [] tt)
        (unfold int_digits in int_digits-digits_on false (suc n) n [] (omega arith))

module _ (sep : ℕ) where
  abbrev pub Lacks : List ℕ → Type 0
  Lacks s = All (λ c. eqb c sep ≡ false) s

  pub split_of_Lacks : (s : List ℕ) → Lacks s → split sep s ≡ s ∷ []
  unfolding split
  split_of_Lacks [] h = refl
  split_of_Lacks (c ∷ s) h = rw (h.0, split_of_Lacks s h.1) refl

  pub split-joined : (s rest : List ℕ) → Lacks s → split sep (s ++ sep ∷ rest) ≡ s ∷ split sep rest
  unfolding split
  split-joined [] rest h = let same : eqb sep sep ≡ true = ground arith in rw same refl
  split-joined (c ∷ s) rest h = rw (h.0, split-joined s rest h.1) refl

  pub split_once_of_Lacks : (s : List ℕ) → Lacks s → split_once sep s ≡ none
  unfolding split_once
  split_once_of_Lacks [] h = refl
  split_once_of_Lacks (c ∷ s) h = rw (h.0, split_once_of_Lacks s h.1) refl

  pub split_once-joined :
      (s rest : List ℕ) → Lacks s → split_once sep (s ++ sep ∷ rest) ≡ some (s, rest)
  unfolding split_once
  split_once-joined [] rest h = let same : eqb sep sep ≡ true = ground arith in rw same refl
  split_once-joined (c ∷ s) rest h = rw (h.0, split_once-joined s rest h.1) refl

-- ===== src/Datasets/Bound.antt =====
-- What the bound of prbench/datasets.py protects: sums of a dataset's values.
use parallel_reduction_bench.Prelude.{
  ℕ, zero, suc, ◌+◌, ◌-◌, ◌*◌, ◌/◌, ◌^◌, ◌≤◌, ◌<◌, ◌≡◌, refl, ap, ◌∙◌, subst, max, true, List, [],
  ◌∷◌, ◌++◌, All, length, arith,
}
use parallel_reduction_bench.Prelude.Int.{ℤ, pos, negsuc, sub_ℕ, ◌+ℤ◌, leb_ℤ}
use parallel_reduction_bench.Prelude.Float.{Float, finite, infinity, neg_infinity, nan}
use parallel_reduction_bench.Prelude.Result.{ok, ok-injective}
use native.Mathlib.Nat.{mod-eq_of_lt, mul-add, le-div_iff_mul-le, div-mul-le_self, two-pow-succ}
use parallel_reduction_bench.Datasets.{floor, ceil, abs, wrap_int64, sum_ℤ, replicate}

abs-add : (a b : ℤ) → abs (a +ℤ b) ≤ abs a + abs b
unfolding ◌+ℤ◌
abs-add a b = ground arith

+ℤ_assoc : (a b c : ℤ) → a +ℤ (b +ℤ c) ≡ a +ℤ b +ℤ c
unfolding ◌+ℤ◌
+ℤ_assoc a b c = ground arith

pub wrap_int64_lem : (a : ℤ) → abs a < 2 ^ 63 → wrap_int64 a ≡ a
wrap_int64_lem (pos n) h = ground (arith, mod-eq_of_lt {n = n} {m = 2 ^ 64} (omega (arith, h)))
wrap_int64_lem (negsuc n) h = ground (arith, mod-eq_of_lt {n = n} {m = 2 ^ 64} (omega (arith, h)))

pub sum_ℤ-append : (xs ys : List ℤ) → sum_ℤ (xs ++ ys) ≡ sum_ℤ xs +ℤ sum_ℤ ys
unfolding sum_ℤ ◌+ℤ◌
sum_ℤ-append [] ys = zero_add (sum_ℤ ys)
  where
    zero_add : (b : ℤ) → b ≡ pos 0 +ℤ b
    zero_add b = ground arith
sum_ℤ-append (x ∷ xs) ys = ap (λ s. x +ℤ s) (sum_ℤ-append xs ys) ∙ +ℤ_assoc x (sum_ℤ xs) (sum_ℤ ys)

-- A value is at most m in absolute value.
abbrev pub Bounded : ℕ → ℤ → Type 0
Bounded m v = abs v ≤ m

pub abs-sum_ℤ :
    (m : ℕ) (values : List ℤ) → All (Bounded m) values → abs (sum_ℤ values) ≤ m * length values
unfolding sum_ℤ
abs-sum_ℤ m [] h = omega arith
abs-sum_ℤ m (v ∷ values) h =
    omega
      (arith, h.0, abs-sum_ℤ m values h.1, abs-add v (sum_ℤ values), mul-add m 1 (length values))

pub between :
    (a b c d v : ℤ)
    → leb_ℤ a b ≡ true
    → leb_ℤ b v ≡ true
    → leb_ℤ v c ≡ true
    → leb_ℤ c d ≡ true
    → abs v ≤ max (max (abs a) (abs d)) 1
between a b c d v ab bv vc cd = ground arith

pow-pos : (k : ℕ) → 0 < 2 ^ k
pow-pos zero = omega arith
pow-pos (suc k) = omega (arith, two-pow-succ k, pow-pos k)

div_mono : (n m d : ℕ) → 0 < d → n ≤ m → n / d ≤ m / d
div_mono n m d pos_d le = (le-div_iff_mul-le pos_d).1 (omega (arith, le, div-mul-le_self n d))

leb_pos : (x y : ℕ) → x ≤ y → leb_ℤ (pos x) (pos y) ≡ true
leb_pos x y h = ground arith

leb_neg : (x y : ℕ) → x ≤ y → leb_ℤ (sub_ℕ 0 y) (sub_ℕ 0 x) ≡ true
leb_neg x y h = ground arith

pub floor-le-ceil : (x : Float) (a b : ℤ) → floor x ≡ ok a → ceil x ≡ ok b → leb_ℤ a b ≡ true
floor-le-ceil (finite (pos n) k) a b f c =
    subst (λ u. leb_ℤ u b ≡ true) (ok-injective f)
      (subst (λ u. leb_ℤ (pos (n / 2 ^ k)) u ≡ true) (ok-injective c)
        (leb_pos (n / 2 ^ k) ((n + (2 ^ k - 1)) / 2 ^ k)
          (div_mono n (n + (2 ^ k - 1)) (2 ^ k) (pow-pos k) (omega arith))))
floor-le-ceil (finite (negsuc n) k) a b f c =
    subst (λ u. leb_ℤ u b ≡ true) (ok-injective f)
      (subst (λ u. leb_ℤ (sub_ℕ 0 ((suc n + (2 ^ k - 1)) / 2 ^ k)) u ≡ true) (ok-injective c)
        (leb_neg (suc n / 2 ^ k) ((suc n + (2 ^ k - 1)) / 2 ^ k)
          (div_mono (suc n) (suc n + (2 ^ k - 1)) (2 ^ k) (pow-pos k) (omega arith))))
floor-le-ceil nan a b f c = absurd (cc)
floor-le-ceil infinity a b f c = absurd (cc)
floor-le-ceil neg_infinity a b f c = absurd (cc)

pub replicate-Bounded : (m n : ℕ) (v : ℤ) → Bounded m v → All (Bounded m) (replicate n v)
replicate-Bounded m zero v h = tt
replicate-Bounded m (suc n) v h = (h, replicate-Bounded m n v h)

pub length-replicate : (n : ℕ) (v : ℤ) → length (replicate n v) ≡ n
length-replicate zero v = refl
length-replicate (suc n) v = ap suc (length-replicate n v)

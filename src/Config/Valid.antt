-- ===== src/Config/Valid.antt =====
-- Which values of a parameter prbench/config.py accepts, said without its tests.
use parallel_reduction_bench.Prelude.{
  ◌≡◌, refl, ◌⊎◌, inl, inr, ℕ, suc, ◌+◌, ◌-◌, ◌^◌, Bool, true, false, not, ◌&&◌, String, List, ◌∷◌,
  arith, String_eq, Bool-cases, zero, In, leb,
}
use parallel_reduction_bench.Prelude.Int.{ℤ, pos, negsuc, pos_part, neg_part, leb_ℤ}
use parallel_reduction_bench.Prelude.Float.{Float, le_float, lt_float, of_ℤ}
use parallel_reduction_bench.Prelude.Result.{ok, ◌>>=◌, >>=-eq-ok}
use parallel_reduction_bench.Models.{Scalar, int, bool, float, text, null}
use parallel_reduction_bench.Config.{as_int, as_number, is_bool, demand, positive_names}
use parallel_reduction_bench.Config.Accepted.{block_sizes, demand-ok}

-- The value is a number: a float, or an integer that a float can be made of.
pub data IsNumber (value : Scalar) (x : Float) : Type 0 where
  of_float : value ≡ float x → IsNumber value x
  of_int :
      (n : ℤ)
      → value ≡ int n
      → leb (2 ^ 1024 - 2 ^ 970) (pos_part n + neg_part n) ≡ false
      → x ≡ of_ℤ n
      → IsNumber value x

abbrev pub constrained_names : List String
constrained_names =
    "use_cuda_graphs" ∷ "cpu_fraction" ∷ "guided_factor" ∷ "target_chunk_ms" ∷ "ema_alpha"
    ∷ "block_size" ∷ positive_names

abbrev pub zero_float : Float
zero_float = of_ℤ (pos 0)

abbrev pub one_float : Float
one_float = of_ℤ (pos 1)

-- A block size is a power of two from 32 to 1024, a size or a count a positive integer, `cpu_fraction` a
-- number in [0, 1), `ema_alpha` one in (0, 1], and a factor or a time not a number up to 0. Other
-- parameters may have any value.
pub data IsValid (name : String) (value : Scalar) : Type 0 where
  block_size :
      (k : ℕ) → In k block_sizes → name ≡ "block_size" → value ≡ int (pos k) → IsValid name value
  count : (k : ℕ) → In name positive_names → value ≡ int (pos (suc k)) → IsValid name value
  graphs : (b : Bool) → name ≡ "use_cuda_graphs" → value ≡ bool b → IsValid name value
  fraction :
      (x : Float)
      → name ≡ "cpu_fraction"
      → IsNumber value x
      → le_float zero_float x ≡ true
      → lt_float x one_float ≡ true
      → IsValid name value
  factor :
      (x : Float)
      → (name ≡ "guided_factor") ⊎ (name ≡ "target_chunk_ms")
      → IsNumber value x
      → le_float x zero_float ≡ false
      → IsValid name value
  smoothing :
      (x : Float)
      → name ≡ "ema_alpha"
      → IsNumber value x
      → lt_float zero_float x ≡ true
      → le_float x one_float ≡ true
      → IsValid name value
  unconstrained : ¬ In name constrained_names → IsValid name value

as_int-from : (value : Scalar) (n : ℤ) → as_int value ≡ ok n → value ≡ int n
as_int-from (int m) n h = cc
as_int-from (bool b) n h = cc
as_int-from (float x) n h = cc
as_int-from (text s) n h = cc
as_int-from null n h = cc

as_number-from : (value : Scalar) (x : Float) → as_number value ≡ ok x → IsNumber value x
as_number-from (int n) x h =
    elim (Bool-cases (leb (2 ^ 1024 - 2 ^ 970) (pos_part n + neg_part n))) [
      | inl large ↦ absurd (cc (rw large at h))
      | inr small ↦ of_int n refl small (cc (rw small at h))
    ]
as_number-from (bool b) x h = absurd (cc h)
as_number-from (float y) x h = of_float (cc)
as_number-from (text s) x h = absurd (cc h)
as_number-from null x h = absurd (cc h)

pub as_number-of : (value : Scalar) (x : Float) → IsNumber value x → as_number value ≡ ok x
as_number-of value x (of_float e) = rw e refl
as_number-of value x (of_int n e small made) = rw (e, small, made) refl

module _ (name : String) (value : Scalar) where
  pub of_count :
      In name positive_names
      → (as_int value >>= λ number. demand (not (leb_ℤ number (pos 0)))) ≡ ok tt
      → IsValid name value
  of_count m h =
      let (n, e, h') = >>=-eq-ok (as_int value) _ h in
      from_int n (as_int-from value n e) (demand-ok _ h')
    where
      from_int : (n : ℤ) → value ≡ int n → not (leb_ℤ n (pos 0)) ≡ true → IsValid name value
      from_int (pos zero) e h = absurd (cc h)
      from_int (pos (suc k)) e h = count k m e
      from_int (negsuc k) e h = absurd (ground arith)

  pub of_fraction :
      name ≡ "cpu_fraction"
      → (as_number value >>= λ x. demand (le_float zero_float x && lt_float x one_float)) ≡ ok tt
      → IsValid name value
  of_fraction named h =
      let (x, e, h') = >>=-eq-ok (as_number value) _ h in
      let both = demand-ok (le_float zero_float x && lt_float x one_float) h' in
      fraction x named (as_number-from value x e) (ground arith) (ground arith)

  pub of_factor :
      (name ≡ "guided_factor") ⊎ (name ≡ "target_chunk_ms")
      → (as_number value >>= λ x. demand (not (le_float x zero_float))) ≡ ok tt
      → IsValid name value
  of_factor named h =
      let (x, e, h') = >>=-eq-ok (as_number value) _ h in
      let above = demand-ok (not (le_float x zero_float)) h' in
      factor x named (as_number-from value x e) (ground arith)

  pub of_smoothing :
      name ≡ "ema_alpha"
      → (as_number value >>= λ x. demand (lt_float zero_float x && le_float x one_float)) ≡ ok tt
      → IsValid name value
  of_smoothing named h =
      let (x, e, h') = >>=-eq-ok (as_number value) _ h in
      let both = demand-ok (lt_float zero_float x && le_float x one_float) h' in
      smoothing x named (as_number-from value x e) (ground arith) (ground arith)

pub graphs-from : (value : Scalar) → is_bool value ≡ true → (b : Bool) × (value ≡ bool b)
graphs-from (int n) h = cc
graphs-from (bool b) h = (b, refl)
graphs-from (float x) h = cc
graphs-from (text s) h = cc
graphs-from null h = cc

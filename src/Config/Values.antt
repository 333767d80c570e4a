-- ===== src/Config/Values.antt =====
-- The checks of prbench/config.py on the values of a parameter accept just the valid ones.
use parallel_reduction_bench.Prelude.{
  ◌≡◌, refl, sym, ◌↔◌, inl, inr, suc, ◌+◌, true, false, String, arith, ◌==◌, String_eq, Bool-cases,
  eq_iff, contains, contains→In, In→contains, not-In, subst, In, leb,
}
use parallel_reduction_bench.Prelude.Result.{ok}
use parallel_reduction_bench.Models.{Scalar}
use parallel_reduction_bench.Config.{positive_names, validate_parameter_value}
use parallel_reduction_bench.Config.Accepted.{demand-ok, validate_parameter_value_iff}
use parallel_reduction_bench.Config.Valid.{
  IsValid, block_size, count, graphs, fraction, factor, smoothing, unconstrained, constrained_names,
  as_number-of, of_count, of_fraction, of_factor, of_smoothing, graphs-from,
}

-- What is neither a block size nor a size or a count.
rest-IsValid :
    (name : String) (value : Scalar)
    → name == "block_size" ≡ false
    → contains positive_names name ≡ false
    → validate_parameter_value name value ≡ ok tt
    → IsValid name value
unfolding validate_parameter_value
rest-IsValid name value n₁ n₂ h = elim (Bool-cases (name == "use_cuda_graphs")) [
  | inl e ↦
      let (b, same) = graphs-from value (demand-ok _ (rw (n₁, n₂, e) at h)) in
      graphs b ((eq_iff name "use_cuda_graphs").0 e) same
  | inr n₃ ↦ elim (Bool-cases (name == "cpu_fraction")) [
    | inl e ↦ of_fraction name value ((eq_iff name "cpu_fraction").0 e) (rw (n₁, n₂, n₃, e) at h)
    | inr n₄ ↦ elim (Bool-cases (name == "guided_factor")) [
      | inl e ↦
          of_factor name value (inl ((eq_iff name "guided_factor").0 e))
            (rw (n₁, n₂, n₃, n₄, e) at h)
      | inr n₅ ↦ elim (Bool-cases (name == "target_chunk_ms")) [
        | inl e ↦
            of_factor name value (inr ((eq_iff name "target_chunk_ms").0 e))
              (rw (n₁, n₂, n₃, n₄, n₅, e) at h)
        | inr n₆ ↦ elim (Bool-cases (name == "ema_alpha")) [
          | inl e ↦
              of_smoothing name value ((eq_iff name "ema_alpha").0 e)
                (rw (n₁, n₂, n₃, n₄, n₅, n₆, e) at h)
          | inr n₇ ↦
              unconstrained
                (not-In constrained_names name (unfold contains in rw (n₃, n₄, n₅, n₆, n₇, n₁) n₂))
        ]
      ]
    ]
  ]
]

validate-IsValid :
    (name : String) (value : Scalar)
    → validate_parameter_value name value ≡ ok tt
    → IsValid name value
unfolding validate_parameter_value
validate-IsValid name value h = elim (Bool-cases (name == "block_size")) [
  | inl e ↦
      let named = (eq_iff name "block_size").0 e in
      let (k, m, same) =
        (validate_parameter_value_iff value).0
          (subst (λ n. validate_parameter_value n value ≡ ok tt) named h) in
      block_size k m named same
  | inr n₁ ↦ elim (Bool-cases (contains positive_names name)) [
    | inl e ↦ of_count name value (contains→In positive_names name e) (rw (n₁, e) at h)
    | inr n₂ ↦ rest-IsValid name value n₁ n₂ h
  ]
]

not_block_size :
    (name : String) → contains positive_names name ≡ true → name == "block_size" ≡ false
unfolding contains
not_block_size name m = elim (Bool-cases (name == "block_size")) [
  | inl e ↦ absurd (cc (rw ((eq_iff name "block_size").0 e) at m))
  | inr n ↦ n
]

-- A name that is not in the list is none of the list's.
differs :
    (name listed : String)
    → ¬ In name constrained_names
    → contains constrained_names listed ≡ true
    → name == listed ≡ false
differs name listed other m = elim (Bool-cases (name == listed)) [
  | inl e ↦ absurd (
      other (
        subst (λ n. In n constrained_names) (sym ((eq_iff name listed).0 e))
          (contains→In constrained_names listed m)))
  | inr n ↦ n
]

not_positive : (name : String) → ¬ In name constrained_names → contains positive_names name ≡ false
not_positive name other = elim (Bool-cases (contains positive_names name)) [
  | inl e ↦ absurd (other (inr (inr (inr (inr (inr (inr (contains→In positive_names name e))))))))
  | inr n ↦ n
]

IsValid-validate :
    (name : String) (value : Scalar)
    → IsValid name value
    → validate_parameter_value name value ≡ ok tt
unfolding validate_parameter_value contains
IsValid-validate name value (block_size k m named same) =
    rw named ((validate_parameter_value_iff value).1 (k, m, same))
IsValid-validate name value (count k m same) =
    let listed = In→contains positive_names name m in
    let positive : leb (suc k + 0) 0 ≡ false = ground arith in
    rw (not_block_size name listed, listed, same) (rw positive refl)
IsValid-validate name value (graphs b named same) = rw (named, same) refl
IsValid-validate name value (fraction x named number low high) =
    rw (named, as_number-of value x number) (rw (low, high) refl)
IsValid-validate name value (factor x (inl named) number above) =
    rw (named, as_number-of value x number) (rw above refl)
IsValid-validate name value (factor x (inr named) number above) =
    rw (named, as_number-of value x number) (rw above refl)
IsValid-validate name value (smoothing x named number low high) =
    rw (named, as_number-of value x number) (rw (low, high) refl)
IsValid-validate name value (unconstrained other) =
    rw
      (
        differs name "block_size" other refl,
        not_positive name other,
        differs name "use_cuda_graphs" other refl,
        differs name "cpu_fraction" other refl,
        differs name "guided_factor" other refl,
        differs name "target_chunk_ms" other refl,
        differs name "ema_alpha" other refl,
      )
      refl

-- A value passes the check of its parameter just if it is valid for it.
pub validate_parameter_value-IsValid :
    (name : String) (value : Scalar)
    → (validate_parameter_value name value ≡ ok tt) ↔ IsValid name value
validate_parameter_value-IsValid name value =
    (validate-IsValid name value, IsValid-validate name value)

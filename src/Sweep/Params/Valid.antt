-- ===== src/Sweep/Params/Valid.antt =====
-- Which combinations of a grid survive `_expand_params` of prbench/sweep.py.
use parallel_reduction_bench.Prelude.{
  ◌≡◌, refl, sym, ap₂, ◌∙◌, Bool, true, false, ◌↔◌, ◌≢◌, Option, none, some, String, List, [], ◌∷◌,
  arith, is_empty, any, filter, filter-cons_true, filter-cons_false, All, In, In-of_In-filter,
  In-filter, if◌then◌else◌,
}
use parallel_reduction_bench.Prelude.Int.{ℤ, leb_ℤ, ltb_ℤ}
use parallel_reduction_bench.Prelude.Result.{
  Result, ok, raise, value_error, ◌>>=◌, >>=-eq-ok, ok-injective,
}
use parallel_reduction_bench.Models.{int, Param}
use parallel_reduction_bench.Sweep.Params.{
  Combo, Reason, chunk_bounds, pipeline_bounds, get, to_int, is_list, combos, compare_ints,
  check_combo, judge, keep_valid, expand_params,
}
use parallel_reduction_bench.Sweep.Params.Product.{IsComboOf, combos-IsComboOf}

module _ (int_of_text : String → Result ℤ) where
  -- The combination passes both checks.
  abbrev pub accepts : Combo → Bool
  accepts combo = elim (check_combo int_of_text combo) [
    | ok reason ↦ elim reason [ none ↦ true | some r ↦ false ]
    | raise e ↦ false
  ]

  accepts_none : (c : Combo) → check_combo int_of_text c ≡ ok none → accepts c ≡ true
  accepts_none c e = ground arith

  accepts-some :
      (c : Combo) (r : Reason) → check_combo int_of_text c ≡ ok (some r) → accepts c ≡ false
  accepts-some c r e = ground arith

  none_of_accepts : (c : Combo) → accepts c ≡ true → check_combo int_of_text c ≡ ok none
  none_of_accepts c e = ground arith

  judge-eq :
      (is_sweep : Bool) (c : Combo) (cs valid : List Combo) (reason : Option Reason)
      (rest : Result (List Combo))
      → ((v : List Combo) → rest ≡ ok v → v ≡ filter accepts cs)
      → check_combo int_of_text c ≡ ok reason
      → judge int_of_text is_sweep c reason rest ≡ ok valid
      → valid ≡ filter accepts (c ∷ cs)
  judge-eq is_sweep c cs valid none rest ih e h =
      let (v, e', same) = >>=-eq-ok rest (λ valid. ok (c ∷ valid)) h in
      cc (ih v e', same, filter-cons_true accepts c cs (accepts_none c e))
  judge-eq true c cs valid (some r) rest ih e h =
      ih valid h ∙ sym (filter-cons_false accepts c cs (accepts-some c r e))
  judge-eq false c cs valid (some r) rest ih e h = absurd (cc)

  keep_valid-eq :
      (is_sweep : Bool) (cs valid : List Combo)
      → keep_valid int_of_text is_sweep cs ≡ ok valid
      → valid ≡ filter accepts cs
  unfolding keep_valid filter
  keep_valid-eq is_sweep [] valid h = cc
  keep_valid-eq is_sweep (c ∷ cs) valid h =
      let (reason, e, h') = >>=-eq-ok (check_combo int_of_text c) _ h in
      judge-eq is_sweep c cs valid reason (keep_valid int_of_text is_sweep cs)
        (λ v. keep_valid-eq is_sweep cs v) e h'

  keep_valid-sweep :
      (cs : List Combo)
      → All (λ c. (r : Option Reason) × (check_combo int_of_text c ≡ ok r)) cs
      → keep_valid int_of_text true cs ≡ ok (filter accepts cs)
  unfolding keep_valid filter
  keep_valid-sweep [] h = refl
  keep_valid-sweep (c ∷ cs) h = step h.0.0 h.0.1 (keep_valid-sweep cs h.1)
    where
      step :
          (r : Option Reason)
          → check_combo int_of_text c ≡ ok r
          → keep_valid int_of_text true cs ≡ ok (filter accepts cs)
          → keep_valid int_of_text true (c ∷ cs) ≡ ok (filter accepts (c ∷ cs))
      step none e ih = rw (e, ih) (rw (accepts_none c e) refl)
      step (some r) e ih = rw (e, ih) (rw (accepts-some c r e) refl)

  expand_params_cases :
      (params : List (String × Param)) (valid : List Combo)
      → params ≢ []
      → expand_params int_of_text params ≡ ok valid
      → (is_empty valid ≡ false) × (valid ≡ filter accepts (combos params))
  unfolding expand_params
  expand_params_cases [] valid given h = absurd (given refl)
  expand_params_cases (p ∷ ps) valid given h =
      let (kept, e, h') =
        >>=-eq-ok (keep_valid int_of_text (any (λ q. is_list q.1) (p ∷ ps)) (combos (p ∷ ps)))
          (λ kept. if is_empty kept then raise value_error else ok kept) h in
      let (more, same) = kept_eq kept h' in
      (rw (← same) more, sym same ∙ keep_valid-eq _ (combos (p ∷ ps)) kept e)
    where
      kept_eq :
          (kept : List Combo)
          → (if is_empty kept then raise value_error else ok kept) ≡ ok valid
          → (is_empty kept ≡ false) × (kept ≡ valid)
      kept_eq [] h' = absurd (cc)
      kept_eq (k ∷ ks) h' = (refl, cc)

  -- If `_expand_params` returns for a non-empty grid, the combinations are exactly those that pick
  -- one of its values for each of its keys and pass both checks, and there is at least one.
  pub expand_params_iff :
      (params : List (String × Param)) (valid : List Combo)
      → params ≢ []
      → expand_params int_of_text params ≡ ok valid
      → (is_empty valid ≡ false)
        × ((c : Combo) → In c valid ↔ (IsComboOf params c × (check_combo int_of_text c ≡ ok none)))
  expand_params_iff params valid given h =
      let (more, same) = expand_params_cases params valid given h in
      (
        more,
        λ c. (
          λ m.
              let (i, t) = In-of_In-filter accepts c (combos params) (rw same at m) in
              ((combos-IsComboOf params c).0 i, none_of_accepts c t),
          λ p. rw same (
              In-filter c accepts (combos params) ((combos-IsComboOf params c).1 p.0)
                (accepts_none c p.1)),
        ),
      )

  -- A sweep whose checks do not raise drops its invalid combinations: it returns the valid ones in
  -- the order of the product, or raises a ValueError if there is none.
  pub expand_params-sweep :
      (params : List (String × Param))
      → any (λ p. is_list p.1) params ≡ true
      → All (λ c. (r : Option Reason) × (check_combo int_of_text c ≡ ok r)) (combos params)
      → expand_params int_of_text params ≡ (
          if is_empty (filter accepts (combos params))
          then raise value_error
          else ok (filter accepts (combos params)))
  unfolding expand_params any
  expand_params-sweep [] sweep h = absurd (cc)
  expand_params-sweep (p ∷ ps) sweep h = rw (sweep, keep_valid-sweep (combos (p ∷ ps)) h) refl

  ltb_ℤ→leb_ℤ : (a b : ℤ) → ltb_ℤ b a ≡ false → leb_ℤ a b ≡ true
  ltb_ℤ→leb_ℤ a b h = ground arith

  abbrev chunk_test : Combo → Result Bool
  chunk_test c =
      compare_ints int_of_text (λ low high. ltb_ℤ high low) (get c "min_chunk_size")
        (get c "max_chunk_size")

  abbrev pipeline_test : Combo → Result Bool
  pipeline_test c =
      compare_ints int_of_text (λ parts streams. ltb_ℤ parts streams) (get c "pipeline_chunks")
        (get c "pipeline_streams")

  check_combo-none :
      (c : Combo)
      → check_combo int_of_text c ≡ ok none
      → (chunk_test c ≡ ok false) × (pipeline_test c ≡ ok false)
  unfolding check_combo
  check_combo-none c h = let (chunks, e, h') = >>=-eq-ok (chunk_test c) _ h in second chunks e h'
    where
      third :
          (b : Bool)
          → pipeline_test c ≡ ok b
          → (if b then ok (some pipeline_bounds) else ok none) ≡ ok none
          → pipeline_test c ≡ ok false
      third true e h' = absurd (cc)
      third false e h' = e

      second :
          (b : Bool)
          → chunk_test c ≡ ok b
          → (if b
              then ok (some chunk_bounds)
              else (pipeline_test c >>= λ p. if p then ok (some pipeline_bounds) else ok none))
            ≡ ok none
          → (chunk_test c ≡ ok false) × (pipeline_test c ≡ ok false)
      second true e h' = absurd (cc)
      second false e h' = let (p, e', h'') = >>=-eq-ok (pipeline_test c) _ h' in (e, third p e' h'')

  -- In a combination that is kept, integer chunk sizes are ordered, and there are no more pipeline
  -- streams than pipeline chunks.
  pub expand_params-ordered :
      (params : List (String × Param)) (valid : List Combo) (c : Combo)
      → params ≢ []
      → expand_params int_of_text params ≡ ok valid
      → In c valid
      → ((low high : ℤ)
          → get c "min_chunk_size" ≡ some (int low)
          → get c "max_chunk_size" ≡ some (int high)
          → leb_ℤ low high ≡ true)
        × ((streams parts : ℤ)
            → get c "pipeline_streams" ≡ some (int streams)
            → get c "pipeline_chunks" ≡ some (int parts)
            → leb_ℤ streams parts ≡ true)
  unfolding to_int
  expand_params-ordered params valid c given h m =
      let (chunks, pipeline) =
        check_combo-none c (((expand_params_iff params valid given h).1 c).0 m).1 in
      (
        λ low high p q.
            ltb_ℤ→leb_ℤ low high
              (ok-injective (cc (ap₂ (compare_ints int_of_text (λ l h. ltb_ℤ h l)) p q))),
        λ streams parts p q.
            ltb_ℤ→leb_ℤ streams parts
              (ok-injective (cc (ap₂ (compare_ints int_of_text (λ l h. ltb_ℤ l h)) q p))),
      )

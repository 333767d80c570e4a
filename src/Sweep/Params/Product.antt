-- ===== src/Sweep/Params/Product.antt =====
-- The product of a parameter grid, against its description entry by entry.
use parallel_reduction_bench.Prelude.{
  In-of_In-append, ℕ, ◌*◌, ◌≡◌, refl, ap, ◌∙◌, ◌↔◌, inl, inr, String, List, [], ◌∷◌, map, arith,
  length, length-append, length-map, In, In-map, In-of_In-map, In-append_left, In-append_right,
}
use parallel_reduction_bench.Models.{Scalar, Param}
use parallel_reduction_bench.Sweep.Params.{Combo, values_of, with_values, combos}

-- A combination of a grid, described without the product: the grid's keys in order, each with one of
-- its values.
abbrev pub IsComboOf : List (String × Param) → Combo → Type 0
IsComboOf [] [] = Unit
IsComboOf [] (_ ∷ _) = ⊥
IsComboOf (_ ∷ _) [] = ⊥
IsComboOf ((key, param) ∷ params) ((k, v) ∷ combo) =
    (k ≡ key) × In v (values_of param) × IsComboOf params combo

In-with_values :
    (key : String) (vs : List Scalar) (rest : List Combo) (v : Scalar) (combo : Combo)
    → In v vs
    → In combo rest
    → In ((key, v) ∷ combo) (with_values key vs rest)
unfolding with_values
In-with_values key [] rest v combo m i = absurd m
In-with_values key (w ∷ vs) rest v combo (inl e) i =
    In-append_left ((key, v) ∷ combo) (map (λ c. (key, w) ∷ c) rest) (with_values key vs rest)
      (rw e (In-map (λ c. (key, w) ∷ c) combo rest i))
In-with_values key (w ∷ vs) rest v combo (inr m) i =
    In-append_right _ _ _ (In-with_values key vs rest v combo m i)

In-of_In-with_values :
    (key : String) (vs : List Scalar) (rest : List Combo) (c : Combo)
    → In c (with_values key vs rest)
    → (v : Scalar) × (combo : Combo) × (c ≡ (key, v) ∷ combo) × In v vs × In combo rest
unfolding with_values
In-of_In-with_values key [] rest c m = absurd m
In-of_In-with_values key (w ∷ vs) rest c m =
    elim (In-of_In-append c (map (λ combo. (key, w) ∷ combo) rest) (with_values key vs rest) m) [
      | inl i ↦
          let (combo, j, e) = In-of_In-map (λ combo. (key, w) ∷ combo) c rest i in
          (w, combo, e, inl refl, j)
      | inr i ↦
          let (v, combo, e, j, k) = In-of_In-with_values key vs rest c i in (v, combo, e, inr j, k)
    ]

-- `itertools.product` enumerates exactly the combinations of the grid.
pub combos-IsComboOf :
    (params : List (String × Param)) (c : Combo) → In c (combos params) ↔ IsComboOf params c
unfolding combos
combos-IsComboOf [] [] = (λ m. tt, λ h. inl refl)
combos-IsComboOf [] (x ∷ c) = (λ m. elim m [ inl e ↦ cc | inr i ↦ i ], λ h. absurd h)
combos-IsComboOf ((key, param) ∷ params) [] = (
  λ m.
      let (v, combo, e, i, j) = In-of_In-with_values key (values_of param) (combos params) [] m in
      cc,
  λ h. absurd h,
)
combos-IsComboOf ((key, param) ∷ params) ((k, v) ∷ c) = (
  λ m.
      let (w, combo, e, i, j) =
        In-of_In-with_values key (values_of param) (combos params) ((k, v) ∷ c) m in
      let e₁ : k ≡ key = cc in
      let e₂ : v ≡ w = cc in
      let e₃ : c ≡ combo = cc in (e₁, rw e₂ i, rw e₃ ((combos-IsComboOf params combo).0 j)),
  λ h. rw h.0 (
      In-with_values key (values_of param) (combos params) v c h.1
        ((combos-IsComboOf params c).1 h.2)),
)

abbrev pub grid_size : List (String × Param) → ℕ
grid_size [] = 1
grid_size ((key, param) ∷ params) = length (values_of param) * grid_size params

length-with_values :
    (key : String) (vs : List Scalar) (rest : List Combo)
    → length (with_values key vs rest) ≡ length vs * length rest
unfolding with_values
length-with_values key [] rest = omega arith
length-with_values key (v ∷ vs) rest = omega (
  arith,
  length-append (map (λ c. (key, v) ∷ c) rest) (with_values key vs rest),
  length-map rest (λ (c : Combo). (key, v) ∷ c),
  length-with_values key vs rest,
)

-- A grid has as many combinations as the product of the numbers of values.
pub length-combos : (params : List (String × Param)) → length (combos params) ≡ grid_size params
unfolding combos
length-combos [] = refl
length-combos ((key, param) ∷ params) =
    length-with_values key (values_of param) (combos params)
    ∙ ap (λ n. length (values_of param) * n) (length-combos params)

-- ===== src/Config/Accepted.antt =====
-- What the checks of prbench/config.py let through, and what the planner can rely on.
use parallel_reduction_bench.Prelude.{
  ℕ, zero, suc, ◌<◌, ◌≡◌, refl, ap, ◌↔◌, Bool, true, false, not, ◌&&◌, ◌||◌, inl, inr, Option, none,
  some, String, List, [], ◌∷◌, map, arith, ◌==◌, ℕ_eq, String_eq, Bool-cases, eq_iff, contains,
  contains→In, is_empty→nil, none_of_filter, All, All-In, All-imp, All-self, In, if◌then◌else◌,
}
use parallel_reduction_bench.Prelude.Int.{ℤ, pos, negsuc, ltb_ℤ}
use parallel_reduction_bench.Prelude.Result.{Result, ok, ◌>>=◌, >>=-eq-ok}
use parallel_reduction_bench.Prelude.Loops.{for_each-All}
use parallel_reduction_bench.Models.{
  Scalar, int, bool, float, text, null, Param, AlgorithmDefinition, AlgorithmRequest, RootConfig,
}
use parallel_reduction_bench.Catalog
use parallel_reduction_bench.Catalog.{AlgorithmCatalog, get-In}
use parallel_reduction_bench.Config.{
  demand, bit_and, is_block_size, positive_names, validate_parameter_value, validate_params,
  validate_request, validate_algorithms,
}
use parallel_reduction_bench.Sweep.Params.{
  Combo, Reason, chunk_bounds, pipeline_bounds, get, to_int, values_of, combos, compare_ints,
  check_combo,
}
use parallel_reduction_bench.Sweep.Params.Product.{IsComboOf, combos-IsComboOf}

pub demand-ok : (b : Bool) → demand b ≡ ok tt → b ≡ true
demand-ok b h = ground arith

abbrev pub block_sizes : List ℕ
block_sizes = 32 ∷ 64 ∷ 128 ∷ 256 ∷ 512 ∷ 1024 ∷ []

abbrev all_below : ℕ → (ℕ → Bool) → Bool
all_below zero p = true
all_below (suc n) p = p n && all_below n p

all_below-lem : (n m : ℕ) (p : ℕ → Bool) → all_below n p ≡ true → m < n → p m ≡ true
all_below-lem zero m p h lt = absurd (omega arith)
all_below-lem (suc n) m p h lt = elim (Bool-cases (m == n)) [
  | inl e ↦ let same : m ≡ n = (ground arith) in rw same (ground arith)
  | inr e ↦ all_below-lem n m p (ground arith) (ground arith)
]

abbrev agree : ℕ → Bool
agree n = not (is_block_size (pos n)) || contains block_sizes n

small-agree : all_below 1025 agree ≡ true
unfolding is_block_size bit_and contains
small-agree = refl

is_block_size-In : (n : ℤ) → is_block_size n ≡ true → (k : ℕ) × In k block_sizes × (n ≡ pos k)
unfolding is_block_size
is_block_size-In (pos n) h =
    let agrees : agree n ≡ true = all_below-lem 1025 n agree small-agree (ground arith) in
    (n, contains→In block_sizes n (ground arith), refl)
is_block_size-In (negsuc n) h = absurd (ground arith)

sizes-accepted : All (λ k. is_block_size (pos k) ≡ true) block_sizes
unfolding is_block_size bit_and
sizes-accepted = (refl, (refl, (refl, (refl, (refl, (refl, tt))))))

-- A `block_size` is accepted if and only if it is one of the integers 32, 64, 128, 256, 512 and 1024.
pub validate_parameter_value_iff :
    (value : Scalar)
    → (validate_parameter_value "block_size" value ≡ ok tt)
      ↔ ((k : ℕ) × In k block_sizes × (value ≡ int (pos k)))
unfolding validate_parameter_value
validate_parameter_value_iff value = (forward value, backward)
  where
    forward :
        (v : Scalar)
        → validate_parameter_value "block_size" v ≡ ok tt
        → (k : ℕ) × In k block_sizes × (v ≡ int (pos k))
    forward (int n) h =
        let (k, m, e) = is_block_size-In n (demand-ok (is_block_size n) h) in (k, m, ap int e)
    forward (bool b) h = absurd (cc)
    forward (float x) h = absurd (cc)
    forward (text s) h = absurd (cc)
    forward null h = absurd (cc)

    backward :
        ((k : ℕ) × In k block_sizes × (value ≡ int (pos k)))
        → validate_parameter_value "block_size" value ≡ ok tt
    backward (k, m, e) =
        rw e (rw (All-In (λ k. is_block_size (pos k) ≡ true) k block_sizes sizes-accepted m) refl)

-- A value that is accepted for a size or a count is an integer.
accepted-int :
    (name : String) (v : Scalar)
    → (name == "block_size") ≡ false
    → contains positive_names name ≡ true
    → validate_parameter_value name v ≡ ok tt
    → (n : ℤ) × (v ≡ int n)
unfolding validate_parameter_value
accepted-int name (int n) e c h = (n, refl)
accepted-int name (bool b) e c h = absurd (ground arith)
accepted-int name (float x) e c h = absurd (ground arith)
accepted-int name (text s) e c h = absurd (ground arith)
accepted-int name null e c h = absurd (ground arith)

module _ (int_of_text : String → Result ℤ) where
  -- each value of a combination passed the checks, if the grid's values did
  accepted-get :
      (params : List (String × Param)) (combo : Combo) (name : String) (v : Scalar)
      → All (λ p. All (λ x. validate_parameter_value p.0 x ≡ ok tt) (values_of p.1)) params
      → IsComboOf params combo
      → get combo name ≡ some v
      → validate_parameter_value name v ≡ ok tt
  unfolding get
  accepted-get [] [] name v h c e = absurd (cc)
  accepted-get [] (_ ∷ _) name v h c e = absurd c
  accepted-get (_ ∷ _) [] name v h c e = absurd c
  accepted-get ((key, param) ∷ params) ((k, w) ∷ combo) name v h (same, m, c) e =
      elim (Bool-cases (k == name)) [
        | inl t ↦
            let named : key ≡ name = cc ((eq_iff k name).0 t) in
            let value : w ≡ v = ground arith in
            rw (← named, ← value)
              (All-In (λ x. validate_parameter_value key x ≡ ok tt) w (values_of param) h.0 m)
        | inr f ↦ accepted-get params combo name v h.1 c (ground arith)
      ]

  compare_ints-total :
      (test : ℤ → ℤ → Bool) (a b : Option Scalar)
      → ((v : Scalar) → a ≡ some v → (n : ℤ) × (v ≡ int n))
      → ((v : Scalar) → b ≡ some v → (n : ℤ) × (v ≡ int n))
      → (r : Bool) × (compare_ints int_of_text test a b ≡ ok r)
  unfolding to_int
  compare_ints-total test (some a) (some b) ha hb =
      let (n, e) = ha a refl in let (m, e') = hb b refl in (test n m, rw (e, e') refl)
  compare_ints-total test (some a) none ha hb = (false, refl)
  compare_ints-total test none b ha hb = (false, refl)

  accepted-check :
      (params : List (String × Param)) (combo : Combo)
      → All (λ p. All (λ x. validate_parameter_value p.0 x ≡ ok tt) (values_of p.1)) params
      → IsComboOf params combo
      → (r : Option Reason) × (check_combo int_of_text combo ≡ ok r)
  unfolding check_combo contains
  accepted-check params combo h c =
      let (chunks, e) =
        compare_ints-total (λ low high. ltb_ℤ high low) (get combo "min_chunk_size")
          (get combo "max_chunk_size") (λ v g. whole "min_chunk_size" v refl refl g)
          (λ v g. whole "max_chunk_size" v refl refl g) in
      let (pipeline, e') =
        compare_ints-total (λ parts streams. ltb_ℤ parts streams) (get combo "pipeline_chunks")
          (get combo "pipeline_streams") (λ v g. whole "pipeline_chunks" v refl refl g)
          (λ v g. whole "pipeline_streams" v refl refl g) in
      rw e (verdict chunks pipeline e')
    where
      whole :
          (name : String) (v : Scalar)
          → (name == "block_size") ≡ false
          → contains positive_names name ≡ true
          → get combo name ≡ some v
          → (n : ℤ) × (v ≡ int n)
      whole name v e m g = accepted-int name v e m (accepted-get params combo name v h c g)

      verdict :
          (chunks pipeline : Bool)
          → compare_ints int_of_text
              (λ parts streams. ltb_ℤ parts streams)
              (get combo "pipeline_chunks")
              (get combo "pipeline_streams")
            ≡ ok pipeline
          → (r : Option Reason) × ((if chunks then ok (some chunk_bounds) else do
            pipeline ←
                compare_ints int_of_text
                  (λ parts streams. ltb_ℤ parts streams)
                  (get combo "pipeline_chunks")
                  (get combo "pipeline_streams")
            if pipeline then ok (some pipeline_bounds) else ok none)
              ≡ ok r)
      verdict true pipeline e = (some chunk_bounds, refl)
      verdict false true e = (some pipeline_bounds, rw e refl)
      verdict false false e = (none, rw e refl)

-- The request names an algorithm of the catalog, gives values only to parameters that the algorithm
-- has, and each value passed its check.
pub record IsAccepted (catalog : AlgorithmCatalog) (request : AlgorithmRequest) : Type 0 where
  pub definition : AlgorithmDefinition
  pub known : In definition catalog.definitions
  pub named : definition.id ≡ request.id
  pub tunable : All (λ p. contains definition.tunables p.0 ≡ true) request.params
  pub valid :
      All (λ p. All (λ x. validate_parameter_value p.0 x ≡ ok tt) (values_of p.1)) request.params

pub All-of_map :
    (P : String → Type 0) (params : List (String × Param))
    → All P (map (λ p. p.0) params)
    → All (λ p. P p.0) params
All-of_map P [] h = tt
All-of_map P (p ∷ params) h = (h.0, All-of_map P params h.1)

validate_request-IsAccepted :
    (catalog : AlgorithmCatalog) (request : AlgorithmRequest)
    → validate_request catalog request ≡ ok tt
    → IsAccepted catalog request
unfolding validate_request validate_params
validate_request-IsAccepted catalog request h =
    let (definition, e, h') = >>=-eq-ok (Catalog.get catalog request.id) _ h in
    let (_, tunable, h'') = >>=-eq-ok (demand _) _ h' in
    let (listed, named) = get-In catalog request.id definition e in
    record {
      definition = definition;
      known = listed;
      named = named;
      tunable =
          All-imp request.params (λ p no. ground arith)
            (All-of_map (λ name. not (contains definition.tunables name) ≡ false) request.params
              (none_of_filter _ _ (is_empty→nil _ (demand-ok _ tunable))));
      valid =
          All-imp request.params (λ p ok_all. for_each-All _ (values_of p.1) ok_all)
            (for_each-All _ request.params h'');
    }

-- Each request of a configuration that is accepted names an algorithm of the catalog and gives valid
-- values only to the parameters of this algorithm.
pub validate_algorithms-IsAccepted :
    (catalog : AlgorithmCatalog) (config : RootConfig)
    → validate_algorithms catalog config ≡ ok tt
    → All (λ group. All (IsAccepted catalog) group.algorithms) config.experiments
unfolding validate_algorithms
validate_algorithms-IsAccepted catalog config h =
    All-imp config.experiments
      (λ group g.
        All-imp group.algorithms (λ request r. validate_request-IsAccepted catalog request r)
          (for_each-All _ group.algorithms g))
      (for_each-All _ config.experiments h)

-- In a configuration that is accepted, the planner's checks on chunk sizes, streams and chunks never
-- raise: every combination of every request gets a verdict.
pub validate_algorithms-checked :
    (int_of_text : String → Result ℤ) (catalog : AlgorithmCatalog) (config : RootConfig)
    → validate_algorithms catalog config ≡ ok tt
    → All
        (λ group.
          All
            (λ request.
              All
                (λ c. (r : Option Reason) × (check_combo int_of_text c ≡ ok r))
                (combos request.params))
            group.algorithms)
        config.experiments
validate_algorithms-checked int_of_text catalog config h =
    All-imp config.experiments
      (λ group g.
        All-imp group.algorithms
          (λ request r.
            All-imp (combos request.params)
              (λ c m.
                accepted-check int_of_text request.params c r.valid
                  ((combos-IsComboOf request.params c).0 m))
              (All-self (combos request.params)))
          g)
      (validate_algorithms-IsAccepted catalog config h)

-- ===== src/Preflight/Design/Covered.antt =====
-- What the dicts of `_design_warnings` of prbench/cli.py contain: the values of each variant of a base.
use parallel_reduction_bench.Prelude.{
  ◌≡◌, refl, sym, ap, ◌∙◌, ◌⊎◌, inl, inr, Bool, true, ◌||◌, ◌&&◌, Bool-cases, Option-cases, Option,
  none, some, String, String_eq, ℕ_eq, list_eq, pair_eq, List, [], ◌∷◌, contains, In, Eq, ◌==◌,
  arith,
}
use parallel_reduction_bench.Prelude.Int.{ℤ_eq}
use parallel_reduction_bench.Sweep.Plan.{TaskSpec}
use parallel_reduction_bench.Store.{get, update}
use parallel_reduction_bench.Store.Grouped.{get-update_same, get-update_other}
use parallel_reduction_bench.Preflight.Design.{Coverage, add, cover, cover_all}

module _ {A : Type 0} ⦃e : Eq A⦄ where
  contains-add : (a x : A) (set : List A) → contains (add a set) x ≡ (x == a || contains set x)
  unfolding contains
  contains-add a x set = elim (Bool-cases (contains set a)) [
    | inl h ↦ rw h (elim (Bool-cases (x == a)) [
      | inl same ↦ rw same (ap (contains set) ((e.test_iff x a).0 same) ∙ h)
      | inr other ↦ rw other refl
    ])
    | inr h ↦ rw h refl
  ]

module _ {K : Type 0} ⦃e : Eq K⦄ where
  -- whether a base has a value in a variant
  abbrev pub has : K → String → String → Coverage K → Bool
  has k l v d = contains (get [] l (get [] k d)) v

  -- One more task adds its own value, and nothing else.
  has-cover :
      (k : K) (l v : String) (base : K) (variant value : String) (d : Coverage K)
      → has k l v (cover base variant value d)
        ≡ ((base == k && variant == l && v == value) || has k l v d)
  has-cover k l v base variant value d = elim (Bool-cases (base == k)) [
    | inr other ↦
        rw other
          (ap (λ variants. contains (get [] l variants) v) (get-update_other _ [] base k d other))
    | inl same ↦ rw same (elim (Bool-cases (variant == l)) [
      | inr h ↦ rw h (here same ∙ ap (λ set. contains set v) (get-update_other _ [] variant l _ h))
      | inl h ↦ rw h (
          here same
          ∙ ap (λ x. contains (get [] x (update (add value) [] variant (get [] k d))) v)
              (sym ((String_eq.test_iff variant l).0 h))
          ∙ ap (λ set. contains set v) (get-update_same (add value) [] variant (get [] k d))
          ∙ contains-add value v (get [] variant (get [] k d))
          ∙ ap (λ x. v == value || contains (get [] x (get [] k d)) v)
              ((String_eq.test_iff variant l).0 h))
    ])
  ]
    where
      here :
          base == k ≡ true
          → has k l v (cover base variant value d)
            ≡ contains (get [] l (update (add value) [] variant (get [] k d))) v
      here same =
          let q : base ≡ k = (e.test_iff base k).0 same in
          ap (λ x. has x l v (cover base variant value d)) (sym q)
          ∙ ap (λ variants. contains (get [] l variants) v)
              (get-update_same (λ variants. update (add value) [] variant variants) [] base d)
          ∙ ap (λ x. contains (get [] l (update (add value) [] variant (get [] x d))) v) q

module _ {K : Type 0} ⦃e : Eq K⦄ (base : TaskSpec → Option K)
    (variant value : TaskSpec → String) where
  -- A task with this base, variant and value.
  abbrev pub Case : List TaskSpec → K → String → String → Type 0
  Case tasks k l v =
      (w : TaskSpec) × In w tasks × (base w ≡ some k) × (variant w ≡ l) × (value w ≡ v)

  pub cover_all-none :
      (task : TaskSpec) (tasks : List TaskSpec) (d : Coverage K)
      → base task ≡ none
      → cover_all base variant value d (task ∷ tasks) ≡ cover_all base variant value d tasks
  unfolding cover_all
  cover_all-none task tasks d h = rw h refl

  pub cover_all-some :
      (task : TaskSpec) (tasks : List TaskSpec) (d : Coverage K) (k : K)
      → base task ≡ some k
      → cover_all base variant value d (task ∷ tasks)
        ≡ cover_all base variant value (cover k (variant task) (value task) d) tasks
  unfolding cover_all
  cover_all-some task tasks d k h = rw h refl

  cover_all-keeps :
      (tasks : List TaskSpec) (d : Coverage K) (k : K) (l v : String)
      → has k l v d ≡ true
      → has k l v (cover_all base variant value d tasks) ≡ true
  unfolding cover_all
  cover_all-keeps [] d k l v h = h
  cover_all-keeps (task ∷ tasks) d k l v h = elim (Option-cases (base task)) [
    | inl e ↦ rw (cover_all-none task tasks d e) (cover_all-keeps tasks d k l v h)
    | inr (b, e) ↦ rw (cover_all-some task tasks d b e) (
        cover_all-keeps tasks (cover b (variant task) (value task) d) k l v
          (has-cover k l v b (variant task) (value task) d ∙ rw h (ground arith)))
  ]

  pub cover_all-has :
      (tasks : List TaskSpec) (d : Coverage K) (w : TaskSpec) (k : K)
      → In w tasks
      → base w ≡ some k
      → has k (variant w) (value w) (cover_all base variant value d tasks) ≡ true
  unfolding cover_all
  cover_all-has [] d w k m b = absurd m
  cover_all-has (task ∷ tasks) d w k (inl same) b =
      rw (cover_all-some task tasks d k (ap base (sym same) ∙ b)) (
        cover_all-keeps tasks (cover k (variant task) (value task) d) k (variant w) (value w) (
          has-cover k (variant w) (value w) k (variant task) (value task) d
          ∙ rw ((e.test_iff k k).1 refl) (
              rw ((String_eq.test_iff (variant task) (variant w)).1 (ap variant (sym same)))
                (rw ((String_eq.test_iff (value w) (value task)).1 (ap value same)) refl))))
  cover_all-has (task ∷ tasks) d w k (inr m) b = elim (Option-cases (base task)) [
    | inl e ↦ rw (cover_all-none task tasks d e) (cover_all-has tasks d w k m b)
    | inr (b', e) ↦
        rw (cover_all-some task tasks d b' e)
          (cover_all-has tasks (cover b' (variant task) (value task) d) w k m b)
  ]

  Case-of_test :
      (task : TaskSpec) (tasks : List TaskSpec) (b k : K) (l v : String)
      → base task ≡ some b
      → (b == k && variant task == l && v == value task) ≡ true
      → Case (task ∷ tasks) k l v
  Case-of_test task tasks b k l v found h =
      let first : b == k ≡ true = ground arith in
      let second : variant task == l ≡ true = ground arith in
      let third : v == value task ≡ true = ground arith in
      (
        task,
        inl refl,
        found ∙ ap some ((e.test_iff b k).0 first),
        (String_eq.test_iff (variant task) l).0 second,
        sym ((String_eq.test_iff v (value task)).0 third),
      )

  later :
      (task : TaskSpec) (tasks : List TaskSpec) (k : K) (l v : String)
      → Case tasks k l v
      → Case (task ∷ tasks) k l v
  later task tasks k l v (w, m, p, q, r) = (w, inr m, p, q, r)

  pub has-from :
      (tasks : List TaskSpec) (d : Coverage K) (k : K) (l v : String)
      → has k l v (cover_all base variant value d tasks) ≡ true
      → (has k l v d ≡ true) ⊎ Case tasks k l v
  unfolding cover_all
  has-from [] d k l v h = inl h
  has-from (task ∷ tasks) d k l v h = elim (Option-cases (base task)) [
    | inl e ↦ elim (has-from tasks d k l v (rw (cover_all-none task tasks d e) at h)) [
      | inl before ↦ inl before
      | inr case ↦ inr (later task tasks k l v case)
    ]
    | inr (b, e) ↦
        elim (has-from tasks (cover b (variant task) (value task) d) k l v
          (rw (cover_all-some task tasks d b e) at h)) [
            | inr case ↦ inr (later task tasks k l v case)
            | inl now ↦ elim (Bool-cases (b == k && variant task == l && v == value task)) [
              | inl test ↦ inr (Case-of_test task tasks b k l v e test)
              | inr other ↦ inl (
                  ap (λ t. t || has k l v d) (sym other)
                  ∙ sym (has-cover k l v b (variant task) (value task) d)
                  ∙ now)
            ]
          ]
  ]

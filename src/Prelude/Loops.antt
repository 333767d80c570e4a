-- ===== src/Prelude/Loops.antt =====
-- Rules for loops whose body may raise.
use parallel_reduction_bench.Prelude.{
  ◌≡◌, refl, ap, ◌⊎◌, inl, inr, List, [], ◌∷◌, ◌++◌, All, All-append, In, In-append_left,
  In-append_right,
}
use parallel_reduction_bench.Prelude.Result.{Result, ok, >>=-eq-ok, extend_each, for_each}

-- What a round that does not raise leaves.
module _ {A B : Type 0} (f : A → Result (List B)) where
  pub extend_each-cons :
      (x : A) (xs : List A) (out : List B)
      → extend_each f (x ∷ xs) ≡ ok out
      → (ys zs : List B) × (f x ≡ ok ys) × (extend_each f xs ≡ ok zs) × (out ≡ ys ++ zs)
  unfolding extend_each
  extend_each-cons x xs out h =
      let (ys, e, h') = >>=-eq-ok (f x) _ h in
      let (zs, e', h'') = >>=-eq-ok (extend_each f xs) _ h' in (ys, zs, e, e', cc)

  -- What each call's results satisfy, all results satisfy.
  pub extend_each-All :
      (P : B → Type 0) (xs : List A) (out : List B)
      → ((x : A) (ys : List B) → In x xs → f x ≡ ok ys → All P ys)
      → extend_each f xs ≡ ok out
      → All P out
  unfolding extend_each
  extend_each-All P [] out each h = let e : [] ≡ out = cc in rw (← e) tt
  extend_each-All P (x ∷ xs) out each h =
      let (ys, zs, e, e', same) = extend_each-cons x xs out h in
      rw same (
        All-append P ys zs (each x ys (inl refl) e)
          (extend_each-All P xs zs (λ a as' m. each a as' (inr m)) e'))

  -- A result of one call is among the results.
  pub extend_each-In :
      (b : B) (x : A) (xs : List A) (out ys : List B)
      → extend_each f xs ≡ ok out
      → In x xs
      → f x ≡ ok ys
      → In b ys
      → In b out
  extend_each-In b x [] out ys h m e i = absurd m
  extend_each-In b x (y ∷ xs) out ys h m e i =
      let (first, rest, e₁, e₂, same) = extend_each-cons y xs out h in
      rw same (elim (place first e₁ m) [
        | inl here ↦ In-append_left b first rest here
        | inr there ↦ In-append_right b first rest (extend_each-In b x xs rest ys e₂ there e i)
      ])
    where
      place : (first : List B) → f y ≡ ok first → In x (y ∷ xs) → In b first ⊎ In x xs
      place first e₁ (inl q) = let s : ys ≡ first = cc (ap f q) in inl (rw (← s) i)
      place first e₁ (inr q) = inr q

-- A loop of calls that return nothing succeeds exactly if each call does.
module _ {A : Type 0} (f : A → Result (Unit {0})) where
  pub for_each-All : (xs : List A) → for_each f xs ≡ ok tt → All (λ x. f x ≡ ok tt) xs
  unfolding for_each
  for_each-All [] h = tt
  for_each-All (x ∷ xs) h = let (_, e, h') = >>=-eq-ok (f x) _ h in (e, for_each-All xs h')

  pub for_each_of_All : (xs : List A) → All (λ x. f x ≡ ok tt) xs → for_each f xs ≡ ok tt
  unfolding for_each
  for_each_of_All [] h = refl
  for_each_of_All (x ∷ xs) h = rw h.0 (for_each_of_All xs h.1)

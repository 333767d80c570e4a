-- ===== src/Prelude/Permutations.antt =====
-- The library's permutations, with their derivation, and native lengths.
use mathlib.Core.List.{Permᴰ}
use mathlib.Core.List.Permᴰ
use parallel_reduction_bench.Prelude.{◌≡◌, refl, ap, ◌∙◌, suc, List, ◌++◌, length, All}

module _ {ℓ κ} {A : Type ℓ} (P : A → Type κ) where
  pub Perm-All : {xs ys : List A} → Permᴰ xs ys → All P xs → All P ys
  Perm-All Permᴰ.nil h = tt
  Perm-All (Permᴰ.cons e p) h = (rw e at h.0, Perm-All p h.1)
  Perm-All (Permᴰ.swap e f) h = (rw f at h.1.0, (rw e at h.0, h.1.1))
  Perm-All (Permᴰ.trans p q) h = Perm-All q (Perm-All p h)

module _ {ℓ} {A : Type ℓ} where
  pub Perm-length : {xs ys : List A} → Permᴰ xs ys → length xs ≡ length ys
  Perm-length Permᴰ.nil = refl
  Perm-length (Permᴰ.cons e p) = ap suc (Perm-length p)
  Perm-length (Permᴰ.swap e f) = refl
  Perm-length (Permᴰ.trans p q) = Perm-length p ∙ Perm-length q

  pub Perm-append : {xs ys zs ws : List A} → Permᴰ xs ys → Permᴰ zs ws → Permᴰ (xs ++ zs) (ys ++ ws)
  Perm-append {ys = ys} {zs = zs} p q =
      Permᴰ.trans (Permᴰ.append_right zs p) (Permᴰ.append_left ys q)

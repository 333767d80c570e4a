-- ===== src/Prelude/Result.antt =====
-- Python's exceptions as values.
use mathlib.Core.Path.{◌≡◌, refl}
use mathlib.Core.Bool.{Bool, true, false}
use mathlib.Core.Option.{Option, none, some}
use mathlib.Core.List.{List, [], ◌∷◌, ◌++◌}

-- The classes of the exceptions that the modelled code raises; `validation_error` is pydantic's,
-- raised for a `ValueError` in a validator.
pub data Kind : Type 0 where
  value_error key_error memory_error runtime_error timeout_error protocol_error : Kind
  zero_division_error overflow_error type_error attribute_error assertion_error validation_error
        keyboard_interrupt timeout_expired os_error index_error :
      Kind

pub data Result {ℓ} (A : Type ℓ) : Type ℓ where
  ok : A → Result A
  raise : Kind → Result A

-- A call, and what the caller goes on with if it does not raise.
module _ {ℓ κ} {A : Type ℓ} {B : Type κ} where
  infixl 5 ◌>>=◌
  abbrev pub ◌>>=◌ : Result A → (A → Result B) → Result B
  raise kind >>= next = raise kind
  ok a >>= next = next a

  -- a result that is returned comes from one that was returned before
  pub >>=-eq-ok :
      (m : Result A) (next : A → Result B) {b : B}
      → (m >>= next) ≡ ok b
      → (a : A) × (m ≡ ok a) × (next a ≡ ok b)
  >>=-eq-ok (raise kind) next h = cc
  >>=-eq-ok (ok a) next h = (a, refl, h)

infixl 5 ◌>>◌
abbrev pub ◌>>◌ {ℓ} : {B : Type ℓ} → Result (Unit {0}) → Result B → Result B
first >> second = first >>= (λ _. second)

-- `if test: raise`
abbrev pub raise_if : Bool → Kind → Result (Unit {0})
raise_if true e = raise e
raise_if false e = ok tt

-- a value that may be missing, where its absence raises
unfoldable pub require {ℓ} : {A : Type ℓ} → Kind → Option A → Result A
require e none = raise e
require e (some a) = ok a

pub require-eq-ok {ℓ} :
    {A : Type ℓ} (e : Kind) (o : Option A) (a : A) → require e o ≡ ok a → o ≡ some a
unfolding require
require-eq-ok e none a h = absurd (cc)
require-eq-ok e (some b) a h = cc

-- A loop whose body may raise, over the elements in order.
module _ {ℓ κ} {A : Type ℓ} {B : Type κ} where
  -- `for x in xs: out.extend(f(x))`
  unfoldable pub extend_each : (A → Result (List B)) → List A → Result (List B)
  extend_each f [] = ok []
  extend_each f (x ∷ xs) = do ys ← f x; zs ← extend_each f xs; ok (ys ++ zs)

pub ok-injective {ℓ} : {A : Type ℓ} {a b : A} → ok a ≡ ok b → a ≡ b
ok-injective e = cc

-- `for x in xs: f(x)`, for a call that returns nothing
unfoldable pub for_each {ℓ} : {A : Type ℓ} → (A → Result (Unit {0})) → List A → Result (Unit {0})
for_each f [] = ok tt
for_each f (x ∷ xs) = f x >> for_each f xs

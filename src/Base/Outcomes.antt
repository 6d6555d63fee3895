-- ===== src/Base/Outcomes.antt =====
-- What a C++ call may do: return, throw one of the exceptions that the code throws, or read
-- memory that is not there, which the language leaves undefined.
use mathlib.Core.Path.{◌≡◌, refl}

pub data Exception : Type 0 where
  invalid_argument out_of_range runtime_error system_error : Exception

pub data Outcome {ℓ} (A : Type ℓ) : Type ℓ where
  ok : A → Outcome A
  throw : Exception → Outcome A
  undefined : Outcome A

infixl 5 ◌>>=◌
abbrev pub ◌>>=◌ {ℓ κ} : {A : Type ℓ} {B : Type κ} → Outcome A → (A → Outcome B) → Outcome B
ok a >>= f = f a
throw e >>= f = throw e
undefined >>= f = undefined

-- What a chain of calls that returns has returned on the way.
pub ok_of_bind {ℓ κ} :
    {A : Type ℓ} {B : Type κ} (o : Outcome A) (f : A → Outcome B) (b : B)
    → (◌>>=◌ o f) ≡ ok b
    → (a : A) × (o ≡ ok a) × (f a ≡ ok b)
ok_of_bind (ok a) f b h = (a, refl, h)
ok_of_bind (throw e) f b h = cc
ok_of_bind undefined f b h = cc

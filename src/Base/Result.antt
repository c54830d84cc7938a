-- ===== src/Base/Result.antt =====
-- Go's `(value, error)` results: a value or an error of the component's own type.
use mathlib.Core.Path.{◌≡◌, refl}
use mathlib.Core.Bool.{Bool, true, false}

pub data Result {ℓ} (E A : Type ℓ) : Type ℓ where
  ok : A → Result E A
  err : E → Result E A

infixl 5 ◌>>=◌ ◌>>◌
abbrev pub ◌>>=◌ {ℓ} : {E A B : Type ℓ} → Result E A → (A → Result E B) → Result E B
err e >>= next = err e
ok a >>= next = next a

abbrev pub ◌>>◌ {ℓ} : {E A B : Type ℓ} → Result E A → Result E B → Result E B
m >> k = m >>= λ _. k

-- An early return of an error unless the test holds.
abbrev pub require : {E : Type 0} → Bool → E → Result E (Unit {0})
require true e = ok tt
require false e = err e

-- A chain that gives a value gave one at its first step.
module _ {ℓ} {E A B : Type ℓ} where
  pub >>=-eq-ok :
      (first : Result E A) (next : A → Result E B) {y : B}
      → (first >>= next) ≡ ok y
      → (x : A) × (first ≡ ok x) × (next x ≡ ok y)
  >>=-eq-ok (err e) next h = cc
  >>=-eq-ok (ok x) next h = (x, refl, h)

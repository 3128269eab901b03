-- ===== src/Base/Outcome.antt =====
-- What a Go call gives: its result, an error of the type `E`, or a panic (`logger.Panicf`, or an
-- index out of range).
use mathlib.Core.Path.{◌≡◌, refl}

pub data Outcome {ℓ} (E : Type 0) (A : Type ℓ) : Type ℓ where
  ok : A → Outcome E A
  err : E → Outcome E A
  panic : Outcome E A

module _ {ℓ κ} {E : Type 0} {A : Type ℓ} {B : Type κ} where
  infixl 5 ◌>>=◌
  abbrev pub ◌>>=◌ : Outcome E A → (A → Outcome E B) → Outcome E B
  ok a >>= f = f a
  err e >>= f = err e
  panic >>= f = panic

  pub >>=-eq-ok :
      (o : Outcome E A) (next : A → Outcome E B) {last : B}
      → (o >>= next) ≡ ok last
      → (x : A) × (o ≡ ok x) × (next x ≡ ok last)
  >>=-eq-ok panic next e = cc
  >>=-eq-ok (err _) next e = cc
  >>=-eq-ok (ok x) next e = (x, refl, e)

-- `if b { return err }`
infixl 5 ◌>>◌
abbrev pub ◌>>◌ {ℓ} : {E : Type 0} {B : Type ℓ} → Outcome E (Unit {0}) → Outcome E B → Outcome E B
m >> k = m >>= λ _. k

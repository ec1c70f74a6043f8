-- ===== src/Base/Result.antt =====
-- Python's exceptions: a computation returns a value or raises.
use mathlib.Core.Path.{◌≡◌, refl}

pub data Result {ℓ κ} (E : Type ℓ) (A : Type κ) : Type (ℓ ⊔ κ) where
  ok : A → Result E A
  err : E → Result E A

module _ {ℓ κ μ} {E : Type ℓ} {A : Type κ} {B : Type μ} where
  infixl 5 ◌>>=◌
  -- What is raised skips the rest.
  abbrev pub ◌>>=◌ : Result E A → (A → Result E B) → Result E B
  err raised >>= rest = err raised
  ok value >>= rest = rest value

  pub >>=-ok_cases :
      (first : Result E A) (rest : A → Result E B) {last : B}
      → (first >>= rest) ≡ ok last
      → (value : A) × (first ≡ ok value) × (rest value ≡ ok last)
  >>=-ok_cases (err raised) rest h = cc
  >>=-ok_cases (ok value) rest h = (value, refl, h)

module _ {ℓ μ} {E : Type ℓ} {B : Type μ} where
  infixl 5 ◌>>◌
  abbrev pub ◌>>◌ : Result E (Unit {0}) → Result E B → Result E B
  first >> rest = first >>= λ _. rest

  pub >>-ok :
      (first : Result E (Unit {0})) (rest : Result E B) {last : B}
      → (first >> rest) ≡ ok last
      → (first ≡ ok tt) × (rest ≡ ok last)
  >>-ok (err raised) rest h = cc
  >>-ok (ok tt) rest h = (refl, h)

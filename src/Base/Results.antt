-- ===== src/Base/Results.antt =====
-- The outcome of code that may raise an exception of a type `E`.
use mathlib.Core.Path.{◌≡◌, refl}

pub data Result {ℓ κ} (E : Type ℓ) (A : Type κ) : Type (ℓ ⊔ κ) where
  err : E → Result E A
  ok : A → Result E A

module _ {ℓ κ μ} {E : Type ℓ} {A : Type κ} {B : Type μ} where
  infixl 5 ◌>>=◌
  abbrev pub ◌>>=◌ : Result E A → (A → Result E B) → Result E B
  err e >>= next = err e
  ok a >>= next = next a

  -- What a step before a good result gave.
  pub bind-eq-ok :
      (first : Result E A) (next : A → Result E B) {out : B}
      → (first >>= next) ≡ ok out
      → (a : A) × (first ≡ ok a) × (next a ≡ ok out)
  bind-eq-ok (err e) next same = cc
  bind-eq-ok (ok a) next same = (a, refl, same)

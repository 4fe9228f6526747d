-- ===== src/Prelude/Results.antt =====
-- Go's pair of a value and an error, and methods that change state and may fail: what was written
-- before an error stays written.
use mathlib.Core.Path.{◌≡◌, refl}
use mathlib.Core.Logic.{◌⊎◌, inl, inr}

pub data Result {ℓ} (E A : Type ℓ) : Type ℓ where
  ok : A → Result E A
  err : E → Result E A

abbrev pub M {ℓ} : Type ℓ → Type ℓ → Type ℓ → Type ℓ
M W E A = W → Result E A × W

module _ {ℓ} {W E A B : Type ℓ} where
  abbrev pub bind_result : Result E A → (A → M W E B) → M W E B
  bind_result (ok a) f w = f a w
  bind_result (err e) f w = (err e, w)

  infixl 5 ◌>>=◌
  abbrev pub ◌>>=◌ : M W E A → (A → M W E B) → M W E B
  ◌>>=◌ m f w = bind_result (m w).0 f (m w).1

  infixl 5 ◌>>◌
  abbrev pub ◌>>◌ : M W E A → M W E B → M W E B
  m >> k = m >>= λ _. k

module _ {ℓ} {W E A : Type ℓ} where
  abbrev pub pure : A → M W E A
  pure a w = (ok a, w)

  abbrev pub raise : E → M W E A
  raise e w = (err e, w)

pub Result-cases {ℓ} :
    {E A : Type ℓ} (r : Result E A) → ((a : A) × (r ≡ ok a)) ⊎ ((e : E) × (r ≡ err e))
Result-cases (ok a) = inl (a, refl)
Result-cases (err e) = inr (e, refl)

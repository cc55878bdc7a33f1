-- ===== src/Prelude/Errors.antt =====
-- Exceptions as values: a call returns, or raises a value of the type `E`.

pub data Result {ℓ κ} (E : Type ℓ) (A : Type κ) : Type (ℓ ⊔ κ) where
  ok : A → Result E A
  err : E → Result E A

-- `abbrev`, so that `ok a >>= f` computes wherever it stands.
infixl 5 ◌>>=◌
abbrev pub ◌>>=◌ {ℓ κ λ₁} :
    {E : Type ℓ} {A : Type κ} {B : Type λ₁} → Result E A → (A → Result E B) → Result E B
ok a >>= f = f a
err e >>= f = err e

-- `except ... as error: raise other(error) from error`.
abbrev pub map_err {ℓ κ λ₁} :
    {E : Type ℓ} {F : Type κ} {A : Type λ₁} → (E → F) → Result E A → Result F A
map_err g (ok a) = ok a
map_err g (err e) = err (g e)

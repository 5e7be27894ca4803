-- ===== src/Prelude/Results.antt =====
-- Go's `(value, error)` returns: a value or an error, with the bind that stops at the first error.
use mathlib.Core.Path.{◌≡◌, refl}

pub data Result {ℓ κ} (E : Type ℓ) (A : Type κ) : Type (ℓ ⊔ κ) where
  ok : A → Result E A
  err : E → Result E A

infixl 5 ◌>>=◌
abbrev pub ◌>>=◌ {ℓ κ μ} :
    {E : Type ℓ} {A : Type κ} {B : Type μ} → Result E A → (A → Result E B) → Result E B
ok a >>= f = f a
err e >>= f = err e

-- Inversion of a successful bind.
pub >>=-eq-ok {ℓ κ μ} :
    {E : Type ℓ} {A : Type κ} {B : Type μ} (r : Result E A) (next : A → Result E B) {y : B}
    → (r >>= next) ≡ ok y
    → (x : A) × (r ≡ ok x) × (next x ≡ ok y)
>>=-eq-ok (err e) next p = cc
>>=-eq-ok (ok x) next p = (x, refl, p)

pub ok_inj {ℓ κ} : {E : Type ℓ} {A : Type κ} {x y : A} → ◌≡◌ {A = Result E A} (ok x) (ok y) → x ≡ y
ok_inj p = cc

pub err_not_ok {ℓ κ μ} :
    {E : Type ℓ} {A : Type κ} {B : Type μ} {e : E} {x : A} → ◌≡◌ {A = Result E A} (err e) (ok x) → B
err_not_ok p = cc

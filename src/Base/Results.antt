-- ===== src/Base/Results.antt =====
-- `(value, error)` of the source: a value, or the error.
use mathlib.Core.Path.{◌≡◌, refl}
use mathlib.Core.Logic.{◌⊎◌, inl, inr}
use mathlib.Core.Bool.{Bool, true, false}
use verix_dbm.Base.Tests.{if◌then◌else◌}

pub data Result {ℓ κ} (E : Type ℓ) (A : Type κ) : Type (ℓ ⊔ κ) where
  ok : A → Result E A
  err : E → Result E A

infixl 5 ◌>>=◌
abbrev pub ◌>>=◌ {ℓ κ μ} :
    {E : Type ℓ} {A : Type κ} {B : Type μ} → Result E A → (A → Result E B) → Result E B
ok a >>= f = f a
err e >>= f = err e

pub Result-cases {ℓ κ} :
    {E : Type ℓ} {A : Type κ} (r : Result E A) → ((a : A) × (r ≡ ok a)) ⊎ ((e : E) × (r ≡ err e))
Result-cases (ok a) = inl (a, refl)
Result-cases (err e) = inr (e, refl)

-- A guard that an accepted value has passed.
pub guard-ok {ℓ κ} :
    {E : Type ℓ} {A : Type κ} (refused : Bool) (e : E) (m : Result E A) (a : A)
    → (if refused then err e else m) ≡ ok a
    → m ≡ ok a
guard-ok true e m a h = cc
guard-ok false e m a h = h

-- ===== src/Common/Results.antt =====
-- A Go function that returns a value and an error.
use mathlib.Core.Path.{◌≡◌, refl}
use everoute.Common.Tests.{if◌then◌else◌}
use mathlib.Core.Bool.{Bool, true, false}
use mathlib.Core.Logic.{◌⊎◌, inl, inr}

pub data Result {ℓ κ} (E : Type ℓ) (A : Type κ) : Type (ℓ ⊔ κ) where
  ok : A → Result E A
  err : E → Result E A

infixl 5 ◌>>=◌
abbrev pub ◌>>=◌ {ℓ κ μ} :
    {E : Type ℓ} {A : Type κ} {B : Type μ} → Result E A → (A → Result E B) → Result E B
ok a >>= f = f a
err e >>= f = err e

pub Result-cases {ℓ κ} :
    {E : Type ℓ} {A : Type κ} (r : Result E A) → ((e : E) × (r ≡ err e)) ⊎ ((a : A) × (r ≡ ok a))
Result-cases (ok a) = inr (a, refl)
Result-cases (err e) = inl (e, refl)

-- what holds of the error, and what of the value
abbrev pub Returns {ℓ κ μ} :
    {E : Type ℓ} {A : Type κ} → (E → Type μ) → (A → Type μ) → Result E A → Type μ
Returns Q P (err e) = Q e
Returns Q P (ok a) = P a

pub Returns->>= {ℓ κ κ' μ} :
    {E : Type ℓ} {A : Type κ} {B : Type κ'} (Q : E → Type μ) (P : A → Type μ) (R : B → Type μ)
    (r : Result E A) (f : A → Result E B)
    → Returns Q P r
    → ((a : A) → P a → Returns Q R (f a))
    → Returns Q R (r >>= f)
Returns->>= Q P R (err e) f h k = h
Returns->>= Q P R (ok a) f h k = k a h

pub Returns-if {ℓ κ μ} :
    {E : Type ℓ} {A : Type κ} (Q : E → Type μ) (P : A → Type μ) (b : Bool) (x y : Result E A)
    → (b ≡ true → Returns Q P x)
    → (b ≡ false → Returns Q P y)
    → Returns Q P (if b then x else y)
Returns-if Q P true x y h k = h refl
Returns-if Q P false x y h k = k refl

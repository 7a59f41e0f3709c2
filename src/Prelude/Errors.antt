-- ===== src/Prelude/Errors.antt =====
-- What a Go function with an `error` result returns.
use Prim.Native.String.{String}
use mathlib.Core.Path.{◌≡◌, refl, ap, subst}
use mathlib.Core.Logic.{◌⊎◌, inl, inr}

-- The errors that the code tells apart, as `apierrors` classifies them; the rest carry their text.
pub data Error : Type 0 where
  not_found already_exists : Error
  message : String → Error

pub data Result {ℓ} (A : Type ℓ) : Type ℓ where
  ok : A → Result A
  err : Error → Result A

infixl 5 ◌>>=◌
abbrev pub ◌>>=◌ {ℓ κ} : {A : Type ℓ} {B : Type κ} → Result A → (A → Result B) → Result B
ok a >>= f = f a
err e >>= f = err e

pub Result-cases {ℓ} :
    {A : Type ℓ} (r : Result A) → ((e : Error) × (r ≡ err e)) ⊎ ((a : A) × (r ≡ ok a))
Result-cases (ok a) = inr (a, refl)
Result-cases (err e) = inl (e, refl)

abbrev value_or {ℓ} : {A : Type ℓ} → A → Result A → A
value_or default_value (ok a) = a
value_or default_value (err e) = default_value

pub ok_injective {ℓ} : {A : Type ℓ} {a b : A} → Path (Result A) (ok a) (ok b) → a ≡ b
ok_injective {a = a} e = ap (value_or a) e

abbrev Failed {ℓ} : {A : Type ℓ} → Result A → Type 0
Failed (ok _) = ⊥
Failed (err _) = Unit

-- A chain that succeeds has done so at both of its parts.
pub bind-ok {ℓ κ} :
    {A : Type ℓ} {B : Type κ} (r : Result A) (f : A → Result B) (b : B)
    → (r >>= f) ≡ ok b
    → (a : A) × (r ≡ ok a) × (f a ≡ ok b)
bind-ok (ok a) f b e = (a, refl, e)
bind-ok (err x) f b e = absurd (subst Failed e tt)

-- ===== src/Status.antt =====
-- `Status` and `StatusOr<T>` of google-cloud-cpp as the code uses them: a value, or an error code
-- (messages and metadata are left out).
use mathlib.Core.Path.{◌≡◌, refl}
use mathlib.Core.Logic.{◌⊎◌, inl, inr}
use mathlib.Core.Bool.{Bool, true, false}

pub data StatusCode : Type 0 where
  invalid_argument failed_precondition not_found already_exists unimplemented internal : StatusCode

pub data StatusOr {ℓ} (A : Type ℓ) : Type ℓ where
  ok : A → StatusOr A
  err : StatusCode → StatusOr A

-- `Status` itself: no value.
abbrev pub Status : Type 0
Status = StatusOr (Unit {0})

infixl 5 ◌>>=◌ ◌>>◌
abbrev pub ◌>>=◌ {ℓ κ} : {A : Type ℓ} {B : Type κ} → StatusOr A → (A → StatusOr B) → StatusOr B
ok a >>= f = f a
err e >>= f = err e

abbrev pub ◌>>◌ {ℓ κ} : {A : Type ℓ} {B : Type κ} → StatusOr A → StatusOr B → StatusOr B
m >> k = m >>= λ _. k

abbrev pub is_ok {ℓ} : {A : Type ℓ} → StatusOr A → Bool
is_ok (ok a) = true
is_ok (err e) = false

pub StatusOr-cases {ℓ} :
    {A : Type ℓ} (r : StatusOr A) → ((a : A) × (r ≡ ok a)) ⊎ ((e : StatusCode) × (r ≡ err e))
StatusOr-cases (ok a) = inl (a, refl)
StatusOr-cases (err e) = inr (e, refl)

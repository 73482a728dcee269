-- ===== src/Common/Results.antt =====
-- src/error.rs: the errors of the application as values. The text of an error is not kept.
use mathlib.Core.Path.{◌≡◌, refl}
use mathlib.Core.Logic.{◌⊎◌, inl, inr}
use mathlib.Core.Bool.{Bool, true, false}
use mathlib.Core.Option.{Option, none, some}

pub data AppError : Type 0 where
  structured bad_request unauthorized forbidden not_found conflict gone unprocessable : AppError
  payload_too_large unsupported_media_type upstream internal : AppError

-- The source's `Result<T, AppError>`.
pub data AppResult {ℓ} (T : Type ℓ) : Type ℓ where
  err : AppError → AppResult T
  ok : T → AppResult T

-- `if bad { return Err(error) }`.
abbrev pub refuse_if : Bool → AppError → AppResult (Unit {0})
refuse_if false error = ok tt
refuse_if true error = err error

-- `ok_or_else`.
abbrev pub ok_or {ℓ} : {T : Type ℓ} → Option T → AppError → AppResult T
ok_or none error = err error
ok_or (some value) error = ok value

-- The `?` operator: an error ends the function, a value is passed on.
infixl 5 ◌>>=◌
abbrev pub ◌>>=◌ {ℓ κ} : {T : Type ℓ} {U : Type κ} → AppResult T → (T → AppResult U) → AppResult U
(err error) >>= rest = err error
(ok value) >>= rest = rest value

-- `?` on a call that gives no value.
infixl 5 ◌>>◌
abbrev pub ◌>>◌ {ℓ} : {U : Type ℓ} → AppResult (Unit {0}) → AppResult U → AppResult U
check >> rest = check >>= λ passed. rest

pub AppResult-cases {ℓ} :
    {T : Type ℓ} (m : AppResult T) → ((e : AppError) × (m ≡ err e)) ⊎ ((value : T) × (m ≡ ok value))
AppResult-cases (err error) = inl (error, refl)
AppResult-cases (ok value) = inr (value, refl)

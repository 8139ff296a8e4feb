-- ===== src/AppError.antt =====
-- internal/apperror/error.go: the errors that carry a code and an HTTP status, and the fallible
-- results of the other modules. A Go `(T, error)` is a `Result T`.
pub mod Bind
pub mod Step
use soj.Prelude.{ℕ, ◌≡◌, refl, Bool, true, false, Option, none, some, String, ◌==◌}

-- `Error`; its `Details` are free-form data that no modelled code reads.
pub record AppError : Type 0 where
  pub code : String
  pub message : String
  pub http_status : ℕ

-- An `error` value: an application error, or any other one by its text.
pub data Error : Type 0 where
  app : AppError → Error
  plain : String → Error

pub data Result {ℓ} (T : Type ℓ) : Type ℓ where
  err : Error → Result T
  ok : T → Result T

-- Whether there is no error: `err == nil`.
abbrev pub is_ok {ℓ} : {T : Type ℓ} → Result T → Bool
is_ok (err failure) = false
is_ok (ok value) = true

infixl 5 ◌>>=◌
abbrev pub ◌>>=◌ {ℓ κ} : {T : Type ℓ} {U : Type κ} → Result T → (T → Result U) → Result U
err failure >>= go_on = err failure
ok value >>= go_on = go_on value

-- A check that returns an error or nothing, and then the rest.
infixl 5 ◌>>◌
abbrev pub ◌>>◌ {ℓ} : {U : Type ℓ} → Result (Unit {0}) → Result U → Result U
check >> rest = check >>= λ _. rest

abbrev pub new : String → String → ℕ → Error
new code message http_status =
    app (record { code = code; message = message; http_status = http_status })

abbrev pub bad_request : String → String → Error
bad_request code message = new code message 400

abbrev pub unauthorized : String → String → Error
unauthorized code message = new code message 401

abbrev pub forbidden : String → String → Error
forbidden code message = new code message 403

abbrev pub not_found : String → String → Error
not_found code message = new code message 404

abbrev pub conflict : String → String → Error
conflict code message = new code message 409

abbrev pub unprocessable : String → String → Error
unprocessable code message = new code message 422

abbrev pub service_unavailable : String → Error
service_unavailable message = new "service_unavailable" message 503

abbrev pub too_many_requests : String → String → Error
too_many_requests code message = new code message 429

-- `From`: the application error, if it is one.
abbrev pub from : Error → Option AppError
from (app e) = some e
from (plain s) = none

-- The test of problem.isNotFoundError and of the snapshot reads.
abbrev pub is_not_found : Error → Bool
is_not_found e = elim (from e) [ none ↦ false | some a ↦ a.http_status == 404 ]

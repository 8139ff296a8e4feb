-- ===== src/AppError/Bind.antt =====
-- What a chain of fallible calls that ends well says of its parts.
use soj.Prelude.{◌≡◌, refl, ◌↔◌, Bool, true, false, if◌then◌else◌, arith}
use soj.AppError.{Result, ok, err, Error, ◌>>=◌}

pub ok_injective {ℓ} : {A : Type ℓ} {a b : A} → ok a ≡ ok b → a ≡ b
ok_injective h = cc

pub bind_ok {ℓ κ} :
    {T : Type ℓ} {U : Type κ} (first : Result T) (next : T → Result U) {result : U}
    → (first >>= next) ≡ ok result
    → (value : T) × (first ≡ ok value) × (next value ≡ ok result)
bind_ok (ok value) next h = (value, refl, h)
bind_ok (err failure) next h = ground arith

pub ok_under_iff {ℓ} :
    {A : Type ℓ} (b : Bool) (m : Result A) (e : Error) {a : A}
    → ((if b then m else err e) ≡ ok a) ↔ ((b ≡ true) × (m ≡ ok a))
ok_under_iff true m e = ((λ h. (refl, h)), λ h. h.1)
ok_under_iff false m e = ground arith

pub ok_past_iff {ℓ} :
    {A : Type ℓ} (b : Bool) (m : Result A) (e : Error) {a : A}
    → ((if b then err e else m) ≡ ok a) ↔ ((b ≡ false) × (m ≡ ok a))
ok_past_iff true m e = ground arith
ok_past_iff false m e = ((λ h. (refl, h)), λ h. h.1)

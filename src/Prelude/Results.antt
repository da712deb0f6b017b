-- ===== src/Prelude/Results.antt =====
-- Results of code that may fail, for `do` blocks.
use mathlib.Core.Path.{◌≡◌, refl}
use mathlib.Core.Bool.{Bool, true, false}
use mathlib.Core.Logic.{◌⊎◌, inl, inr}

pub data Result {ℓ κ} (E : Type ℓ) (A : Type κ) : Type (ℓ ⊔ κ) where
  ok : A → Result E A
  err : E → Result E A

-- What `yield*` does: it goes on with the value, or leaves with the failure.
abbrev pub ◌>>=◌ {ε α β} :
    {Failure : Type ε} {Value : Type α} {Next : Type β}
    → Result Failure Value
    → (Value → Result Failure Next)
    → Result Failure Next
err failure >>= next = err failure
ok value >>= next = next value

abbrev pub ◌>>◌ {ε β} :
    {Failure : Type ε} {Next : Type β}
    → Result Failure (Unit {0})
    → Result Failure Next
    → Result Failure Next
err failure >> next = err failure
ok done >> next = next

infixl 5 ◌>>=◌ ◌>>◌
-- `if (bad) return yield* Effect.fail(error)`
abbrev pub fail_if {ℓ} : {E : Type ℓ} → Bool → E → Result E (Unit {0})
fail_if true e = err e
fail_if false e = ok tt

abbrev pub map_error {ℓ κ λ'} :
    {E : Type ℓ} {F : Type κ} {A : Type λ'} → (E → F) → Result E A → Result F A
map_error f (ok a) = ok a
map_error f (err e) = err (f e)

pub Result-cases {ℓ κ} :
    {E : Type ℓ} {A : Type κ} (r : Result E A) → ((e : E) × (r ≡ err e)) ⊎ ((a : A) × (r ≡ ok a))
Result-cases (ok a) = inr (a, refl)
Result-cases (err e) = inl (e, refl)

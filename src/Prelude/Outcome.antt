-- ===== src/Prelude/Outcome.antt =====
-- How a handler ends (core.ts): with a value, an `HttpError`, a `NomadPending`, or another `Error`.
use Prim.Native.Nat.{ℕ}
use Prim.Native.String.{String}
use mathlib.Core.Path.{◌≡◌, refl}
use mathlib.Core.Logic.{◌⊎◌, inl, inr}
use mathlib.Core.Bool.{Bool, true, false}
use mathlib.Core.Option.{Option, none, some}

pub data Error : Type 0 where
  http : ℕ → String → Error
  pending : Error
  other : Error

pub data Result {ℓ} (A : Type ℓ) : Type ℓ where
  ok : A → Result A
  err : Error → Result A

-- `fail`
abbrev pub fail {ℓ} : {A : Type ℓ} → ℕ → String → Result A
fail status message = err (http status message)

-- What follows an `await` or a statement that may throw.
module _ {ℓ κ} {T : Type ℓ} {U : Type κ} where
  infixl 5 ◌>>=◌
  abbrev pub ◌>>=◌ : Result T → (T → Result U) → Result U
  err problem >>= next = err problem
  ok value >>= next = next value

infixl 5 ◌>>◌
abbrev pub ◌>>◌ {κ} : {U : Type κ} → Result (Unit {0}) → Result U → Result U
check >> rest = check >>= λ done. rest

-- `if (bad) fail(status, message)`
abbrev pub fail_if : Bool → ℕ → String → Result (Unit {0})
fail_if true status message = fail status message
fail_if false status message = ok tt

abbrev pub or_fail {ℓ} : {A : Type ℓ} → Option A → ℕ → String → Result A
or_fail none status message = fail status message
or_fail (some a) status message = ok a

pub Result-cases {ℓ} :
    {A : Type ℓ} (r : Result A) → ((e : Error) × (r ≡ err e)) ⊎ ((a : A) × (r ≡ ok a))
Result-cases (err e) = inl (e, refl)
Result-cases (ok a) = inr (a, refl)

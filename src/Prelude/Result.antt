-- ===== src/Prelude/Result.antt =====
-- Python's exceptions as values: a function that may raise returns a `Result`.
use mathlib.Core.Path.{◌≡◌, refl}
use mathlib.Core.Bool.{Bool, true, false}
use mathlib.Core.Option.{Option, none, some}
use mathlib.Core.Logic.{◌⊎◌, inl, inr}

-- The exception classes that the modelled code raises. `out_of_fuel` is no exception of the
-- program: it marks a loop of the model that was given too few rounds.
pub data Error : Type 0 where
  value_error frame_error struct_error index_error unicode_error : Error
  protocol_error runtime_error : Error
  rockusb_error loader_format_error transport_timeout transport_error zero_division_error : Error
  out_of_fuel : Error

pub data Result {ℓ} (A : Type ℓ) : Type ℓ where
  err : Error → Result A
  ok : A → Result A

pub Result-cases {ℓ} :
    {A : Type ℓ} (r : Result A)
    → ((value : A) × (r ≡ ok value)) ⊎ ((raised : Error) × (r ≡ err raised))
Result-cases (err raised) = inr (raised, refl)
Result-cases (ok value) = inl (value, refl)

pub ok_injective {ℓ} : {A : Type ℓ} {a b : A} → ok a ≡ ok b → a ≡ b
ok_injective e = cc

pub Option-cases {ℓ} : {A : Type ℓ} (o : Option A) → (o ≡ none) ⊎ ((a : A) × (o ≡ some a))
Option-cases none = inl refl
Option-cases (some a) = inr (a, refl)

-- `if not b: raise e`.
abbrev pub guard : Bool → Error → Result (Unit {0})
guard false e = err e
guard true e = ok tt

-- An exception skips the rest.
infixl 5 ◌>>=◌
abbrev pub ◌>>=◌ {ℓ₁ ℓ₂} : {A : Type ℓ₁} {B : Type ℓ₂} → Result A → (A → Result B) → Result B
err raised >>= rest = err raised
ok value >>= rest = rest value

infixl 5 ◌>>◌
abbrev pub ◌>>◌ {ℓ} : {B : Type ℓ} → Result (Unit {0}) → Result B → Result B
first >> rest = first >>= λ done. rest

-- ===== src/Prelude/Result.antt =====
-- Python's exceptions as values. A method that changes an object returns its outcome beside the
-- new state, since what an exception leaves behind stays.
use mathlib.Core.Path.{◌≡◌, refl}
use mathlib.Core.Logic.{◌⊎◌, inl, inr}
use mathlib.Core.Bool.{Bool, true, false}

-- One constructor for each exception class that the modelled code raises.
pub data Error : Type 0 where
  full empty timeout_error key_error index_error assertion_error : Error
  runtime_error value_error file_not_found : Error

-- The outcome of a call that may raise.
pub data Result {ℓ} (A : Type ℓ) : Type ℓ where
  ok : A → Result A
  err : Error → Result A

-- An exception ends the block.
infixl 5 ◌>>=◌
abbrev pub ◌>>=◌ {ℓ} : {A B : Type ℓ} → Result A → (A → Result B) → Result B
◌>>=◌ m rest = elim m [ err e ↦ err e | ok a ↦ rest a ]

-- `assert cond` with the exception `AssertionError`, or `if not cond: raise e`.
abbrev pub ensure : Error → Bool → Result (Unit {0})
ensure e cond = elim cond [ false ↦ err e | true ↦ ok tt ]

pub Result-cases {ℓ} :
    {A : Type ℓ} (r : Result A) → ((a : A) × (r ≡ ok a)) ⊎ ((e : Error) × (r ≡ err e))
Result-cases (ok a) = inl (a, refl)
Result-cases (err e) = inr (e, refl)

-- ===== src/Golang.antt =====
-- What the Go sources use of their language: errors, and functions that return a value or an error.
pub mod FilePath
use streaming_video_service.Prelude.{String, ◌≡◌, refl, ◌⊎◌, inl, inr, Option, none, some, arith}

-- An `error` is its message; a function that returns only an error returns `Option Error`, `none`
-- for nil.
abbrev pub Error : Type 0
Error = String

-- `(T, error)` where the value is not used beside an error.
pub data Result (A : Type 0) : Type 0 where
  ok : A → Result A
  err : Error → Result A

-- The error of a result, nil on success.
abbrev pub error_of : {A : Type 0} → Result A → Option Error
error_of (ok a) = none
error_of (err e) = some e

-- To split on a computed result and keep the equation.
pub Result-cases :
    {A : Type 0} (r : Result A) → ((a : A) × (r ≡ ok a)) ⊎ ((e : Error) × (r ≡ err e))
Result-cases (ok a) = inl (a, refl)
Result-cases (err e) = inr (e, refl)

-- A call that returns, or that panics: here on a nil pointer or a nil function.
pub data Outcome (A : Type 0) : Type 0 where
  returned : A → Outcome A
  panicked : Outcome A

pub eq_of_returned :
    {A B : Type 0} (x y : A × B) → returned x ≡ returned y → (x.0 ≡ y.0) × (x.1 ≡ y.1)
eq_of_returned x y e = ground arith

pub returned_inj : {A : Type 0} (x y : A) → returned x ≡ returned y → x ≡ y
returned_inj x y e = ground arith

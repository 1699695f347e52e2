-- ===== src/Encrypt.antt =====
-- pkg/encrypt/encrypt.go. bcrypt is a parameter. A regular expression of one class is the test that
-- some character is in the class.
use streaming_video_service.Prelude.{
  ℕ, ◌≡◌, refl, String, Bool, true, false, ◌&&◌, ◌||◌, not, Option, none, some, Option-cases, arith,
  inl, inr, if◌then◌else◌, ltb, leb, nat_beq, append_text,
}
use streaming_video_service.Golang.{Error, Result, ok, err, Result-cases}
use Prim.Native.Char.{code}
use Prim.Native.String.{len, [], ◌∷◌}

-- `GenerateFromPassword` and `CompareHashAndPassword`.
pub record Bcrypt : Type 0 where
  pub generate_from_password : String → Result String
  pub compare_hash_and_password : String → String → Option Error

-- A hash is accepted with the password that it was made from.
pub record Hashes (bcrypt : Bcrypt) : Type 0 where
  pub compare-generate :
      (password hashed : String)
      → bcrypt.generate_from_password password ≡ ok hashed
      → bcrypt.compare_hash_and_password hashed password ≡ none

-- `regexp.MatchString` of a class.
unfoldable pub match_class : (ℕ → Bool) → String → Bool
match_class class [] = false
match_class class (c ∷ cs) = if class (code c) then true else match_class class cs

abbrev pub between_codes : ℕ → ℕ → ℕ → Bool
between_codes low high c = leb low c && leb c high

-- `[A-Z]`
abbrev pub is_upper : ℕ → Bool
is_upper c = between_codes 65 90 c

-- `[0-9]`
abbrev pub is_digit : ℕ → Bool
is_digit c = between_codes 48 57 c

-- `[!@#\$%\^&\*]`
abbrev pub is_special : ℕ → Bool
is_special c =
    nat_beq c 33 || (nat_beq c 64 || (between_codes 35 38 c || (nat_beq c 94 || nat_beq c 42)))

-- `ValidatePasswordStrength`
unfoldable pub validate_password_strength : String → Option Error
unfolding match_class
validate_password_strength password =
    if ltb (len password) 8
    then some "password must be at least 8 characters long"
    else if not (match_class is_upper password)
    then some "password must contain at least one uppercase letter"
    else if not (match_class is_digit password)
    then some "password must contain at least one digit"
    else if not (match_class is_special password)
    then some "password must contain at least one special character (!@#\\$%\\^&\\*)"
    else none

-- The second half of `HashPassword`.
pub hash_result : Result String → Result String
hash_result (ok hashed) = ok hashed
hash_result (err e) = err (append_text "failed to hash password: " e)

-- `HashPassword`
unfoldable pub hash_password : Bcrypt → String → Result String
unfolding hash_result validate_password_strength
hash_password bcrypt password = elim (validate_password_strength password) [
  | some e ↦ err (append_text "weak password: " e)
  | none ↦ hash_result (bcrypt.generate_from_password password)
]

-- `CheckPassword`
unfoldable pub check_password : Bcrypt → String → String → Option Error
check_password bcrypt hashed password = elim (bcrypt.compare_hash_and_password hashed password) [
  | some e ↦ some "password does not match"
  | none ↦ none
]

-- `HashPassword` that succeeds: the password is strong, and the hash is bcrypt's.
pub hash_password-inv :
    (bcrypt : Bcrypt) (password hashed : String)
    → hash_password bcrypt password ≡ ok hashed
    → (validate_password_strength password ≡ none)
      × (bcrypt.generate_from_password password ≡ ok hashed)
unfolding hash_password hash_result
hash_password-inv bcrypt password hashed e =
    elim (Option-cases (validate_password_strength password)) [
      | inr (m, weak) ↦ absurd (ground (arith, weak, e))
      | inl strong ↦ (
        strong,
        elim (Result-cases (bcrypt.generate_from_password password)) [
          | inl (h, made) ↦ ground (arith, strong, made, e)
          | inr (m, failed) ↦ absurd (ground (arith, strong, failed, e))
        ],
      )
    ]

-- The password that a hash was made from matches it.
pub check_password-none :
    (bcrypt : Bcrypt) (laws : Hashes bcrypt) (password hashed : String)
    → bcrypt.generate_from_password password ≡ ok hashed
    → check_password bcrypt hashed password ≡ none
unfolding check_password
check_password-none bcrypt laws password hashed made =
    rw (check_password, laws.compare-generate password hashed made) refl

-- ===== src/Token/Expiry.antt =====
-- pkg/token/token.go: `CheckJWTNotExpire` and `DeleteJWT`, which read a token after "Bearer ". A
-- character of the text is a byte. The expiration time of `*Claims` is always given.
use Prim.Native.Char.{code}
use Prim.Native.String.{[] as empty_text, ◌∷◌ as text_cons}
use streaming_video_service.Prelude.{
  ℕ, zero, suc, String, Bool, true, ltb, nat_beq, Option, none, some, if◌then◌else◌,
}
use streaming_video_service.Golang.{Error, Result, ok, err, Outcome, returned, panicked}
use streaming_video_service.Token.{ParsedToken, Jwt}
use streaming_video_service.Token.Middleware.{middleware_key}

-- A text without its first `n` bytes, where it has them.
unfoldable pub drop_bytes : ℕ → String → Option String
drop_bytes zero t = some t
drop_bytes (suc n) empty_text = none
drop_bytes (suc n) (text_cons c cs) = drop_bytes n cs

-- What follows a prefix.
unfoldable pub after_bearer : String → String → Option String
after_bearer empty_text t = some t
after_bearer (text_cons p ps) empty_text = none
after_bearer (text_cons p ps) (text_cons c cs) =
    if nat_beq (code p) (code c) then after_bearer ps cs else none

-- Whether the token has not expired; claims of another type have no such time.
abbrev pub not_expired : Result ParsedToken → ℕ → Bool × Option Error
not_expired (err e) now = (true, some e)
not_expired (ok token) now = elim token.claims [
  | none ↦ (true, none)
  | some claims ↦ (ltb now claims.expires_at, none)
]

abbrev pub checked : Jwt → ℕ → Option String → Bool × Option Error
checked jwt now none = (true, some "Invalid or missing token")
checked jwt now (some token) = not_expired (jwt.parse_with_claims middleware_key token now) now

-- `CheckJWTNotExpire`
unfoldable pub check_jwt_not_expire : Jwt → String → ℕ → Bool × Option Error
unfolding after_bearer
check_jwt_not_expire jwt t now = checked jwt now (after_bearer "Bearer " t)

abbrev pub cut_token : Jwt → ℕ → Option String → Outcome (Bool × Option Error)
cut_token jwt now none = panicked
cut_token jwt now (some token) =
    returned (not_expired (jwt.parse_with_claims middleware_key token now) now)

-- `DeleteJWT`, which cuts off seven bytes whatever they are, and panics where there are fewer.
unfoldable pub delete_jwt : Jwt → String → ℕ → Outcome (Bool × Option Error)
unfolding drop_bytes
delete_jwt jwt t now = cut_token jwt now (drop_bytes 7 t)

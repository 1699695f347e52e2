-- ===== src/Token.antt =====
-- pkg/token/token.go and jwt_wrapper.go. golang-jwt is a parameter; times are seconds.
pub mod Middleware
pub mod Expiry
use streaming_video_service.Prelude.{
  ℕ, ◌+◌, ◌*◌, ◌<◌, ◌≤◌, ◌≡◌, String, Bool, true, false, Option, none, some, if◌then◌else◌,
}
use streaming_video_service.Golang.{Error, Result, ok, err}

-- RoleType
abbrev pub role_admin : String
role_admin = "admin"

abbrev pub role_user : String
role_user = "user"

abbrev pub role_member : String
role_member = "member"

abbrev pub role_guest : String
role_guest = "guest"

-- `Claims` with the registered claims that are set.
pub record Claims : Type 0 where
  pub member_id : String
  pub role : String
  pub expires_at : ℕ
  pub issued_at : ℕ
  pub issuer : String

-- A parsed `jwt.Token`: its claims, if they have the type `*Claims`, and its field `Valid`.
pub record ParsedToken : Type 0 where
  pub claims : Option Claims
  pub valid : Bool

-- `SignedString` with HS256, and `ParseWithClaims` at a time, with the key function by whether the
-- token's method is an HMAC.
pub record Jwt : Type 0 where
  pub signed_string : Claims → String → Result String
  pub parse_with_claims : (Bool → Result String) → String → ℕ → Result ParsedToken

-- JWTSecret
abbrev pub jwt_secret : String
jwt_secret = "secure_secret_key"

-- tokenExpiration
abbrev pub token_expiration : ℕ
token_expiration = 60 * 60

-- The key function of `ParseJWT`.
unfoldable pub key_of : Bool → Result String
key_of true = ok jwt_secret
key_of false = err "unexpected signing method"

-- `GenerateJWT` at a time.
unfoldable pub generate_jwt : Jwt → String → String → String → ℕ → Result String
generate_jwt jwt member_id role issuer now =
    jwt.signed_string
      (record {
        member_id = member_id;
        role = role;
        expires_at = now + token_expiration;
        issued_at = now;
        issuer = issuer;
      })
      jwt_secret

-- The checks of `ParseJWT` on what the library gives.
pub valid_claims : Result ParsedToken → Result Claims
valid_claims (err e) = err e
valid_claims (ok token) = elim token.claims [
  | none ↦ err "invalid token"
  | some claims ↦ if token.valid then ok claims else err "invalid token"
]

-- `ParseJWT`
unfoldable pub parse_jwt : Jwt → String → ℕ → Result Claims
unfolding valid_claims key_of
parse_jwt jwt token now = valid_claims (jwt.parse_with_claims key_of token now)

-- ===== src/Token/Middleware.antt =====
-- pkg/middlewares/token.go
use Prim.Native.Char.{code}
use Prim.Native.String.{[] as empty_text, ◌∷◌ as text_cons}
use streaming_video_service.Prelude.{
  ℕ, ◌+◌, ◌<◌, ◌≤◌, ◌≡◌, refl, String, Bool, true, false, ◌==◌, none, some, if◌then◌else◌, arith,
  ◌≢◌, ==_of_ne, ◌||◌, nat_beq, Option,
}
use streaming_video_service.Golang.{Error, Result, ok, err}
use streaming_video_service.Token.{
  Claims, ParsedToken, Jwt, jwt_secret, token_expiration, key_of, generate_jwt, valid_claims,
  parse_jwt,
}

-- What the middleware does with a request: it answers with the status 401 and a text, or sets the
-- locals `MemberID` and `role` and goes on.
pub data Admission : Type 0 where
  unauthorized : String → Admission
  passes : String → String → Admission

-- `c.Locals("MemberID")` of the handler behind the middleware.
abbrev pub local_member_id : Admission → Option String
local_member_id (unauthorized text) = none
local_member_id (passes member role) = some member

-- The key function of the middleware.
unfoldable pub middleware_key : Bool → Result String
middleware_key true = ok jwt_secret
middleware_key false = err "Unexpected signing method"

-- The second half of `JWTMiddleware`, by what the library gives.
pub admit : Result ParsedToken → Admission
admit (err e) = unauthorized "Invalid token"
admit (ok token) = elim token.claims [
  | none ↦ unauthorized "Invalid token claims"
  | some claims ↦
      if token.valid
      then passes claims.member_id claims.role
      else unauthorized "Invalid token claims"
]

-- `JWTMiddleware`, of the query parameter `auth` and the cookie `auth_token`.
unfoldable pub jwt_middleware : Jwt → String → String → ℕ → Admission
unfolding admit middleware_key
jwt_middleware jwt query cookie now =
    let token = if query == "" then cookie else query in
    if token == ""
    then unauthorized "Missing token"
    else admit (jwt.parse_with_claims middleware_key token now)

-- What RFC 7519 and the library promise: a token that was signed is read back until it expires, and
-- refused from then on.
pub record Signs (jwt : Jwt) : Type 0 where
  pub parse-valid :
      (claims : Claims) (secret token : String) (key : Bool → Result String) (now : ℕ)
      → jwt.signed_string claims secret ≡ ok token
      → key true ≡ ok secret
      → now < claims.expires_at
      → jwt.parse_with_claims key token now ≡ ok (record { claims = some claims; valid = true })
  pub parse-expired :
      (claims : Claims) (secret token : String) (key : Bool → Result String) (now : ℕ)
      → jwt.signed_string claims secret ≡ ok token
      → key true ≡ ok secret
      → claims.expires_at ≤ now
      → (e : Error) × (jwt.parse_with_claims key token now ≡ err e)
  pub not_empty :
      (claims : Claims) (secret token : String)
      → jwt.signed_string claims secret ≡ ok token
      → token ≢ ""

-- Whether a text has a dot.
unfoldable pub has_dot : String → Bool
has_dot empty_text = false
has_dot (text_cons c cs) = nat_beq (code c) 46 || has_dot cs

-- RFC 7519: the parts of a token stand between dots, so that a text without one is no token.
abbrev pub Compact : Jwt → Type 0
Compact jwt =
    (key : Bool → Result String) (text : String) (now : ℕ)
    → has_dot text ≡ false
    → (e : Error) × (jwt.parse_with_claims key text now ≡ err e)

pub parse_jwt-has_dot :
    (jwt : Jwt) (text : String) (now : ℕ)
    → Compact jwt
    → has_dot text ≡ false
    → (e : Error) × (parse_jwt jwt text now ≡ err e)
unfolding parse_jwt valid_claims
parse_jwt-has_dot jwt text now compact no_dot =
    let (e, bad) = compact key_of text now no_dot in (e, rw bad refl)

module _ (jwt : Jwt) (laws : Signs jwt) where
  pub parse_jwt-generate_jwt :
      (member role issuer token : String) (issued now : ℕ)
      → generate_jwt jwt member role issuer issued ≡ ok token
      → now < issued + token_expiration
      → (claims : Claims) × (parse_jwt jwt token now ≡ ok claims)
        × (claims.member_id ≡ member)
        × (claims.role ≡ role)
  unfolding generate_jwt parse_jwt valid_claims key_of
  parse_jwt-generate_jwt member role issuer token issued now made early =
      let claims : Claims = record {
        member_id = member;
        role = role;
        expires_at = issued + token_expiration;
        issued_at = issued;
        issuer = issuer;
      } in
      (
        claims,
        rw (laws.parse-valid claims jwt_secret token key_of now made refl early) refl,
        refl,
        refl,
      )

  -- A token of `GenerateJWT`, given as the query parameter, or as the cookie when there is no query
  -- parameter, is let through for sixty minutes, with the member and the role that it was made for;
  -- from then on it is refused as invalid.
  pub jwt_middleware-generate_jwt :
      (member role issuer token cookie : String) (issued now : ℕ)
      → generate_jwt jwt member role issuer issued ≡ ok token
      → (now < issued + token_expiration
          → (jwt_middleware jwt token cookie now ≡ passes member role)
            × (jwt_middleware jwt "" token now ≡ passes member role))
        × (issued + token_expiration ≤ now
            → (jwt_middleware jwt token cookie now ≡ unauthorized "Invalid token")
              × (jwt_middleware jwt "" token now ≡ unauthorized "Invalid token"))
  unfolding generate_jwt jwt_middleware admit middleware_key
  jwt_middleware-generate_jwt member role issuer token cookie issued now made =
      let claims : Claims = record {
        member_id = member;
        role = role;
        expires_at = issued + token_expiration;
        issued_at = issued;
        issuer = issuer;
      } in
      let some_text : (token == "") ≡ false =
        ==_of_ne token "" (laws.not_empty claims jwt_secret token made) in
      (
        λ early.
            let read =
              laws.parse-valid claims jwt_secret token middleware_key now made refl early in
            (ground (arith, some_text, read), ground (arith, some_text, read)),
        λ late.
            let (e, bad) =
              laws.parse-expired claims jwt_secret token middleware_key now made refl late in
            (ground (arith, some_text, bad), ground (arith, some_text, bad)),
      )

-- ===== src/Api/Member/Sessions.antt =====
-- Logging in, passing the middleware and logging out through the gateway.
use streaming_video_service.Prelude.{
  false, ℕ, ◌+◌, ◌<◌, ◌≤◌, ◌≡◌, refl, String, Bool, Option, none, some, List, find?, arith,
  Option-cases, inl, inr,
}
use streaming_video_service.Golang.{Error, ok}
use streaming_video_service.Encrypt.{Bcrypt, check_password}
use streaming_video_service.Token.{Jwt, role_member, token_expiration, generate_jwt}
use streaming_video_service.Token.Middleware.{
  Signs, Compact, has_dot, parse_jwt-has_dot, local_member_id, parse_jwt-generate_jwt,
  jwt_middleware, passes, unauthorized, jwt_middleware-generate_jwt,
}
use streaming_video_service.Redis.{RedisClient, Codec}
use streaming_video_service.Redis.Keys.{Entry, Keyed, Up}
use streaming_video_service.Member.Domain.{MemberSession}
use streaming_video_service.Member.Repository.{Row, Postgres}
use streaming_video_service.Member.Repository.Query.{is_asked}
use streaming_video_service.Member.Repository.Table.{Tabular, Answers}
use streaming_video_service.Member.UseCase.{
  Stores, MemberUseCase, by_email, register, logout, force_logout,
}
use streaming_video_service.Member.UseCase.Sessions.{member_service}
use streaming_video_service.Member.UseCase.Logins.{Marshals, login-stores}
use streaming_video_service.Member.Handler.{handle_register, handle_login, handle_logout}
use streaming_video_service.Api.Http.{HttpRes, json_res, error_res}
use streaming_video_service.Api.Rpc.{Carried}
use streaming_video_service.Api.Member.{
  MemberServiceClient, MemberJson, with_message, with_token, auth_cookie, gateway_register,
  gateway_login, gateway_logout,
}

-- A client of the server of `uc`, at a time and with the next member id.
pub record Carries {D S : Type 0} (client : MemberServiceClient (Stores D S))
    (uc : MemberUseCase D S) (now clock : ℕ) (fresh : String) : Type 0 where
  pub register-Carried :
      (email password : String) (s : Stores D S)
      → Carried (client.register email password s) (handle_register uc email password fresh s)
  pub login-Carried :
      (email password : String) (s : Stores D S)
      → Carried (client.login email password s) (handle_login uc email password now clock s)
  pub logout-Carried :
      (token : String) (s : Stores D S)
      → Carried (client.logout token s) (handle_logout uc token clock s)

-- The answer to a registration, by its error.
abbrev pub registered_answer : Option Error → HttpRes MemberJson
registered_answer none = json_res (with_message "register success")
registered_answer (some e) = error_res 500 ""

module _ {D S : Type 0} (client : MemberServiceClient (Stores D S)) (uc : MemberUseCase D S)
    (now clock : ℕ) (fresh : String) (carries : Carries client uc now clock fresh) where
  -- A logout through the gateway fails. A request with a valid token, made for a member whose id has
  -- no dot in it, passes the middleware; `Logout` of the gateway, with what the middleware has left,
  -- answers it by 500 with an empty message, and the session and the member's status stay as they are.
  -- `Logout` of the use case with the request's token would have done what `ForceLogout` of the member
  -- does.
  pub gateway_logout-parse_jwt :
      (signs : Signs uc.jwt) (compact : Compact uc.jwt) (member role issuer token : String)
      (issued : ℕ) (s : Stores D S)
      → generate_jwt uc.jwt member role issuer issued ≡ ok token
      → clock < issued + token_expiration
      → has_dot member ≡ false
      → let admission = jwt_middleware uc.jwt "" token clock in
        (admission ≡ passes member role)
        × (gateway_logout client (local_member_id admission) s ≡ (error_res 500 "", s))
        × (logout uc token clock s ≡ force_logout uc member s)
  unfolding gateway_logout logout handle_logout
  gateway_logout-parse_jwt signs compact member role issuer token issued s made early no_dot =
      let admitted =
        ((jwt_middleware-generate_jwt uc.jwt signs member role issuer token "" issued clock made).0
          early).1 in
      let (claims, read, mine, _) =
        parse_jwt-generate_jwt uc.jwt signs member role issuer token issued clock made early in
      let (e, bad) = parse_jwt-has_dot uc.jwt member clock compact no_dot in
      let (m, got) = rw (bad, handle_logout, logout) at (carries.logout-Carried member s) in
      (admitted, rw admitted (rw got refl), rw (read, logout) (rw mine refl))

  -- `Register` through the gateway stores what the use case stores. It answers 200 exactly when the use
  -- case gives no error; every error of the use case, a password that is too short as well as a database
  -- that is down, is answered by 500 with an empty message.
  pub gateway_register-register :
      (email password : String) (s : Stores D S)
      → gateway_register client (ok (record { email = email; password = password })) s ≡ (
        registered_answer (register uc email password fresh s).0,
        (register uc email password fresh s).1,
      )
  unfolding gateway_register handle_register
  gateway_register-register email password s =
      elim (Option-cases (register uc email password fresh s).0) [
        | inl done ↦
            let got = rw (done, handle_register) at (carries.register-Carried email password s) in
            rw got (rw done refl)
        | inr (e, wrong) ↦
            let (m, got) =
              rw (wrong, handle_register) at (carries.register-Carried email password s) in
            rw got (rw wrong refl)
      ]

module _ {D S : Type 0} (db : Postgres D) (rows : D → List Row) (table : Tabular db rows)
    (answers : Answers db rows) (redis_client : RedisClient S) (json : Codec MemberSession)
    (marshals : Marshals json) (bcrypt : Bcrypt) (jwt : Jwt) (signs : Signs jwt) (issuer : String)
    (n : ℕ) (entry : S → String → Option Entry) (laws : Keyed redis_client entry)
    (up : Up redis_client) (client : MemberServiceClient (Stores D S)) (now clock : ℕ)
    (fresh : String)
    (carries : Carries client
      (member_service db redis_client json bcrypt jwt issuer n)
      now
      clock
      fresh) where
  -- A member of the database logs in with the password through the gateway: the answer carries the new
  -- token, and a cookie with it. As long as the cookie lives, the middleware lets requests with it and
  -- no query parameter through, as this member; from the end of its life on, its token is refused.
  pub gateway_login-jwt_middleware :
      (email password token : String) (production : Bool) (later : ℕ) (r : Row) (s : Stores D S)
      → find? (is_asked (by_email email)) (rows s.db) ≡ some r
      → check_password bcrypt r.password password ≡ none
      → generate_jwt jwt r.member_id role_member issuer clock ≡ ok token
      → ((gateway_login client production (ok (record { email = email; password = password })) s).0
          ≡ record {
            response = json_res (with_token token "login success");
            cookie = some (auth_cookie production token);
          })
        × (later < clock + (auth_cookie production token).max_age
            → jwt_middleware jwt "" (auth_cookie production token).value later
              ≡ passes r.member_id role_member)
        × (clock + (auth_cookie production token).max_age ≤ later
            → jwt_middleware jwt "" (auth_cookie production token).value later
              ≡ unauthorized "Invalid token")
  unfolding gateway_login handle_login
  gateway_login-jwt_middleware email password token production later r s there match made =
      let uc = member_service db redis_client json bcrypt jwt issuer n in
      let (text, written, is) =
        login-stores db rows table answers redis_client json marshals bcrypt jwt signs issuer n
          entry laws up email password token now clock r s there match made in
      let got = rw (is, handle_login) at (carries.login-Carried email password s) in
      let (fresh_one, stale) =
        jwt_middleware-generate_jwt jwt signs r.member_id role_member issuer token "" clock later
          made in
      (
        rw got refl,
        λ early. (fresh_one (omega (arith, early))).1,
        λ late. (stale (omega (arith, late))).1,
      )

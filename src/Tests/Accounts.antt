-- ===== src/Tests/Accounts.antt =====
-- The gateway's member handlers over the member service on databases in memory.
use streaming_video_service.Prelude.{
  ◌+◌, ◌<◌, ◌≤◌, ◌≡◌, refl, true, Option, none, some, List, arith,
}
use streaming_video_service.Golang.{Error, Result, ok, err}
use streaming_video_service.Encrypt.{check_password}
use streaming_video_service.Token.{role_member, generate_jwt}
use streaming_video_service.Token.Middleware.{
  passes, unauthorized, local_member_id, has_dot, jwt_middleware,
}
use streaming_video_service.Member.Repository.{Row}
use streaming_video_service.Member.UseCase.{Stores, register, logout, force_logout}
use streaming_video_service.Member.Handler.{
  handle_register, handle_login, handle_logout, handle_find_member,
}
use streaming_video_service.Api.Http.{json_res, error_res}
use streaming_video_service.Api.Rpc.{Carried}
use streaming_video_service.Api.Member.{
  MemberServiceClient, with_token, auth_cookie, gateway_register, gateway_login, gateway_logout,
  gateway_find_by_email,
}
use streaming_video_service.Api.Member.Sessions.{
  Carries, registered_answer, gateway_logout-parse_jwt, gateway_register-register,
  gateway_login-jwt_middleware,
}
use streaming_video_service.Api.Member.Finding.{find_refusal, gateway_find_by_email-find_refusal}
use streaming_video_service.Tests.Backends.{
  postgres, all_rows, postgres-Tabular, postgres-Answers, Keys, redis, entry, redis-Keyed, redis-Up,
}
use streaming_video_service.Tests.Signing.{json, bcrypt, jwt, jwt-Signs, jwt-Compact}
use streaming_video_service.Tests.Members.{ann, stores, uc}

carried : {A W : Type 0} → (A × Option Error) × W → Result A × W
carried ((res, none), w) = (ok res, w)
carried ((res, some e), w) = (err e, w)

carried-Carried : {A W : Type 0} (p : (A × Option Error) × W) → Carried (carried p) p
unfolding carried
carried-Carried ((res, none), w) = refl
carried-Carried ((res, some e), w) = (e, refl)

abbrev member_client : MemberServiceClient (Stores (List Row) Keys)
member_client = record {
  register = λ email password s. carried (handle_register uc email password "u2" s);
  login = λ email password s. carried (handle_login uc email password 100000 100 s);
  logout = λ token s. carried (handle_logout uc token 100 s);
  find_member = λ p s. carried (handle_find_member uc p s, s);
}

member_client-Carries : Carries member_client uc 100000 100 "u2"
member_client-Carries = record {
  register-Carried = λ email password s. carried-Carried (handle_register uc email password "u2" s);
  login-Carried = λ email password s. carried-Carried (handle_login uc email password 100000 100 s);
  logout-Carried = λ token s. carried-Carried (handle_logout uc token 100 s);
}

gateway_register-register_example :
    gateway_register member_client
      (ok (record { email = "ann@x.org"; password = "Secret1!" }))
      stores
    ≡ (
      registered_answer (register uc "ann@x.org" "Secret1!" "u2" stores).0,
      (register uc "ann@x.org" "Secret1!" "u2" stores).1,
    )
gateway_register-register_example =
    gateway_register-register member_client uc 100000 100 "u2" member_client-Carries "ann@x.org"
      "Secret1!" stores

made : generate_jwt jwt "u1" role_member "member_service" 100 ≡ ok "t1.x.y"
unfolding generate_jwt jwt
made = refl

gateway_logout-parse_jwt_example :
    let admission = jwt_middleware jwt "" "t1.x.y" 100 in
    (admission ≡ passes "u1" role_member)
    × (gateway_logout member_client (local_member_id admission) stores ≡ (error_res 500 "", stores))
    × (logout uc "t1.x.y" 100 stores ≡ force_logout uc "u1" stores)
unfolding has_dot
gateway_logout-parse_jwt_example =
    gateway_logout-parse_jwt member_client uc 100000 100 "u2" member_client-Carries jwt-Signs
      jwt-Compact "u1" role_member "member_service" "t1.x.y" 100 stores made (omega arith) refl

gateway_login-jwt_middleware_example :
    ((gateway_login member_client true
        (ok (record { email = "ann@x.org"; password = "Secret1!" }))
        stores).0
      ≡ record {
        response = json_res (with_token "t1.x.y" "login success");
        cookie = some (auth_cookie true "t1.x.y");
      })
    × (200 < 100 + 3600 → jwt_middleware jwt "" "t1.x.y" 200 ≡ passes "u1" role_member)
    × (100 + 3600 ≤ 200 → jwt_middleware jwt "" "t1.x.y" 200 ≡ unauthorized "Invalid token")
unfolding check_password bcrypt
gateway_login-jwt_middleware_example =
    gateway_login-jwt_middleware postgres all_rows postgres-Tabular postgres-Answers redis json
      (λ m. (m.token, refl)) bcrypt jwt jwt-Signs "member_service" 60 entry redis-Keyed redis-Up
      member_client 100000 100 "u2" member_client-Carries "ann@x.org" "Secret1!" "t1.x.y" true 200
      ann stores refl refl made

gateway_find_by_email-find_refusal_example :
    gateway_find_by_email member_client "ann@x.org" stores ≡ (find_refusal "ann@x.org", stores)
gateway_find_by_email-find_refusal_example =
    gateway_find_by_email-find_refusal postgres all_rows postgres-Tabular member_client uc
      "ann@x.org" stores (λ p. carried-Carried (handle_find_member uc p stores, stores)) refl
      (omega arith, tt)

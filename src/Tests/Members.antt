-- ===== src/Tests/Members.antt =====
-- The member service on databases in memory.
use streaming_video_service.Prelude.{
  ◌+◌, ◌*◌, ◌<◌, ◌≤◌, ◌≡◌, refl, String, true, false, none, some, List, [], ◌∷◌, find?, arith,
}
use streaming_video_service.Golang.{Error, ok, err}
use streaming_video_service.Encrypt.{
  validate_password_strength, match_class, hash_password, check_password,
}
use streaming_video_service.Redis.{second}
use streaming_video_service.Redis.Keys.{Entry}
use streaming_video_service.Token.{role_member, generate_jwt, parse_jwt, token_expiration, key_of}
use streaming_video_service.Token.Middleware.{
  unauthorized, passes, jwt_middleware, jwt_middleware-generate_jwt,
}
use streaming_video_service.Member.Domain.{
  MemberQuery, member_status_on_line, member_status_off_line,
}
use streaming_video_service.Member.Repository.{Row, find_query, member_repository}
use streaming_video_service.Member.Repository.Query.{satisfies, is_asked, find_query-is_asked}
use streaming_video_service.Member.Repository.Table.{has_member_id, with_status}
use streaming_video_service.Member.UseCase.{
  Stores, MemberUseCase, session_of, login_error, register, login, logout, check_session_timeout,
  reconnect_session,
}
use streaming_video_service.Member.UseCase.Sessions.{
  member_service, reconnect_session-check_session_timeout,
}
use streaming_video_service.Member.UseCase.Logins.{login-logout}
use streaming_video_service.Member.UseCase.Registration.{register-login}
use streaming_video_service.Tests.Backends.{
  postgres, all_rows, postgres-Tabular, postgres-Answers, Keys, redis, entry, redis-Keyed, redis-Up,
}
use streaming_video_service.Tests.Signing.{json, bcrypt, bcrypt-Hashes, jwt, jwt-Signs, signed}

-- A member who is banned, with the password "Secret1!".
abbrev pub ann : Row
ann = record {
  id = 1;
  member_id = "u1";
  email = "ann@x.org";
  password = "$Secret1!";
  status = some 2;
}

abbrev pub no_keys : Keys
no_keys k = none

abbrev pub stores : Stores (List Row) Keys
stores = record { db = ann ∷ []; redis = no_keys }

abbrev nobody : Stores (List Row) Keys
nobody = record { db = []; redis = no_keys }

abbrev pub uc : MemberUseCase (List Row) Keys
uc = member_service postgres redis json bcrypt jwt "member_service" 60

abbrev by_both : MemberQuery
by_both = record { id = none; member_id = some "u1"; email = some "ann@x.org" }

find_query-is_asked_example :
    satisfies (find_query by_both).params (find_query by_both).conditions ann ≡ is_asked by_both ann
find_query-is_asked_example = find_query-is_asked by_both ann

made : generate_jwt jwt "u1" role_member "member_service" 100 ≡ ok "t1.x.y"
unfolding generate_jwt jwt
made = refl

jwt_middleware-generate_jwt_example :
    (3699 < 100 + token_expiration
      → (jwt_middleware jwt "t1.x.y" "" 3699 ≡ passes "u1" role_member)
        × (jwt_middleware jwt "" "t1.x.y" 3699 ≡ passes "u1" role_member))
    × (100 + token_expiration ≤ 3699
        → (jwt_middleware jwt "t1.x.y" "" 3699 ≡ unauthorized "Invalid token")
          × (jwt_middleware jwt "" "t1.x.y" 3699 ≡ unauthorized "Invalid token"))
jwt_middleware-generate_jwt_example =
    jwt_middleware-generate_jwt jwt jwt-Signs "u1" role_member "member_service" "t1.x.y" "" 100 3699
      made

read_at_200 : parse_jwt jwt "t1.x.y" 200 ≡ ok signed
unfolding parse_jwt key_of jwt
read_at_200 = refl

reconnect_session-check_session_timeout_example :
    let (e, s') = reconnect_session uc "t1.x.y" 200 stores in
    (e ≡ none)
    × ((old : Entry)
        → entry stores.redis "u1" ≡ some old
        → (entry s'.redis "u1" ≡ some (record old { remaining = 60 * second }))
          × (check_session_timeout uc "t1.x.y" 200 s' ≡ (false, none)))
    × (entry stores.redis "u1" ≡ none
        → (entry s'.redis "u1" ≡ none) × (check_session_timeout uc "t1.x.y" 200 s' ≡ (true, none)))
reconnect_session-check_session_timeout_example =
    reconnect_session-check_session_timeout postgres redis json bcrypt jwt "member_service" 60 entry
      redis-Keyed redis-Up "t1.x.y" 200 signed stores (omega arith) read_at_200

login-logout_example :
    let (answer, s₁) = login uc "ann@x.org" "Secret1!" 100000 100 stores in
    let (left_, s₂) = logout uc "t1.x.y" 300 s₁ in
    (answer ≡ ok "t1.x.y")
    × ((text : String) × (json.marshal (session_of "t1.x.y" "u1" 100000 (60 * second)) ≡ ok text)
        × (entry s₁.redis "u1" ≡ some (record { value = text; remaining = 60 * second })))
    × (find? (has_member_id "u1") s₁.db ≡ some (with_status member_status_on_line ann))
    × (check_session_timeout uc "t1.x.y" 200 s₁ ≡ (false, none))
    × (left_ ≡ none)
    × (find? (has_member_id "u1") s₂.db
        ≡ some (with_status member_status_off_line (with_status member_status_on_line ann)))
    × (check_session_timeout uc "t1.x.y" 400 s₂ ≡ (true, none))
unfolding check_password bcrypt
login-logout_example =
    login-logout postgres all_rows postgres-Tabular postgres-Answers redis json
      (λ m. (m.token, refl)) bcrypt jwt jwt-Signs "member_service" 60 entry redis-Keyed redis-Up
      "ann@x.org" "Secret1!" "t1.x.y" 100000 100 200 300 400 ann stores (omega arith) refl refl refl
      made (omega arith) (omega arith) (omega arith)

register-login_example :
    let (e, s₁) = register uc "ann@x.org" "Secret1!" "u1" nobody in
    (hashed : String) × (validate_password_strength "Secret1!" ≡ none)
    × (bcrypt.generate_from_password "Secret1!" ≡ ok hashed)
    × ((password' fresh' : String)
        → register uc "ann@x.org" password' fresh' s₁ ≡ (some "email already exists", s₁))
    × ((login uc "ann@x.org" "Secret1!" 100000 100 s₁).0 ≡ ok "t1.x.y")
    × ((attempt : String) (m : Error)
        → check_password bcrypt hashed attempt ≡ some m
        → login uc "ann@x.org" attempt 100000 100 s₁
          ≡ (err (login_error "ann@x.org" "password can't match!!!"), s₁))
unfolding register hash_password validate_password_strength match_class bcrypt postgres
    member_repository find_query
register-login_example =
    register-login postgres all_rows postgres-Tabular postgres-Answers redis json
      (λ m. (m.token, refl)) bcrypt bcrypt-Hashes jwt jwt-Signs "member_service" 60 entry
      redis-Keyed redis-Up "ann@x.org" "Secret1!" "u1" "t1.x.y" 100000 100 nobody refl made

-- ===== src/Member/UseCase.antt =====
-- internal/member/app/member_usecase.go. `uuid.New` is the argument `fresh`, and the clock of the
-- tokens, in seconds, the argument `clock`. The hash function is a field, as in the source.
pub mod Sessions
pub mod Logins
pub mod Registration
use streaming_video_service.Prelude.{
  ℕ, ◌+◌, String, Bool, true, false, ◌==◌, Option, none, some, List, [], ◌∷◌, if◌then◌else◌, ltb,
  join,
}
use streaming_video_service.Golang.{Error, Result, ok, err}
use streaming_video_service.Encrypt.{Bcrypt}
use streaming_video_service.Token.{Jwt, Claims, role_member, generate_jwt, parse_jwt}
use streaming_video_service.Redis.{RedisRepository}
use streaming_video_service.Member.Domain.{
  Member, MemberSession, MemberQuery, member_status_off_line, member_status_on_line,
  is_password_match,
}
use streaming_video_service.Member.Repository.{MemberRepository}

-- The database and Redis.
pub record Stores (D S : Type 0) : Type 0 where
  pub db : D
  pub redis : S

-- `memberUseCase`, with what it calls in pkg/encrypt and pkg/token: bcrypt, the library for tokens,
-- and the issuer of the configuration.
pub record MemberUseCase (D S : Type 0) : Type 0 where
  pub member_repo : MemberRepository D
  pub session_ttl : ℕ
  pub redis_repo : RedisRepository S MemberSession
  pub hash_password_func : String → Result String
  pub bcrypt : Bcrypt
  pub jwt : Jwt
  pub issuer : String

abbrev pub by_email : String → MemberQuery
by_email email = record { id = none; member_id = none; email = some email }

-- The member that `Register` makes.
abbrev pub new_member : String → String → String → Member
new_member fresh email hashed = record {
  id = 0;
  member_id = fresh;
  email = email;
  password = hashed;
  status = member_status_off_line;
}

-- The member that `Logout` and `ForceLogout` pass to `UpdateMemberStatus`.
abbrev pub off_line : String → Member
off_line member_id = record {
  id = 0;
  member_id = member_id;
  email = "";
  password = "";
  status = member_status_off_line;
}

abbrev pub session_of : String → String → ℕ → ℕ → MemberSession
session_of token member_id now ttl = record {
  token = token;
  member_id = member_id;
  created_at = now;
  last_activity = now;
  expired_at = now + ttl;
}

-- The messages of `Login`.
abbrev pub login_error : String → String → Error
login_error email problem = join ("email[" ∷ email ∷ "] " ∷ problem ∷ [])

module _ {D S : Type 0} (uc : MemberUseCase D S) where
  -- `Register` after the look-up, by the hash.
  pub register_hashed : String → String → Result String → Stores D S → Option Error × Stores D S
  register_hashed email fresh (err e) s = (some "hash password error", s)
  register_hashed email fresh (ok hashed) s =
      let (e, db) = uc.member_repo.create_user (new_member fresh email hashed) s.db in
      (e, record s { db = db })

  -- `Register`: any error of the look-up counts as a free email.
  unfoldable pub register : String → String → String → Stores D S → Option Error × Stores D S
  unfolding register_hashed
  register email password fresh s = elim (uc.member_repo.find_by_member (by_email email) s.db) [
    | ok m ↦ (some "email already exists", s)
    | err e ↦ register_hashed email fresh (uc.hash_password_func password) s
  ]

  -- `FindMember`
  unfoldable pub find_member : MemberQuery → Stores D S → Result Member
  find_member q s = uc.member_repo.find_by_member q s.db

  -- The end of `Login`: the session is stored, then the status.
  pub login_session : Member → String → String → ℕ → Stores D S → Result String × Stores D S
  login_session m email token now s =
      let (e, redis) =
        uc.redis_repo.set m.member_id (session_of token m.member_id now uc.session_ttl)
          uc.session_ttl s.redis in
      elim e [
        | some _ ↦ (err (login_error email "can't save to redis !!!"), record s { redis = redis })
        | none ↦
            let (e', db) = uc.member_repo.update_member_status m s.db in
            let s' : Stores D S = record { db = db; redis = redis } in
            elim e' [
              | some m' ↦ (
                err (
                    login_error email
                      (join ("can't UpdateMemberStatus error :" ∷ m' ∷ " !!!" ∷ []))),
                s',
              )
              | none ↦ (ok token, s')
            ]
      ]

  -- `Login` after the look-up.
  pub login_found : Member → String → String → ℕ → ℕ → Stores D S → Result String × Stores D S
  unfolding login_session
  login_found m email password now clock s = elim (is_password_match uc.bcrypt m password) [
    | some e ↦ (err (login_error email "password can't match!!!"), s)
    | none ↦ elim (generate_jwt uc.jwt m.member_id role_member uc.issuer clock) [
      | err e ↦ (err (login_error email "can't GenerateJWT!!!"), s)
      | ok token ↦ login_session (record m { status = member_status_on_line }) email token now s
    ]
  ]

  -- `Login`
  unfoldable pub login : String → String → ℕ → ℕ → Stores D S → Result String × Stores D S
  unfolding login_found
  login email password now clock s = elim (uc.member_repo.find_by_member (by_email email) s.db) [
    | err e ↦ (err (login_error email "can't find!!!"), s)
    | ok m ↦ login_found m email password now clock s
  ]

  -- `ForceLogout`
  unfoldable pub force_logout : String → Stores D S → Option Error × Stores D S
  force_logout member_id s =
      let (e, redis) = uc.redis_repo.del member_id s.redis in
      elim e [
        | some m ↦ (some m, record s { redis = redis })
        | none ↦
            let (e', db) = uc.member_repo.update_member_status (off_line member_id) s.db in
            (e', record { db = db; redis = redis })
      ]

  -- `Logout`: what follows the parsing of the token is what `ForceLogout` does.
  unfoldable pub logout : String → ℕ → Stores D S → Option Error × Stores D S
  unfolding force_logout
  logout token clock s = elim (parse_jwt uc.jwt token clock) [
    | err e ↦ (some e, s)
    | ok claims ↦ force_logout claims.member_id s
  ]

  -- `CheckSessionTimeout`: whether the session has ended, and the error. "redis: nil" is the text of
  -- `redis.Nil`.
  ttl_timeout : Result ℕ → Bool × Option Error
  ttl_timeout (err e) = if e == "redis: nil" then (true, none) else (true, some e)
  ttl_timeout (ok ttl) = if ltb 0 ttl then (false, none) else (true, none)

  unfoldable pub check_session_timeout : String → ℕ → Stores D S → Bool × Option Error
  unfolding ttl_timeout
  check_session_timeout token clock s = elim (parse_jwt uc.jwt token clock) [
    | err e ↦ (true, some e)
    | ok claims ↦ ttl_timeout (uc.redis_repo.get_ttl claims.member_id s.redis)
  ]

  -- `ReconnectSession`
  unfoldable pub reconnect_session : String → ℕ → Stores D S → Option Error × Stores D S
  reconnect_session token clock s = elim (parse_jwt uc.jwt token clock) [
    | err e ↦ (some e, s)
    | ok claims ↦
        let (e, redis) = uc.redis_repo.extend_ttl claims.member_id uc.session_ttl s.redis in
        (e, record s { redis = redis })
  ]

-- ===== src/Member/UseCase/Sessions.antt =====
-- The sessions of internal/member/app/member_usecase.go, from `Login` to `Logout`, over PostgreSQL
-- and Redis.
use streaming_video_service.Prelude.{
  ℕ, ◌*◌, ◌<◌, ◌≤◌, ◌≡◌, refl, ◌∙◌, ap, String, true, false, Option, none, some, arith,
}
use streaming_video_service.Golang.{ok}
use streaming_video_service.Encrypt.{Bcrypt, hash_password}
use streaming_video_service.Token.{Claims, Jwt, parse_jwt}
use streaming_video_service.Redis.{second, RedisClient, Codec, redis_repository}
use streaming_video_service.Redis.Keys.{Entry, extended, Keyed, Up, get_ttl-zero, get_ttl-positive}
use streaming_video_service.Member.Domain.{MemberSession}
use streaming_video_service.Member.Repository.{Postgres, member_repository}
use streaming_video_service.Member.UseCase.{
  Stores, MemberUseCase, ttl_timeout, check_session_timeout, reconnect_session,
}

-- The use case as cmd/member_service/main.go puts it together, with a time to live of `n` seconds.
abbrev pub member_service :
    {D S : Type 0}
    → Postgres D
    → RedisClient S
    → Codec MemberSession
    → Bcrypt
    → Jwt
    → String
    → ℕ
    → MemberUseCase D S
member_service db client json bcrypt jwt issuer n = record {
  member_repo = member_repository db;
  session_ttl = n * second;
  redis_repo = redis_repository client json;
  hash_password_func = hash_password bcrypt;
  bcrypt = bcrypt;
  jwt = jwt;
  issuer = issuer;
}

-- The key is there, for another second at least.
abbrev pub IsLive : {S : Type 0} → (S → String → Option Entry) → String → S → Type 0
IsLive entry key s = (e : Entry) × (entry s key ≡ some e) × (second ≤ e.remaining)

pub full-second : (n : ℕ) → 0 < n → second ≤ n * second
full-second n h = omega arith

module _ {D S : Type 0} (db : Postgres D) (client : RedisClient S) (json : Codec MemberSession)
    (bcrypt : Bcrypt) (jwt : Jwt) (issuer : String) (n : ℕ) (entry : S → String → Option Entry)
    (laws : Keyed client entry) (up : Up client) where
  -- A session that is live has not timed out,
  pub check_session_timeout-IsLive :
      (token : String) (clock : ℕ) (claims : Claims) (s : Stores D S)
      → parse_jwt jwt token clock ≡ ok claims
      → IsLive entry claims.member_id s.redis
      → check_session_timeout (member_service db client json bcrypt jwt issuer n) token clock s
        ≡ (false, none)
  unfolding check_session_timeout ttl_timeout
  check_session_timeout-IsLive token clock claims s read (e, there, enough) =
      let (ttl, positive, is) =
        get_ttl-positive client json entry laws up claims.member_id s.redis e there enough in
      rw (read, check_session_timeout) (rw (is, ttl_timeout) (ground (arith, positive)))

  -- and one that is gone has.
  pub check_session_timeout-gone :
      (token : String) (clock : ℕ) (claims : Claims) (s : Stores D S)
      → parse_jwt jwt token clock ≡ ok claims
      → entry s.redis claims.member_id ≡ none
      → check_session_timeout (member_service db client json bcrypt jwt issuer n) token clock s
        ≡ (true, none)
  unfolding check_session_timeout ttl_timeout
  check_session_timeout-gone token clock claims s read gone =
      let is = get_ttl-zero client json entry laws up claims.member_id s.redis gone in
      rw (read, check_session_timeout) (rw (is, ttl_timeout) refl)

  -- With Redis up, and a token that is read: `ReconnectSession` gives no error, live session or not.
  -- A live session then has its whole time again and has not timed out; one that was gone stays gone
  -- and has timed out.
  pub reconnect_session-check_session_timeout :
      (token : String) (clock : ℕ) (claims : Claims) (s : Stores D S)
      → 0 < n
      → parse_jwt jwt token clock ≡ ok claims
      → let uc = member_service db client json bcrypt jwt issuer n in
        let (e, s') = reconnect_session uc token clock s in
        (e ≡ none)
        × ((old : Entry)
            → entry s.redis claims.member_id ≡ some old
            → (entry s'.redis claims.member_id ≡ some (record old { remaining = n * second }))
              × (check_session_timeout uc token clock s' ≡ (false, none)))
        × (entry s.redis claims.member_id ≡ none
            → (entry s'.redis claims.member_id ≡ none)
              × (check_session_timeout uc token clock s' ≡ (true, none)))
  unfolding reconnect_session redis_repository
  reconnect_session-check_session_timeout token clock claims s some_time read =
      let id = claims.member_id in
      let done = up.expire-none id (n * second) s.redis in
      let now = laws.expire-entry id n s.redis some_time done in
      let s' : Stores D S = record s { redis = (client.expire id (n * second) s.redis).1 } in
      let left_in : (reconnect_session (member_service db client json bcrypt jwt issuer n) token
            clock s).1
          ≡ s' =
        rw (read, reconnect_session) refl in
      (
        rw (read, reconnect_session) done,
        λ old there.
            let kept = now ∙ ap (extended (n * second)) there in
            rw left_in (
              kept,
              check_session_timeout-IsLive token clock claims s' read
                  (record old { remaining = n * second }, kept, full-second n some_time),
            ),
        λ gone.
            let still = now ∙ ap (extended (n * second)) gone in
            rw left_in (still, check_session_timeout-gone token clock claims s' read still),
      )

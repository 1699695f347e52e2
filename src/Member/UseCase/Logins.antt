-- ===== src/Member/UseCase/Logins.antt =====
-- `Login` and `Logout` of internal/member/app/member_usecase.go, over PostgreSQL and Redis.
use streaming_video_service.Prelude.{
  ℕ, ◌+◌, ◌*◌, ◌<◌, ◌≡◌, refl, ◌∙◌, String, true, false, Option, none, some, List, find?,
  find?-update_first_self,
}
use streaming_video_service.Golang.{ok}
use streaming_video_service.Encrypt.{Bcrypt, check_password}
use streaming_video_service.Token.{
  Claims, Jwt, token_expiration, role_member, generate_jwt, parse_jwt,
}
use streaming_video_service.Token.Middleware.{Signs, parse_jwt-generate_jwt}
use streaming_video_service.Redis.{second, RedisClient, Codec, redis_repository, set_data}
use streaming_video_service.Redis.Keys.{Entry, Keyed, Up}
use streaming_video_service.Member.Domain.{
  Member, MemberSession, member_status_on_line, member_status_off_line,
}
use streaming_video_service.Member.Repository.{Row, Postgres, scanned_member, member_repository}
use streaming_video_service.Member.Repository.Query.{is_asked}
use streaming_video_service.Member.Repository.Table.{
  has_member_id, with_status, Tabular, Answers, find_by_member-some,
}
use streaming_video_service.Member.UseCase.{
  Stores, MemberUseCase, by_email, session_of, login, login_found, login_session, logout,
  force_logout, check_session_timeout,
}
use streaming_video_service.Member.UseCase.Sessions.{
  member_service, full-second, check_session_timeout-IsLive, check_session_timeout-gone,
}

-- `json.Marshal` of a session does not fail.
abbrev pub Marshals : Codec MemberSession → Type 0
Marshals json = (m : MemberSession) → (text : String) × (json.marshal m ≡ ok text)

-- The member after `Login` has set the status.
abbrev pub on_line : Row → Member
on_line r = record (scanned_member r) { status = member_status_on_line }

module _ {D S : Type 0} (db : Postgres D) (rows : D → List Row) (table : Tabular db rows)
    (answers : Answers db rows) (client : RedisClient S) (json : Codec MemberSession)
    (marshals : Marshals json) (bcrypt : Bcrypt) (jwt : Jwt) (signs : Signs jwt) (issuer : String)
    (n : ℕ) (entry : S → String → Option Entry) (laws : Keyed client entry) (up : Up client) where
  -- What `Login` leaves of a member whose password matches.
  pub login-stores :
      (email password token : String) (now clock : ℕ) (r : Row) (s : Stores D S)
      → find? (is_asked (by_email email)) (rows s.db) ≡ some r
      → check_password bcrypt r.password password ≡ none
      → generate_jwt jwt r.member_id role_member issuer clock ≡ ok token
      → (text : String) × (json.marshal (session_of token r.member_id now (n * second)) ≡ ok text)
        × (login (member_service db client json bcrypt jwt issuer n) email password now clock s ≡ (
          ok token,
          record {
            db = (db.set_member_status member_status_on_line r.member_id s.db).1;
            redis = (client.set r.member_id text (n * second) s.redis).1;
          },
        ))
  unfolding login login_found login_session redis_repository set_data member_repository
  login-stores email password token now clock r s there match made =
      let (text, written) = marshals (session_of token r.member_id now (n * second)) in
      let hit = find_by_member-some db rows table answers (by_email email) s.db r there in
      let stored = up.set-none r.member_id text (n * second) s.redis in
      let marked =
        answers.set-none member_status_on_line (is_asked (by_email email)) r s.db there in
      (
        text,
        written,
        rw (hit, login)
            (rw (match, login_found)
              (rw made
                (rw (login_session, written) (rw (stored, marked) (rw (written, set_data) refl))))),
      )

  logout-stores :
      (token id : String) (clock : ℕ) (claims : Claims) (s : Stores D S)
      → parse_jwt jwt token clock ≡ ok claims
      → claims.member_id ≡ id
      → logout (member_service db client json bcrypt jwt issuer n) token clock s
        ≡ force_logout (member_service db client json bcrypt jwt issuer n) id s
  unfolding logout
  logout-stores token id clock claims s read mine = rw (read, logout) (rw mine refl)

  row_marked :
      (member_id : String) (status : ℕ) (r : Row) (d : D)
      → (db.set_member_status status member_id d).0 ≡ none
      → find? (has_member_id member_id) (rows d) ≡ some r
      → find? (has_member_id member_id) (rows (db.set_member_status status member_id d).1)
        ≡ some (with_status status r)
  row_marked member_id status r d done own = rw (table.set-rows status member_id d done) (
      find?-update_first_self (has_member_id member_id) (with_status status) (λ x h. h) (rows d) r
        own)

  -- What `ForceLogout` leaves.
  force_logout-stores :
      (member_id : String) (s : Stores D S)
      → (db.set_member_status member_status_off_line member_id s.db).0 ≡ none
      → force_logout (member_service db client json bcrypt jwt issuer n) member_id s ≡ (
        none,
        record {
          db = (db.set_member_status member_status_off_line member_id s.db).1;
          redis = (client.del member_id s.redis).1;
        },
      )
  unfolding force_logout redis_repository member_repository
  force_logout-stores member_id s marked =
      let gone = up.del-none member_id s.redis in rw (gone, force_logout) (rw marked refl)

  -- With the databases up, for a member whose password matches, `Login` gives a token. Redis then
  -- has the session for its whole time, the row with the member's id has the status online,
  -- whichever it had, and in this state, while the token has not expired, `CheckSessionTimeout`
  -- says that the session has not ended. A `Logout` in this state with the token, not expired, gives
  -- no error; the row is offline then, and the same check says that the session has ended.
  pub login-logout :
      (email password token : String) (now clock clock₁ clock₂ clock₃ : ℕ) (r : Row)
      (s : Stores D S)
      → 0 < n
      → find? (is_asked (by_email email)) (rows s.db) ≡ some r
      → find? (has_member_id r.member_id) (rows s.db) ≡ some r
      → check_password bcrypt r.password password ≡ none
      → generate_jwt jwt r.member_id role_member issuer clock ≡ ok token
      → clock₁ < clock + token_expiration
      → clock₂ < clock + token_expiration
      → clock₃ < clock + token_expiration
      → let uc = member_service db client json bcrypt jwt issuer n in
        let (answer, s₁) = login uc email password now clock s in
        let (left, s₂) = logout uc token clock₂ s₁ in
        (answer ≡ ok token)
        × ((text : String) × (json.marshal (session_of token r.member_id now (n * second))
              ≡ ok text)
            × (entry s₁.redis r.member_id ≡ some (record { value = text; remaining = n * second })))
        × (find? (has_member_id r.member_id) (rows s₁.db)
            ≡ some (with_status member_status_on_line r))
        × (check_session_timeout uc token clock₁ s₁ ≡ (false, none))
        × (left ≡ none)
        × (find? (has_member_id r.member_id) (rows s₂.db)
            ≡ some (with_status member_status_off_line (with_status member_status_on_line r)))
        × (check_session_timeout uc token clock₃ s₂ ≡ (true, none))
  login-logout email password token now clock clock₁ clock₂ clock₃ r s some_time there own match
        made early₁ early₂ early₃ =
      let id = r.member_id in
      let (text, written, is) = login-stores email password token now clock r s there match made in
      let s₁ : Stores D S = record {
        db = (db.set_member_status member_status_on_line id s.db).1;
        redis = (client.set id text (n * second) s.redis).1;
      } in
      let s₂ : Stores D S = record {
        db = (db.set_member_status member_status_off_line id s₁.db).1;
        redis = (client.del id s₁.redis).1;
      } in
      let (claims₁, read₁, mine₁, _) =
        parse_jwt-generate_jwt jwt signs id role_member issuer token clock clock₁ made early₁ in
      let (claims₂, read₂, mine₂, _) =
        parse_jwt-generate_jwt jwt signs id role_member issuer token clock clock₂ made early₂ in
      let (claims₃, read₃, mine₃, _) =
        parse_jwt-generate_jwt jwt signs id role_member issuer token clock clock₃ made early₃ in
      let uc : MemberUseCase D S = member_service db client json bcrypt jwt issuer n in
      let set_on = answers.set-none member_status_on_line (has_member_id id) r s.db own in
      let marked = row_marked id member_status_on_line r s.db set_on own in
      let on : Row = with_status member_status_on_line r in
      let set_off = answers.set-none member_status_off_line (has_member_id id) on s₁.db marked in
      let out : logout uc token clock₂ s₁ ≡ (none, s₂) =
        logout-stores token id clock₂ claims₂ s₁ read₂ mine₂ ∙ force_logout-stores id s₁ set_off in
      let kept =
        laws.set-entry id text n s.redis some_time (up.set-none id text (n * second) s.redis) in
      let gone = laws.del-entry id s₁.redis (up.del-none id s₁.redis) in
      rw is (
        rw out (
          refl,
          (text, written, kept),
          marked,
          check_session_timeout-IsLive db client json bcrypt jwt issuer n entry laws up token clock₁
              claims₁ s₁ read₁
              (
                record { value = text; remaining = n * second },
                rw mine₁ kept,
                full-second n some_time,
              ),
          refl,
          row_marked id member_status_off_line on s₁.db set_off marked,
          check_session_timeout-gone db client json bcrypt jwt issuer n entry laws up token clock₃
              claims₃ s₂ read₃ (rw mine₃ gone),
        ))

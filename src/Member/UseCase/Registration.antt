-- ===== src/Member/UseCase/Registration.antt =====
-- `Register` of internal/member/app/member_usecase.go, over PostgreSQL.
use streaming_video_service.Prelude.{
  false, ℕ, ◌≡◌, refl, String, ==_self, Option, none, some, List, [], ◌∷◌, ◌++◌, find?, arith,
  find?-append_none, Option-cases, inl, inr,
}
use streaming_video_service.Golang.{Error, ok, err, Result-cases}
use streaming_video_service.Encrypt.{
  Bcrypt, Hashes, validate_password_strength, hash_password, check_password, hash_password-inv,
  check_password-none,
}
use streaming_video_service.Token.{Jwt, role_member, generate_jwt}
use streaming_video_service.Redis.{RedisClient, Codec}
use streaming_video_service.Redis.Keys.{Entry, Keyed, Up}
use streaming_video_service.Member.Domain.{MemberSession}
use streaming_video_service.Member.Repository.{find_query, Row, Postgres, member_repository}
use streaming_video_service.Member.Repository.Query.{is_asked}
use streaming_video_service.Member.Repository.Table.{
  inserted, asks_member_id, Tabular, Answers, find_by_member-some, find_by_member-none,
}
use streaming_video_service.Member.UseCase.{
  Stores, by_email, login_error, register, register_hashed, login, login_found,
}
use streaming_video_service.Member.UseCase.Sessions.{member_service}
use streaming_video_service.Member.UseCase.Logins.{Marshals, login-stores}
use streaming_video_service.Token.Middleware.{Signs}

by_email-asks : (email : String) → asks_member_id (find_query (by_email email)).conditions ≡ false
unfolding find_query asks_member_id
by_email-asks email = refl

-- Where a test fails so far, it finds a row put at the end that passes.
find-new :
    (email fresh hashed : String) (id : ℕ) (old new : List Row)
    → find? (is_asked (by_email email)) old ≡ none
    → new ≡ old ++ inserted id fresh email hashed ∷ []
    → find? (is_asked (by_email email)) new ≡ some (inserted id fresh email hashed)
find-new email fresh hashed id old new free is = rw is (
    find?-append_none (is_asked (by_email email)) old (inserted id fresh email hashed) free
      (ground (arith, ==_self email)))

module _ {D S : Type 0} (db : Postgres D) (rows : D → List Row) (table : Tabular db rows)
    (answers : Answers db rows) (client : RedisClient S) (json : Codec MemberSession)
    (bcrypt : Bcrypt) (jwt : Jwt) (issuer : String) (n : ℕ) where
  -- An email that is there is refused.
  register-taken :
      (email password fresh : String) (r : Row) (s : Stores D S)
      → find? (is_asked (by_email email)) (rows s.db) ≡ some r
      → register (member_service db client json bcrypt jwt issuer n) email password fresh s
        ≡ (some "email already exists", s)
  unfolding register
  register-taken email password fresh r s there =
      rw (find_by_member-some db rows table answers (by_email email) s.db r there, register) refl

  -- A registration that gives no error: the email was free, the password is strong and hashed, and
  -- the row is stored.
  register-inv :
      (email password fresh : String) (s : Stores D S)
      → (register (member_service db client json bcrypt jwt issuer n) email password fresh s).0
        ≡ none
      → (hashed : String) × (find? (is_asked (by_email email)) (rows s.db) ≡ none)
        × (hash_password bcrypt password ≡ ok hashed)
        × ((db.insert_member fresh email hashed s.db).0 ≡ none)
        × (register (member_service db client json bcrypt jwt issuer n) email password fresh s
            ≡ (none, record s { db = (db.insert_member fresh email hashed s.db).1 }))
  unfolding register register_hashed member_repository
  register-inv email password fresh s done =
      elim (Option-cases (find? (is_asked (by_email email)) (rows s.db))) [
        | inr (r, there) ↦
            absurd (ground (arith, register-taken email password fresh r s there, done))
        | inl free ↦
            let miss =
              find_by_member-none db rows table answers (by_email email) s.db (by_email-asks email)
                free in
            elim (Result-cases (hash_password bcrypt password)) [
              | inr (e, weak) ↦
                  absurd
                    (ground (arith, rw (weak, register_hashed) at (rw (miss, register) at done)))
              | inl (hashed, strong) ↦
                  let stored : (db.insert_member fresh email hashed s.db).0 ≡ none =
                    rw (strong, register_hashed) at (rw (miss, register) at done) in
                  (
                    hashed,
                    free,
                    strong,
                    stored,
                    rw (miss, register) (rw (strong, register_hashed) (rw stored refl)),
                  )
            ]
      ]

  login-refused :
      (email attempt : String) (now clock : ℕ) (r : Row) (e : Error) (s : Stores D S)
      → find? (is_asked (by_email email)) (rows s.db) ≡ some r
      → check_password bcrypt r.password attempt ≡ some e
      → login (member_service db client json bcrypt jwt issuer n) email attempt now clock s
        ≡ (err (login_error email "password can't match!!!"), s)
  unfolding login login_found
  login-refused email attempt now clock r e s there wrong =
      rw (find_by_member-some db rows table answers (by_email email) s.db r there, login)
        (rw (wrong, login_found) refl)

module _ {D S : Type 0} (db : Postgres D) (rows : D → List Row) (table : Tabular db rows)
    (answers : Answers db rows) (client : RedisClient S) (json : Codec MemberSession)
    (marshals : Marshals json) (bcrypt : Bcrypt) (hashes : Hashes bcrypt) (jwt : Jwt)
    (signs : Signs jwt) (issuer : String) (n : ℕ) (entry : S → String → Option Entry)
    (laws : Keyed client entry) (up : Up client) where
  -- When `Register` gives no error, and the databases answer, the password is strong, and it is
  -- stored as its hash `hashed`. The email cannot be registered again, with whatever password.
  -- `Login` with the password gives the token that is made for the new member, and `Login` with any
  -- text that does not match the hash is refused and changes nothing.
  pub register-login :
      (email password fresh token : String) (now clock : ℕ) (s : Stores D S)
      → let uc = member_service db client json bcrypt jwt issuer n in
        let (e, s₁) = register uc email password fresh s in
        e ≡ none
        → generate_jwt jwt fresh role_member issuer clock ≡ ok token
        → (hashed : String) × (validate_password_strength password ≡ none)
          × (bcrypt.generate_from_password password ≡ ok hashed)
          × ((password' fresh' : String)
              → register uc email password' fresh' s₁ ≡ (some "email already exists", s₁))
          × ((login uc email password now clock s₁).0 ≡ ok token)
          × ((attempt : String) (m : Error)
              → check_password bcrypt hashed attempt ≡ some m
              → login uc email attempt now clock s₁
                ≡ (err (login_error email "password can't match!!!"), s₁))
  register-login email password fresh token now clock s done made =
      let (hashed, free, strong, stored, is) =
        register-inv db rows table answers client json bcrypt jwt issuer n email password fresh s
          done in
      let (valid, from) = hash_password-inv bcrypt password hashed strong in
      let (id, _, new) = table.insert-rows fresh email hashed s.db stored in
      let s₁ : Stores D S = record s { db = (db.insert_member fresh email hashed s.db).1 } in
      let there = find-new email fresh hashed id (rows s.db) (rows s₁.db) free new in
      let match = check_password-none bcrypt hashes password hashed from in
      let (text, _, logged) =
        login-stores db rows table answers client json marshals bcrypt jwt signs issuer n entry laws
          up email password token now clock (inserted id fresh email hashed) s₁ there match made in
      rw is (
        hashed,
        valid,
        from,
        λ password' fresh'.
            register-taken db rows table answers client json bcrypt jwt issuer n email password'
              fresh' (inserted id fresh email hashed) s₁ there,
        rw logged refl,
        λ attempt m wrong.
            login-refused db rows table answers client json bcrypt jwt issuer n email attempt now
              clock (inserted id fresh email hashed) m s₁ there wrong,
      )

-- ===== src/Tests/Signing.antt =====
-- bcrypt, the JSON of a session, and tokens in memory, for the tests of the member service.
use streaming_video_service.Prelude.{
  refl, ==_of_ne, ℕ, ◌<◌, ◌≤◌, ◌≡◌, sym, ◌∙◌, subst, ◌≢◌, String, Bool, true, false, ◌&&◌, ◌==◌,
  ==_self, eq_iff, nat_beq, ltb, if◌then◌else◌, Bool-cases, inl, inr, Option, none, some, arith,
  append_text,
}
use streaming_video_service.Golang.{Error, Result, ok, err}
use streaming_video_service.Encrypt.{Bcrypt, Hashes}
use streaming_video_service.Redis.{Codec}
use streaming_video_service.Token.{Claims, ParsedToken, Jwt, jwt_secret}
use streaming_video_service.Token.Middleware.{Compact, has_dot, Signs}
use streaming_video_service.Member.Domain.{MemberSession}

-- A session is written as its token.
abbrev pub json : Codec MemberSession
json = record { marshal = λ m. ok m.token; unmarshal = λ text. err "not read" }

compared : Bool → Option Error
compared true = none
compared false = some "mismatch"

same_hash :
    (hashed text : String)
    → ◌≡◌ {A = Result String} (ok text) (ok hashed)
    → compared (hashed == text) ≡ none
unfolding compared
same_hash hashed text e = ground (arith, ==_self hashed, e)

unfoldable pub bcrypt : Bcrypt
unfolding compared
bcrypt = record {
  generate_from_password = λ password. ok (append_text "$" password);
  compare_hash_and_password = λ hashed password. compared (hashed == append_text "$" password);
}

pub bcrypt-Hashes : Hashes bcrypt
unfolding bcrypt
bcrypt-Hashes = record {
  compare-generate = λ password hashed e. same_hash hashed (append_text "$" password) e;
}

-- A library that signs one set of claims, for the member "u1" at the time 100, as "t1.x.y".
abbrev pub signed : Claims
signed = record {
  member_id = "u1";
  role = "member";
  expires_at = 3700;
  issued_at = 100;
  issuer = "member_service";
}

abbrev is_signed : Claims → Bool
is_signed c =
    c.member_id == "u1"
    && (c.role == "member"
        && (nat_beq c.expires_at 3700 && (nat_beq c.issued_at 100 && c.issuer == "member_service")))

sign : Bool → Result String
sign true = ok "t1.x.y"
sign false = err "cannot sign"

read : Result String → String → ℕ → Result ParsedToken
read (err e) token now = err e
read (ok secret) token now =
    if token == "t1.x.y" && secret == jwt_secret
    then (if ltb now 3700
        then ok (record { claims = some signed; valid = true })
        else err "token is expired")
    else err "signature is invalid"

unfoldable pub jwt : Jwt
unfolding sign read
jwt = record {
  signed_string = λ c secret. sign (is_signed c && secret == jwt_secret);
  parse_with_claims = λ key token now. read (key true) token now;
}

sign_one :
    (c : Claims) (secret token : String)
    → sign (is_signed c && secret == jwt_secret) ≡ ok token
    → (is_signed c ≡ true) × (secret ≡ jwt_secret) × (token ≡ "t1.x.y")
unfolding sign
sign_one c secret token e = elim (Bool-cases (is_signed c && secret == jwt_secret)) [
  | inr miss ↦ absurd (ground (arith, miss, e))
  | inl hit ↦ (
    ground (arith, hit),
    (eq_iff secret jwt_secret).0 (ground (arith, hit)),
    ground (arith, hit, e),
  )
]

is_signed_eq : (c : Claims) → is_signed c ≡ true → c ≡ signed
is_signed_eq c h =
    let member = (eq_iff c.member_id "u1").0 (ground (arith, h)) in
    let role = (eq_iff c.role "member").0 (ground (arith, h)) in
    let issuer = (eq_iff c.issuer "member_service").0 (ground (arith, h)) in
    let expires : c.expires_at ≡ 3700 = ground (arith, h) in
    let issued : c.issued_at ≡ 100 = ground (arith, h) in
    λ i. record {
      member_id = member i;
      role = role i;
      expires_at = expires i;
      issued_at = issued i;
      issuer = issuer i;
    }

read_early :
    (now : ℕ)
    → now < 3700
    → read (ok jwt_secret) "t1.x.y" now ≡ ok (record { claims = some signed; valid = true })
unfolding read
read_early now h = ground (arith, h)

read_late : (now : ℕ) → 3700 ≤ now → read (ok jwt_secret) "t1.x.y" now ≡ err "token is expired"
unfolding read
read_late now h = ground (arith, h)

t1_ne : ◌≢◌ {A = String} "t1.x.y" ""
t1_ne e = cc ((eq_iff "t1.x.y" "").1 e)

pub jwt-Signs : Signs jwt
unfolding jwt
jwt-Signs = record {
  parse-valid = λ c secret token key now made known early.
      let (one, is, text) = sign_one c secret token made in
      let same = is_signed_eq c one in
      let early' = subst (λ (d : Claims). now < d.expires_at) same early in
      rw known (rw is (rw text (rw same (read_early now early'))));
  parse-expired = λ c secret token key now made known late.
      let (one, is, text) = sign_one c secret token made in
      let late' = subst (λ (d : Claims). d.expires_at ≤ now) (is_signed_eq c one) late in
      ("token is expired", rw known (rw is (rw text (read_late now late'))));
  not_empty = λ c secret token made empty.
      let (one, is, text) = sign_one c secret token made in t1_ne (sym text ∙ empty);
}

dotted : (text : String) → has_dot text ≡ false → text ≡ "t1.x.y" → true ≡ false
unfolding has_dot
dotted text no_dot e = subst (λ t. has_dot t ≡ false) e no_dot

read-Compact :
    (r : Result String) (text : String) (now : ℕ)
    → has_dot text ≡ false
    → (e : Error) × (read r text now ≡ err e)
unfolding read
read-Compact (err e) text now no_dot = (e, refl)
read-Compact (ok secret) text now no_dot =
    let other : (text == "t1.x.y") ≡ false =
      ==_of_ne text "t1.x.y" (λ e. absurd (cc (dotted text no_dot e))) in
    ("signature is invalid", rw other refl)

pub jwt-Compact : Compact jwt
unfolding jwt
jwt-Compact key text now no_dot = read-Compact (key true) text now no_dot

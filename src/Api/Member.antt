-- ===== src/Api/Member.antt =====
-- internal/api/handlers/member_handler.go: the handlers that pass requests on to the member service.
-- The body of a request is what `BodyParser` gives.
pub mod Sessions
pub mod Finding
use streaming_video_service.Prelude.{
  ℕ, String, Bool, true, false, ◌==◌, Option, none, some, if◌then◌else◌,
}
use streaming_video_service.Golang.{Error, Result, ok, err}
use streaming_video_service.Member.Handler.{
  StatusRes, LoginRes, FindByMemberRes, FindMemberParam, MemberInfo,
}
use streaming_video_service.Api.Http.{HttpRes, json_res, error_res}

-- The calls of `memberpb.MemberServiceClient`; `W` is what they change. Beside an error the response
-- is nil.
pub record MemberServiceClient (W : Type 0) : Type 0 where
  pub register : String → String → W → Result StatusRes × W
  pub login : String → String → W → Result LoginRes × W
  pub logout : String → W → Result StatusRes × W
  pub find_member : FindMemberParam → W → Result FindByMemberRes × W

pub record Credentials : Type 0 where
  pub email : String
  pub password : String

pub record Cookie : Type 0 where
  pub name : String
  pub value : String
  pub path : String
  pub http_only : Bool
  pub secure : Bool
  pub same_site : String
  pub max_age : ℕ

-- The JSON of the responses.
pub data MemberJson : Type 0 where
  with_message : String → MemberJson
  with_token : String → String → MemberJson
  with_user : MemberInfo → MemberJson

-- A response, and the cookie that it sets.
pub record LoginAnswer : Type 0 where
  pub response : HttpRes MemberJson
  pub cookie : Option Cookie

-- The name of the cookie that `JWTMiddleware` reads.
abbrev pub cookie_token : String
cookie_token = "auth_token"

abbrev pub auth_cookie : Bool → String → Cookie
auth_cookie production token = record {
  name = cookie_token;
  value = token;
  path = "/";
  http_only = true;
  secure = production;
  same_site = "Strict";
  max_age = 3600;
}

-- `err != nil || !resp.Success`, where `GetMessage` of a nil response is "".
abbrev pub status_answer : ℕ → String → Result StatusRes → HttpRes MemberJson
status_answer code message (err e) = error_res code ""
status_answer code message (ok res) =
    if res.success then json_res (with_message message) else error_res code res.message

abbrev pub login_answer : Bool → Result LoginRes → LoginAnswer
login_answer production (err e) = record { response = error_res 401 ""; cookie = none }
login_answer production (ok res) =
    if res.success
    then record {
      response = json_res (with_token res.token "login success");
      cookie = some (auth_cookie production res.token);
    }
    else record { response = error_res 401 res.message; cookie = none }

abbrev pub find_answer : Result FindByMemberRes → HttpRes MemberJson
find_answer (err e) = error_res 404 ""
find_answer (ok res) =
    if res.success then json_res (with_user res.info) else error_res 404 res.message

module _ {W : Type 0} (client : MemberServiceClient W) where
  -- `Register`
  unfoldable pub gateway_register : Result Credentials → W → HttpRes MemberJson × W
  gateway_register (err e) w = (error_res 400 "invalid request", w)
  gateway_register (ok req) w =
      let (r, w') = client.register req.email req.password w in
      (status_answer 500 "register success" r, w')

  -- `Login`; whether the cookie is only for HTTPS is `IsProduction`.
  unfoldable pub gateway_login : Bool → Result Credentials → W → LoginAnswer × W
  gateway_login production (err e) w =
      (record { response = error_res 400 "invalid request"; cookie = none }, w)
  gateway_login production (ok req) w =
      let (r, w') = client.login req.email req.password w in (login_answer production r, w')

  -- `Logout`, of the local `MemberID` that the middleware sets: it is what goes out as the token.
  unfoldable pub gateway_logout : Option String → W → HttpRes MemberJson × W
  gateway_logout none w = (error_res 500 "c.Locals(MemberID) is nill", w)
  gateway_logout (some token) w =
      let (r, w') = client.logout token w in (status_answer 500 "logout success" r, w')

  -- `FindByEmail`
  unfoldable pub gateway_find_by_email : String → W → HttpRes MemberJson × W
  gateway_find_by_email email w =
      if email == ""
      then (error_res 400 "email is required", w)
      else let (r, w') = client.find_member (record { id = 0; member_id = ""; email = email }) w in
        (find_answer r, w')

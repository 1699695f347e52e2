-- ===== src/Member/Handler.antt =====
-- internal/member/app/member_handler.go: the gRPC server of the member service. A handler returns
-- its response beside the error.
pub mod Finding
use streaming_video_service.Prelude.{ℕ, String, Bool, true, false, Option, none, some}
use streaming_video_service.Golang.{Error, Result, ok, err}
use streaming_video_service.Member.Domain.{Member, MemberQuery}
use streaming_video_service.Member.UseCase.{
  Stores, MemberUseCase, register, find_member, login, logout, force_logout, check_session_timeout,
  reconnect_session,
}

-- `RegisterRes`, `LogoutRes`, `ForceLogoutRes` and `ReconnectSessionRes`
pub record StatusRes : Type 0 where
  pub success : Bool
  pub message : String

pub record LoginRes : Type 0 where
  pub success : Bool
  pub token : String
  pub message : String

pub record CheckSessionTimeoutRes : Type 0 where
  pub success : Bool
  pub expire : Bool
  pub message : String

pub record MemberInfo : Type 0 where
  pub id : String
  pub email : String
  pub password : String

pub record FindByMemberRes : Type 0 where
  pub success : Bool
  pub info : MemberInfo
  pub message : String

-- `FindMemberParam`: a field that the client leaves out reads as 0 or "".
pub record FindMemberParam : Type 0 where
  pub id : ℕ
  pub member_id : String
  pub email : String

-- The response to a call that gives only an error.
abbrev pub status_res : String → Option Error → StatusRes
status_res message none = record { success = true; message = message }
status_res message (some e) = record { success = false; message = e }

abbrev pub login_res : Result String → LoginRes × Option Error
login_res (ok token) = (record { success = true; token = token; message = "login success" }, none)
login_res (err e) = (record { success = false; token = ""; message = e }, some e)

abbrev pub timeout_res : Bool × Option Error → CheckSessionTimeoutRes × Option Error
timeout_res (expire, none) =
    (record { success = true; expire = expire; message = "logout success" }, none)
timeout_res (expire, some e) = (record { success = false; expire = expire; message = e }, some e)

abbrev pub find_res : Result Member → FindByMemberRes × Option Error
find_res (ok m) = (
  record {
    success = true;
    info = record { id = m.member_id; email = m.email; password = m.password };
    message = "create success";
  },
  none,
)
find_res (err e) = (
  record { success = false; info = record { id = ""; email = ""; password = "" }; message = e },
  some e,
)

-- The query of `FindMember`: every field is given.
abbrev pub query_of : FindMemberParam → MemberQuery
query_of p = record { id = some p.id; member_id = some p.member_id; email = some p.email }

module _ {D S : Type 0} (uc : MemberUseCase D S) where
  unfoldable pub handle_register :
      String → String → String → Stores D S → (StatusRes × Option Error) × Stores D S
  handle_register email password fresh s =
      let (e, s') = register uc email password fresh s in ((status_res "create success" e, e), s')

  unfoldable pub handle_find_member : FindMemberParam → Stores D S → FindByMemberRes × Option Error
  handle_find_member p s = find_res (find_member uc (query_of p) s)

  unfoldable pub handle_login :
      String → String → ℕ → ℕ → Stores D S → (LoginRes × Option Error) × Stores D S
  handle_login email password now clock s =
      let (r, s') = login uc email password now clock s in (login_res r, s')

  unfoldable pub handle_logout : String → ℕ → Stores D S → (StatusRes × Option Error) × Stores D S
  handle_logout token clock s =
      let (e, s') = logout uc token clock s in ((status_res "logout success" e, e), s')

  unfoldable pub handle_force_logout : String → Stores D S → (StatusRes × Option Error) × Stores D S
  handle_force_logout member_id s =
      let (e, s') = force_logout uc member_id s in ((status_res "logout success" e, e), s')

  unfoldable pub handle_check_session_timeout :
      String → ℕ → Stores D S → CheckSessionTimeoutRes × Option Error
  handle_check_session_timeout token clock s = timeout_res (check_session_timeout uc token clock s)

  unfoldable pub handle_reconnect_session :
      String → ℕ → Stores D S → (StatusRes × Option Error) × Stores D S
  handle_reconnect_session token clock s =
      let (e, s') = reconnect_session uc token clock s in ((status_res "logout success" e, e), s')

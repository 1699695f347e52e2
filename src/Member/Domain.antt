-- ===== src/Member/Domain.antt =====
-- internal/member/domain/member.go. Times are nanoseconds since 1970; the serial id is a natural
-- number.
use streaming_video_service.Prelude.{ℕ, String, Bool, Option, ltb}
use streaming_video_service.Golang.{Error}
use streaming_video_service.Encrypt.{Bcrypt, check_password}

-- MemberStatus
abbrev pub member_status_off_line : ℕ
member_status_off_line = 0

abbrev pub member_status_on_line : ℕ
member_status_on_line = 1

abbrev pub member_status_ban : ℕ
member_status_ban = 2

abbrev pub member_status_delete : ℕ
member_status_delete = 3

pub record Member : Type 0 where
  pub id : ℕ
  pub member_id : String
  pub email : String
  pub password : String
  pub status : ℕ

pub record MemberSession : Type 0 where
  pub token : String
  pub member_id : String
  pub created_at : ℕ
  pub last_activity : ℕ
  pub expired_at : ℕ

-- A field that is nil is not asked for.
pub record MemberQuery : Type 0 where
  pub id : Option ℕ
  pub member_id : Option String
  pub email : Option String

-- `IsPasswordMatch`
abbrev pub is_password_match : Bcrypt → Member → String → Option Error
is_password_match bcrypt m input_pwd = check_password bcrypt m.password input_pwd

-- `IsExpired` at a time.
abbrev pub is_expired : MemberSession → ℕ → Bool
is_expired s now = ltb s.expired_at now

-- ===== src/Member/Repository.antt =====
-- internal/member/repository/member_repository.go. PostgreSQL is a parameter. A SELECT is the list of
-- its conditions, each `AND <column> = $<n>`, beside the list of its arguments.
pub mod Query
pub mod Table
use streaming_video_service.Prelude.{ℕ, ◌+◌, String, Option, none, some, List, [], ◌∷◌, ◌++◌}
use streaming_video_service.Golang.{Error, Result, ok, err}
use streaming_video_service.Member.Domain.{Member, MemberQuery}

-- `MemberRepository`
pub record MemberRepository (D : Type 0) : Type 0 where
  pub create_user : Member → D → Option Error × D
  pub update_member_status : Member → D → Option Error × D
  pub find_by_member : MemberQuery → D → Result Member

pub data Column : Type 0 where
  id_column : Column
  member_id_column : Column
  email_column : Column

-- An argument of a statement.
pub data Argument : Type 0 where
  text : String → Argument
  integer : ℕ → Argument

-- ` AND <column> = $<number>`
pub record Condition : Type 0 where
  pub column : Column
  pub number : ℕ

-- A row of the table `member`; the status may be NULL.
pub record Row : Type 0 where
  pub id : ℕ
  pub member_id : String
  pub email : String
  pub password : String
  pub status : Option ℕ

-- `row.Scan` of a query: a row, `pgx.ErrNoRows` or another error.
pub data Scanned : Type 0 where
  row : Row → Scanned
  no_rows : Scanned
  failed : Error → Scanned

-- The statements that the repository sends.
pub record Postgres (D : Type 0) : Type 0 where
  -- INSERT INTO member(member_id,email, password) VALUES ($1, $2, $3)
  pub insert_member : String → String → String → D → Option Error × D
  -- UPDATE member SET status = $1 WHERE member_id = $2
  pub set_member_status : ℕ → String → D → Option Error × D
  -- SELECT id, member_id, email, password FROM member WHERE 1=1 and the conditions
  pub select_member : List Condition → List Argument → D → Scanned

-- The variables `queryStr`, `params` and `paramCount` of `FindByMember`.
pub record Building : Type 0 where
  pub conditions : List Condition
  pub params : List Argument
  pub param_count : ℕ

-- One `if` of `FindByMember`.
unfoldable pub add_condition : Column → Option Argument → Building → Building
add_condition c none b = b
add_condition c (some a) b = record {
  conditions = b.conditions ++ record { column = c; number = b.param_count } ∷ [];
  params = b.params ++ a ∷ [];
  param_count = b.param_count + 1;
}

abbrev pub text_of : Option String → Option Argument
text_of none = none
text_of (some s) = some (text s)

abbrev pub integer_of : Option ℕ → Option Argument
integer_of none = none
integer_of (some n) = some (integer n)

-- The query of `FindByMember`.
unfoldable pub find_query : MemberQuery → Building
unfolding add_condition
find_query q = add_condition id_column (integer_of q.id) (
    add_condition member_id_column (text_of q.member_id) (
      add_condition email_column (text_of q.email)
        (record { conditions = []; params = []; param_count = 1 })))

-- The status is not selected, and stays 0.
abbrev pub scanned_member : Row → Member
scanned_member r = record {
  id = r.id;
  member_id = r.member_id;
  email = r.email;
  password = r.password;
  status = 0;
}

pub found_member : Scanned → Result Member
found_member (row r) = ok (scanned_member r)
found_member no_rows = err "no member found with given criteria"
found_member (failed e) = err e

-- `memberRepository`
unfoldable pub member_repository : {D : Type 0} → Postgres D → MemberRepository D
unfolding found_member find_query
member_repository db = record {
  create_user = λ m d. db.insert_member m.member_id m.email m.password d;
  update_member_status = λ m d. db.set_member_status m.status m.member_id d;
  find_by_member =
      λ q d. let b = find_query q in found_member (db.select_member b.conditions b.params d);
}

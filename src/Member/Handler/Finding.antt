-- ===== src/Member/Handler/Finding.antt =====
-- `FindMember` of internal/member/app/member_handler.go, over PostgreSQL.
use streaming_video_service.Prelude.{◌<◌, ◌≡◌, refl, String, none, List, [], ◌∷◌, find?, All, arith}
use streaming_video_service.Golang.{Error, err}
use streaming_video_service.Member.Repository.{Row, Postgres, member_repository}
use streaming_video_service.Member.Repository.Query.{is_asked}
use streaming_video_service.Member.Repository.Table.{Tabular, find_by_member-missed}
use streaming_video_service.Member.UseCase.{Stores, MemberUseCase, find_member}
use streaming_video_service.Member.Handler.{FindMemberParam, query_of, find_res, handle_find_member}

-- The request that internal/api/handlers/member_handler.go sends to find a member by email.
abbrev pub by_email_only : String → FindMemberParam
by_email_only email = record { id = 0; member_id = ""; email = email }

-- No row has the serial id 0.
abbrev pub IsSerial : List Row → Type 0
IsSerial rs = All (λ (r : Row). 0 < r.id) rs

none-asked :
    (email : String) (rs : List Row)
    → IsSerial rs
    → find? (is_asked (query_of (by_email_only email))) rs ≡ none
none-asked email [] positive = refl
none-asked email (r ∷ rs) (p, positive) = ground (arith, p, none-asked email rs positive)

module _ {D S : Type 0} (db : Postgres D) (rows : D → List Row) (table : Tabular db rows) where
  -- The handler asks for the id and the member id too, although the gateway's request leaves them
  -- out: as serial ids are positive, a request with an email only never finds anyone, whoever has
  -- that email.
  pub handle_find_member-by_email_only :
      (uc : MemberUseCase D S) (email : String) (s : Stores D S)
      → uc.member_repo ≡ member_repository db
      → IsSerial (rows s.db)
      → (e : Error) × (handle_find_member uc (by_email_only email) s ≡ find_res (err e))
  unfolding handle_find_member find_member
  handle_find_member-by_email_only uc email s is positive =
      let (e, missed) =
        find_by_member-missed db rows table (query_of (by_email_only email)) s.db
          (none-asked email (rows s.db) positive) in
      (e, rw is (rw missed refl))

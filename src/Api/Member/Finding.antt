-- ===== src/Api/Member/Finding.antt =====
-- `FindByEmail` of the gateway, over the member service.
use streaming_video_service.Prelude.{
  ◌≡◌, refl, String, Bool-cases, ◌==◌, inl, inr, List, if◌then◌else◌,
}
use streaming_video_service.Member.Repository.{Row, Postgres, member_repository}
use streaming_video_service.Member.Repository.Table.{Tabular}
use streaming_video_service.Member.UseCase.{Stores, MemberUseCase}
use streaming_video_service.Member.Handler.{FindMemberParam, handle_find_member}
use streaming_video_service.Member.Handler.Finding.{
  by_email_only, IsSerial, handle_find_member-by_email_only,
}
use streaming_video_service.Api.Http.{HttpRes, error_res}
use streaming_video_service.Api.Rpc.{Carried}
use streaming_video_service.Api.Member.{MemberServiceClient, MemberJson, gateway_find_by_email}

-- The answer to any email: the empty one is asked for again.
abbrev pub find_refusal : String → HttpRes MemberJson
find_refusal email = if email == "" then error_res 400 "email is required" else error_res 404 ""

module _ {D S : Type 0} (db : Postgres D) (rows : D → List Row) (table : Tabular db rows) where
  -- `FindByEmail` finds nobody, whoever has the email: the gRPC handler asks for the id and the member
  -- id too, although the gateway's request leaves them out, and serial ids are positive. The answer is
  -- 400 for an empty email, and 404 with an empty message for any other.
  pub gateway_find_by_email-find_refusal :
      (client : MemberServiceClient (Stores D S)) (uc : MemberUseCase D S) (email : String)
      (s : Stores D S)
      → ((p : FindMemberParam) → Carried (client.find_member p s) (handle_find_member uc p s, s))
      → uc.member_repo ≡ member_repository db
      → IsSerial (rows s.db)
      → gateway_find_by_email client email s ≡ (find_refusal email, s)
  unfolding gateway_find_by_email
  gateway_find_by_email-find_refusal client uc email s carried is positive =
      let (e, nobody) = handle_find_member-by_email_only db rows table uc email s is positive in
      let (m, got) = rw nobody at (carried (by_email_only email)) in
      elim (Bool-cases (email == "")) [
        | inl empty ↦ rw empty refl
        | inr given ↦ rw given (rw got refl)
      ]

-- ===== src/Chat/Repository/Invitation.antt =====
-- internal/chat/repository/invitation_repository.go
use streaming_video_service.Prelude.{String, Bool, ◌&&◌, ◌==◌, Option, List}
use streaming_video_service.Golang.{Error, Result}
use streaming_video_service.Mongo.{Collection}
use streaming_video_service.Chat.Domain.{PrivateChatInvitation}
use streaming_video_service.Chat.Repository.Room.{decoded}

-- `InvitationRepository`
pub record InvitationRepository (I : Type 0) : Type 0 where
  pub create_invitation : PrivateChatInvitation → I → Option Error × I
  pub find_invitation_by_id : String → String → I → Result (Option PrivateChatInvitation)
  pub find_invitation_by_pending : String → I → Result (List PrivateChatInvitation)
  pub update_invitation_status : String → String → String → I → Option Error × I
  pub find_invitation_status : String → String → I → Result (Option PrivateChatInvitation)

-- The filter `{"inviter_id": inviter, "invitee_id": invitee}`.
abbrev pub between : String → String → PrivateChatInvitation → Bool
between inviter invitee inv = inv.inviter_id == inviter && inv.invitee_id == invitee

-- The filter `{"invitee_id": user, "status": "pending"}`.
abbrev pub pending_for : String → PrivateChatInvitation → Bool
pending_for user inv = inv.invitee_id == user && inv.status == "pending"

-- `{"$set": {"status": status}}`
abbrev pub set_status : String → PrivateChatInvitation → PrivateChatInvitation
set_status status inv = record inv { status = status }

-- `mongoInvitationRepository`
unfoldable pub mongo_invitation_repository :
    {I : Type 0} → Collection I PrivateChatInvitation → InvitationRepository I
mongo_invitation_repository c = record {
  create_invitation = λ inv i. c.insert_one inv i;
  find_invitation_by_id = λ inviter user i. decoded (c.find_one (between inviter user) i);
  find_invitation_by_pending = λ user i. c.find (pending_for user) i;
  update_invitation_status =
      λ inviter user status i. c.update_one (between inviter user) (set_status status) i;
  find_invitation_status = λ inviter invitee i. decoded (c.find_one (between inviter invitee) i);
}

-- ===== src/Chat/Domain.antt =====
-- internal/chat/domain: rooms, invitations, messages, and the websocket's requests and responses.
-- Times are seconds since 1970. The string types of the source stay strings, since a request may
-- carry any text there.
use streaming_video_service.Prelude.{ℕ, String, Bool, List}

-- domain.ChatRoomType
abbrev pub chat_room_type_private : String
chat_room_type_private = "private"

abbrev pub chat_room_type_group : String
chat_room_type_group = "group"

-- domain.JoinMode
abbrev pub join_mode_open : String
join_mode_open = "open"

abbrev pub join_mode_password : String
join_mode_password = "password"

abbrev pub join_mode_approve : String
join_mode_approve = "approve"

-- domain.InvitationStatus
abbrev pub invitation_pending : String
invitation_pending = "pending"

abbrev pub invitation_accepted : String
invitation_accepted = "accepted"

abbrev pub invitation_rejected : String
invitation_rejected = "rejected"

pub record ChatRoom : Type 0 where
  pub id : String
  pub room_type : String
  pub name : String
  pub members : List String
  pub admins : List String
  pub join_mode : String
  pub password : String
  pub is_private : Bool
  pub is_invite : Bool
  pub created_at : ℕ

pub record PrivateChatInvitation : Type 0 where
  pub id : String
  pub inviter_id : String
  pub invitee_id : String
  pub status : String
  pub created_at : ℕ

pub record ChatMessage : Type 0 where
  pub id : String
  pub sender_id : String
  pub content : String
  pub timestamp : ℕ
  pub read_by : List String

-- The messages of one room on one day.
pub record MessageBucket : Type 0 where
  pub room_id : String
  pub date : String
  pub messages : List ChatMessage

pub record RoomUnreadInfo : Type 0 where
  pub room_id : String
  pub unread_count : ℕ
  pub last_unread_timestamp : ℕ

-- ===== src/Chat/Frames.antt =====
-- The requests and responses of the websocket: internal/chat/domain/websocket.go, and how
-- internal/chat/app/websocket_handler.go fills a response.
use streaming_video_service.Prelude.{
  ℕ, String, Bool, true, false, ◌==◌, Option, none, some, List, [], ◌∷◌, if◌then◌else◌,
}
use streaming_video_service.Golang.{Error, Result, ok, err}
use streaming_video_service.Chat.Domain.{
  PrivateChatInvitation, ChatMessage, MessageBucket, RoomUnreadInfo,
}

-- `WSRequest`
pub record WsRequest : Type 0 where
  pub action : String
  pub room_type : String
  pub room_name : String
  pub members : List String
  pub join_mode : String
  pub password : String
  pub room_id : String
  pub inviter_id : String
  pub invitee_id : String
  pub content : String
  pub message_id : String
  pub is_private : Bool

-- The values of a payload.
pub data Value : Type 0 where
  text : String → Value
  count : ℕ → Value
  bucket : MessageBucket → Value
  messages : List ChatMessage → Value
  null : Value

-- A map of the source: setting a key replaces its value.
abbrev pub Payload : Type 0
Payload = List (String × Value)

abbrev pub set_key : String → Value → Payload → Payload
set_key key v [] = (key, v) ∷ []
set_key key v ((k, w) ∷ rest) = if k == key then (key, v) ∷ rest else (k, w) ∷ set_key key v rest

-- `WSResponse`
pub record WsResponse : Type 0 where
  pub action : String
  pub success : Bool
  pub payload : Payload
  pub error : String

-- The response of a request before its action.
abbrev pub start : WsRequest → WsResponse
start req = record { action = req.action; success = false; payload = []; error = "" }

-- The response to an action that gives only an error,
abbrev pub answer : WsRequest → Option Error → WsResponse
answer req none = record (start req) { success = true }
answer req (some e) = record (start req) { error = e }

-- and to one that gives an id.
abbrev pub answer_id : String → WsRequest → Result String → WsResponse
answer_id key req (ok id) = record (start req) { success = true; payload = (key, text id) ∷ [] }
answer_id key req (err e) = record (start req) { error = e }

-- The loop of the action `get_unread`.
abbrev pub unread_payload : List RoomUnreadInfo → Payload → Payload
unread_payload [] p = p
unread_payload (u ∷ us) p = unread_payload us (set_key u.room_id (count u.unread_count) p)

abbrev pub answer_unread : WsRequest → Result (List RoomUnreadInfo) → WsResponse
answer_unread req (ok us) = record (start req) { success = true; payload = unread_payload us [] }
answer_unread req (err e) = record (start req) { error = e }

-- The loop of the action `get_invite`.
abbrev pub invite_payload : List PrivateChatInvitation → Payload → Payload
invite_payload [] p = p
invite_payload (i ∷ is) p = invite_payload is (set_key i.inviter_id (count i.created_at) p)

abbrev pub answer_invite : WsRequest → Result (List PrivateChatInvitation) → WsResponse
answer_invite req (ok is) = record (start req) { payload = invite_payload is [] }
answer_invite req (err e) = record (start req) { error = e }

-- The response of `enter_room` when there is no unread bucket, by the messages before now.
abbrev pub answer_read : WsResponse → Result (List ChatMessage) → WsResponse
answer_read resp (ok ms) = record resp {
  payload = ("unread_messages", text "") ∷ ("read_messages", messages ms) ∷ [];
}
answer_read resp (err e) = record resp {
  success = false;
  payload = ("unread_messages", text "") ∷ ("read_messages", null) ∷ [];
  error = e;
}

-- The response of `enter_room`.
abbrev pub answer_enter :
    WsRequest → Result (Option MessageBucket) → Result (List ChatMessage) → WsResponse
answer_enter req (ok (some b)) before = record (start req) {
  success = true;
  payload = ("unread_messages", bucket b) ∷ [];
}
answer_enter req (ok none) before = answer_read (record (start req) { success = true }) before
answer_enter req (err e) before = answer_read (record (start req) { error = e }) before

-- `sendError`
abbrev pub error_response : String → WsResponse
error_response msg = record {
  action = "error";
  success = false;
  payload = ("error", text msg) ∷ [];
  error = "";
}

-- ===== src/Chat/Websocket.antt =====
-- internal/chat/app/websocket_handler.go and internal/chat/domain/websocket.go. `uuid.New`, the clock
-- and the day of a request are the record `Env`; the JSON of a request is a parameter. A subscription
-- is known by its place among all that were made, and a cancel function by its subscription. The
-- pings of a connection are left out.
pub mod Actions
pub mod Enter
pub mod Panics
pub mod Notices
use streaming_video_service.Prelude.{
  ℕ, ◌+◌, String, Bool, true, false, ◌==◌, Option, none, some, List, [], ◌∷◌, ◌++◌, length, nat_beq,
  if◌then◌else◌,
}
use streaming_video_service.Golang.{Error, Result, ok, err, Outcome, returned, panicked}
use streaming_video_service.Chat.Domain.{
  PrivateChatInvitation, ChatMessage, MessageBucket, RoomUnreadInfo,
}
use streaming_video_service.Chat.Frames.{
  WsRequest, Value, text, Payload, WsResponse, start, answer, answer_id, answer_unread,
  answer_invite, answer_enter, error_response,
}
use streaming_video_service.Chat.Channels.{user_channel, room_channel}
use streaming_video_service.Chat.Repository.Invitation.{InvitationRepository}
use streaming_video_service.Chat.Repository.Message.{MessageRepository}
use streaming_video_service.Chat.RoomUseCase.{
  Stores as RoomStores, RoomUseCase, execute_room, join_room, exit_room, execute_invite,
  execute_accept,
}
use streaming_video_service.Chat.MessageUseCase.{
  Stores as MessageStores, SendMessageUseCase, execute, mark_read, get_count_unread_messages,
}

-- What one request takes from its surroundings.
pub record Env : Type 0 where
  pub fresh : String
  pub now : ℕ
  pub today : String

-- The handler's field `roomCtx`, the databases, and what has been done: the channels subscribed to,
-- the subscriptions cancelled, and the frames written, each with its connection.
pub record Hub (R I M P : Type 0) : Type 0 where
  pub rooms : R
  pub invitations : I
  pub messages : M
  pub pub_sub : P
  pub room_ctx : Option ℕ
  pub subscribed : List String
  pub cancelled : List ℕ
  pub frames : List (ℕ × WsResponse)

-- `ChatWebsocketHandler`
pub record ChatWebsocketHandler (R I M P : Type 0) : Type 0 where
  pub room_uc : RoomUseCase R I
  pub message_uc : SendMessageUseCase R M P

module _ {R I M P : Type 0} where
  abbrev pub room_stores : Hub R I M P → RoomStores R I
  room_stores hub = record { rooms = hub.rooms; invitations = hub.invitations }

  abbrev pub message_stores : Hub R I M P → MessageStores R M P
  message_stores hub = record { rooms = hub.rooms; messages = hub.messages; pub_sub = hub.pub_sub }

  abbrev pub set_rooms : Hub R I M P → RoomStores R I → Hub R I M P
  set_rooms hub s = record hub { rooms = s.rooms; invitations = s.invitations }

  abbrev pub set_messages : Hub R I M P → MessageStores R M P → Hub R I M P
  set_messages hub s = record hub { rooms = s.rooms; messages = s.messages; pub_sub = s.pub_sub }

  -- `Subscribe`, and what its context's cancel function leaves.
  abbrev pub subscribe : String → Hub R I M P → Hub R I M P
  subscribe channel hub = record hub { subscribed = hub.subscribed ++ channel ∷ [] }

  abbrev pub cancel : ℕ → Hub R I M P → Hub R I M P
  cancel n hub = record hub { cancelled = hub.cancelled ++ n ∷ [] }

  -- `sendResponse`
  abbrev pub send : ℕ → WsResponse → Hub R I M P → Hub R I M P
  send conn resp hub = record hub { frames = hub.frames ++ (conn, resp) ∷ [] }

  -- The actions of the room use case: the response, and the hub that is left.
  abbrev pub answered :
      (WsResponse × RoomStores R I) → Hub R I M P → Outcome (WsResponse × Hub R I M P)
  answered (resp, s) hub = returned (resp, set_rooms hub s)

  abbrev pub executed :
      WsRequest
      → Outcome (Result String × MessageStores R M P)
      → Hub R I M P
      → Outcome (WsResponse × Hub R I M P)
  executed req panicked hub = panicked
  executed req (returned (r, s)) hub = returned (answer_id "message_id" req r, set_messages hub s)

  -- `leave_room`: the function in `roomCtx` is called, and a nil function panics.
  abbrev pub leave : WsRequest → Option ℕ → Hub R I M P → Outcome (WsResponse × Hub R I M P)
  leave req none hub = panicked
  leave req (some n) hub = returned (
    record (start req) { success = true; payload = ("leave_room", text req.room_id) ∷ [] },
    cancel n hub,
  )

  -- `enter_room`: the response, the cancel function, and the subscription.
  abbrev pub enter : WsRequest → WsResponse → Hub R I M P → Outcome (WsResponse × Hub R I M P)
  enter req resp hub = returned (
    resp,
    subscribe (room_channel req.room_id) (record hub { room_ctx = some (length hub.subscribed) }),
  )

module _ {R I M P : Type 0} (h : ChatWebsocketHandler R I M P) where
  -- The switch of `textMessageAction`: the response and the hub, before the response is sent.
  unfoldable pub act :
      ℕ → String → WsRequest → Env → Hub R I M P → Outcome (WsResponse × Hub R I M P)
  act conn member req env hub =
      let uc = h.room_uc in
      let mc = h.message_uc in
      let rs = room_stores hub in
      let ms = message_stores hub in
      if req.action == "invite_private"
      then (let (r, s) = execute_invite uc member req.invitee_id env.fresh env.now rs in
          answered (answer_id "invitation_id" req r, s) hub)
      else if req.action == "accept_invite"
      then (let (r, s) = execute_accept uc req.inviter_id member env.fresh env.now rs in
          answered (answer_id "room_id" req r, s) hub)
      else if req.action == "create_room"
      then (let (r, s) =
            execute_room uc req.room_type req.room_name (member ∷ []) req.join_mode req.password
              req.is_private false env.fresh env.now rs in
          answered (answer_id "room_id" req r, s) hub)
      else if req.action == "join_room"
      then (let (e, s) = join_room uc req.room_id member req.password rs in
          answered (answer req e, s) hub)
      else if req.action == "exit_room"
      then (let (e, s) = exit_room uc req.room_id member rs in answered (answer req e, s) hub)
      else if req.action == "enter_room"
      then enter req
          (answer_enter req (mc.msg_repo.find_earliest_unread member req.room_id hub.messages)
            (mc.msg_repo.find_messages_before req.room_id env.now hub.messages))
          hub
      else if req.action == "leave_room"
      then leave req hub.room_ctx hub
      else if req.action == "send_message"
      then executed req (execute mc req.room_id member req.content env.today env.fresh env.now ms)
          hub
      else if req.action == "read_message"
      then (let (e, s) = mark_read mc req.room_id req.message_id member env.today ms in
          returned (answer req e, set_messages hub s))
      else if req.action == "get_unread"
      then returned (answer_unread req (get_count_unread_messages mc member ms), hub)
      else if req.action == "get_invite"
      then returned
          (answer_invite req (uc.inv_repo.find_invitation_by_pending member hub.invitations), hub)
      else returned (start req, send conn (error_response "unknown message types ") hub)

  reply : ℕ → Outcome (WsResponse × Hub R I M P) → Outcome (Hub R I M P)
  reply conn panicked = panicked
  reply conn (returned (resp, hub)) = returned (send conn resp hub)

  -- `textMessageAction`, by the parsed message: one that is no request is logged only.
  unfoldable pub text_message_action :
      ℕ → String → Result WsRequest → Env → Hub R I M P → Outcome (Hub R I M P)
  unfolding act reply
  text_message_action conn member (err e) env hub = returned hub
  text_message_action conn member (ok req) env hub = reply conn (act conn member req env hub)

  -- `execWebsocketAction`: 1 is `websocket.TextMessage`.
  unfoldable pub exec_websocket_action :
      ℕ → String → ℕ → Result WsRequest → Env → Hub R I M P → Outcome (Hub R I M P)
  unfolding text_message_action
  exec_websocket_action conn member mt msg env hub =
      if nat_beq mt 1
      then text_message_action conn member msg env hub
      else returned (send conn (error_response "unknown action") hub)

  -- The loop of `HandleConnection` over the messages of a connection until a read fails.
  unfoldable pub read_loop :
      ℕ → String → List (ℕ × Result WsRequest × Env) → Outcome (Hub R I M P) → Outcome (Hub R I M P)
  unfolding exec_websocket_action
  read_loop conn member inbox panicked = panicked
  read_loop conn member [] (returned hub) = returned hub
  read_loop conn member ((mt, msg, env) ∷ inbox) (returned hub) =
      read_loop conn member inbox (exec_websocket_action conn member mt msg env hub)

  closed : ℕ → Outcome (Hub R I M P) → Outcome (Hub R I M P)
  closed n panicked = panicked
  closed n (returned hub) = returned (cancel n hub)

  -- `HandleConnection`: the member's own channel is subscribed to until the connection ends.
  unfoldable pub handle_connection :
      ℕ → String → List (ℕ × Result WsRequest × Env) → Hub R I M P → Outcome (Hub R I M P)
  unfolding read_loop closed
  handle_connection conn member inbox hub =
      closed (length hub.subscribed)
        (read_loop conn member inbox (returned (subscribe (user_channel member) hub)))

-- ===== src/Chat/Websocket/Enter.antt =====
-- The cancel function `roomCtx` of internal/chat/app/websocket_handler.go: cmd/chat_service/main.go
-- makes one handler for all connections.
use streaming_video_service.Prelude.{
  ℕ, ◌+◌, String, ◌≡◌, refl, true, some, [], ◌∷◌, ◌++◌, length, length-append, append_assoc,
}
use streaming_video_service.Golang.{ok, returned}
use streaming_video_service.Chat.Channels.{room_channel}
use streaming_video_service.Chat.Frames.{WsRequest, text, start}
use streaming_video_service.Chat.Websocket.{
  Env, Hub, ChatWebsocketHandler, send, cancel, act, reply, text_message_action,
}

abbrev pub entering : WsRequest → WsRequest
entering req = record req { action = "enter_room" }

abbrev pub leaving : WsRequest → WsRequest
leaving req = record req { action = "leave_room" }

module _ {R I M P : Type 0} (h : ChatWebsocketHandler R I M P) where
  entered :
      (conn : ℕ) (member : String) (req : WsRequest) (env : Env) (hub : Hub R I M P)
      → (hub' : Hub R I M P) × (text_message_action h conn member (ok (entering req)) env hub
          ≡ returned hub')
        × (hub'.subscribed ≡ hub.subscribed ++ room_channel req.room_id ∷ [])
        × (hub'.cancelled ≡ hub.cancelled)
        × (hub'.room_ctx ≡ some (length hub.subscribed))
  unfolding text_message_action act reply
  entered conn member req env hub = (_, refl, refl, refl, refl)

  left_room :
      (conn n : ℕ) (member : String) (req : WsRequest) (env : Env) (hub : Hub R I M P)
      → hub.room_ctx ≡ some n
      → (hub' : Hub R I M P) × (text_message_action h conn member (ok (leaving req)) env hub
          ≡ returned hub')
        × (hub'.subscribed ≡ hub.subscribed)
        × (hub'.cancelled ≡ hub.cancelled ++ n ∷ [])
  unfolding text_message_action act reply
  left_room conn n member req env hub is = (
    send conn
        (record (start (leaving req)) {
          success = true;
          payload = ("leave_room", text req.room_id) ∷ [];
        })
        (cancel n hub),
    rw is refl,
    refl,
    refl,
  )

  -- When `a` enters a room on one connection, `b` enters one on another, and `a` leaves, then the
  -- subscription that is cancelled is the one of `b`, the last that was made; the one of `a` is not
  -- cancelled by this.
  pub text_message_action-cancelled :
      (c₁ c₂ : ℕ) (a b : String) (r₁ r₂ r₃ : WsRequest) (e₁ e₂ e₃ : Env) (hub : Hub R I M P)
      → (hub₁ : Hub R I M P) × (hub₂ : Hub R I M P) × (hub₃ : Hub R I M P) × (text_message_action h
            c₁ a
            (ok (entering r₁))
            e₁
            hub
          ≡ returned hub₁)
        × (text_message_action h c₂ b (ok (entering r₂)) e₂ hub₁ ≡ returned hub₂)
        × (text_message_action h c₁ a (ok (leaving r₃)) e₃ hub₂ ≡ returned hub₃)
        × (hub₃.subscribed
            ≡ hub.subscribed ++ room_channel r₁.room_id ∷ room_channel r₂.room_id ∷ [])
        × (hub₃.cancelled ≡ hub.cancelled ++ (length hub.subscribed + 1) ∷ [])
  text_message_action-cancelled c₁ c₂ a b r₁ r₂ r₃ e₁ e₂ e₃ hub =
      let (hub₁, enter₁, sub₁, can₁, _) = entered c₁ a r₁ e₁ hub in
      let (hub₂, enter₂, sub₂, can₂, ctx₂) = entered c₂ b r₂ e₂ hub₁ in
      let (hub₃, leave₃, sub₃, can₃) = left_room c₁ (length hub₁.subscribed) a r₃ e₃ hub₂ ctx₂ in
      let len : length hub₁.subscribed ≡ length hub.subscribed + 1 =
        rw sub₁ (length-append hub.subscribed (room_channel r₁.room_id ∷ [])) in
      (
        hub₁,
        hub₂,
        hub₃,
        enter₁,
        enter₂,
        leave₃,
        rw sub₃ (rw sub₂ (rw sub₁ (append_assoc hub.subscribed _ _))),
        rw can₃ (rw can₂ (rw can₁ (rw len refl))),
      )

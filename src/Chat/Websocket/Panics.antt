-- ===== src/Chat/Websocket/Panics.antt =====
-- When `textMessageAction` of internal/chat/app/websocket_handler.go panics, over MongoDB.
use streaming_video_service.Prelude.{
  ℕ, String, ◌≡◌, refl, ◌↔◌, ◌==◌, eq_iff, Option, none, some, List,
}
use streaming_video_service.Golang.{Result, ok, Outcome, returned, panicked}
use streaming_video_service.Mongo.{Collection}
use streaming_video_service.Chat.Domain.{ChatRoom, MessageBucket, RoomUnreadInfo}
use streaming_video_service.Chat.Repository.PubSub.{PubSubRepository}
use streaming_video_service.Chat.RoomUseCase.{RoomUseCase}
use streaming_video_service.Chat.MessageUseCase.{Stores as MessageStores}
use streaming_video_service.Chat.MessageUseCase.Returning.{Returns, execute-Returns}
use streaming_video_service.Chat.MessageUseCase.Marking.{over_mongo}
use streaming_video_service.Chat.Frames.{WsRequest, WsResponse}
use streaming_video_service.Chat.Websocket.{
  Env, Hub, ChatWebsocketHandler, message_stores, executed, leave, act, reply, text_message_action,
}
use streaming_video_service.Chat.Websocket.Actions.{if-holds}

module _ {R I M P : Type 0} (conn : ℕ) (req : WsRequest) (hub : Hub R I M P) where
  -- A panic has its reason.
  abbrev IsReasoned : Outcome (WsResponse × Hub R I M P) → Type 0
  IsReasoned o = o ≡ panicked → (req.action ≡ "leave_room") × (hub.room_ctx ≡ none)

  executed-IsReasoned :
      (o : Outcome (Result String × MessageStores R M P))
      → Returns o
      → IsReasoned (executed req o hub)
  executed-IsReasoned o ((r, s), is) = rw is (λ e. absurd (cc))

  leave-IsReasoned :
      (n : Option ℕ) → hub.room_ctx ≡ n → req.action ≡ "leave_room" → IsReasoned (leave req n hub)
  leave-IsReasoned none is here = λ e. (here, is)
  leave-IsReasoned (some n) is here = λ e. absurd (cc)

-- The handler over MongoDB.
abbrev pub over_mongo_handler :
    {R I M P : Type 0}
    → RoomUseCase R I
    → Collection R ChatRoom
    → Collection M MessageBucket
    → (ℕ → String)
    → (String → M → Result (List RoomUnreadInfo))
    → PubSubRepository P
    → ChatWebsocketHandler R I M P
over_mongo_handler room_uc rooms c day_of aggregate pub_sub = record {
  room_uc = room_uc;
  message_uc = over_mongo rooms c day_of aggregate pub_sub;
}

module _ {R I M P : Type 0} (room_uc : RoomUseCase R I) (rooms : Collection R ChatRoom)
    (c : Collection M MessageBucket) (day_of : ℕ → String)
    (aggregate : String → M → Result (List RoomUnreadInfo)) (pub_sub : PubSubRepository P)
    (conn : ℕ) (member : String) (req : WsRequest) (env : Env) (hub : Hub R I M P) where
  act-IsReasoned :
      IsReasoned conn req hub
        (act (over_mongo_handler room_uc rooms c day_of aggregate pub_sub) conn member req env hub)
  unfolding act
  act-IsReasoned =
      if-holds (IsReasoned conn req hub) (req.action == "invite_private") _ _ (λ _ e. absurd (cc))
        (λ _.
          if-holds (IsReasoned conn req hub) (req.action == "accept_invite") _ _
            (λ _ e. absurd (cc))
            (λ _.
              if-holds (IsReasoned conn req hub) (req.action == "create_room") _ _
                (λ _ e. absurd (cc))
                (λ _.
                  if-holds (IsReasoned conn req hub) (req.action == "join_room") _ _
                    (λ _ e. absurd (cc))
                    (λ _.
                      if-holds (IsReasoned conn req hub) (req.action == "exit_room") _ _
                        (λ _ e. absurd (cc))
                        (λ _.
                          if-holds (IsReasoned conn req hub) (req.action == "enter_room") _ _
                            (λ _ e. absurd (cc))
                            (λ _.
                              if-holds (IsReasoned conn req hub) (req.action == "leave_room") _ _
                                (λ is.
                                  leave-IsReasoned conn req hub hub.room_ctx refl
                                    ((eq_iff req.action "leave_room").0 is))
                                (λ _.
                                  if-holds (IsReasoned conn req hub) (req.action == "send_message")
                                    _ _
                                    (λ _. executed-IsReasoned conn req hub _ (
                                      execute-Returns rooms c day_of aggregate pub_sub req.room_id
                                        member req.content env.today env.fresh env.now
                                        (message_stores hub)))
                                    (λ _.
                                      if-holds (IsReasoned conn req hub)
                                        (req.action == "read_message") _ _ (λ _ e. absurd (cc))
                                        (λ _.
                                          if-holds (IsReasoned conn req hub)
                                            (req.action == "get_unread") _ _ (λ _ e. absurd (cc))
                                            (λ _.
                                              if-holds (IsReasoned conn req hub)
                                                (req.action == "get_invite") _ _
                                                (λ _ e. absurd (cc))
                                                (λ _. λ e. absurd (cc))))))))))))

  act-leave :
      req.action ≡ "leave_room"
      → hub.room_ctx ≡ none
      → act (over_mongo_handler room_uc rooms c day_of aggregate pub_sub) conn member req env hub
        ≡ panicked
  unfolding act
  act-leave here nil = rw here (rw nil refl)

  reply-panicked :
      (o : Outcome (WsResponse × Hub R I M P))
      → reply (over_mongo_handler room_uc rooms c day_of aggregate pub_sub) conn o ≡ panicked
      → o ≡ panicked
  unfolding reply
  reply-panicked panicked e = refl
  reply-panicked (returned (resp, left_in)) e = absurd (cc)

  -- Over MongoDB, a request that is read makes the handler panic exactly when it leaves a room while
  -- the handler has no cancel function, as before any `enter_room` on any connection.
  pub text_message_action-panicked :
      (text_message_action
          (over_mongo_handler room_uc rooms c day_of aggregate pub_sub)
          conn
          member
          (ok req)
          env
          hub
        ≡ panicked)
      ↔ ((req.action ≡ "leave_room") × (hub.room_ctx ≡ none))
  unfolding text_message_action reply
  text_message_action-panicked =
      let h = over_mongo_handler room_uc rooms c day_of aggregate pub_sub in
      (
        λ e. act-IsReasoned (reply-panicked (act h conn member req env hub) e),
        λ (here, nil). rw (act-leave here nil) refl,
      )

-- ===== src/Chat/MessageUseCase/Returning.antt =====
-- `Execute` of internal/chat/app/message_usecase.go over the MongoDB repositories.
use streaming_video_service.Prelude.{
  ℕ, String, ◌≡◌, refl, Option, none, some, List, [], ◌∷◌, ◌++◌, inl, inr,
}
use streaming_video_service.Golang.{Error, Result, err, Outcome, returned, Result-cases}
use streaming_video_service.Mongo.{Collection}
use streaming_video_service.Chat.Domain.{ChatRoom, ChatMessage, MessageBucket, RoomUnreadInfo}
use streaming_video_service.Chat.Repository.Room.{has_id, mongo_room_repository}
use streaming_video_service.Chat.Repository.Message.{of_day, mongo_chat_message_repository}
use streaming_video_service.Chat.Repository.PubSub.{PubSubRepository}
use streaming_video_service.Chat.MessageUseCase.{
  Stores, SendMessageUseCase, new_message, execute, after_save, save_message,
}
use streaming_video_service.Chat.MessageUseCase.Marking.{over_mongo}

-- A call that comes back.
abbrev pub Returns : {A : Type 0} → Outcome A → Type 0
Returns o = (a : _) × (o ≡ returned a)

after_save-Returns :
    {R M P : Type 0} (uc : SendMessageUseCase R M P) (room : ChatRoom) (msg : ChatMessage)
    (s : Stores R M P) (r : Option Error × M)
    → Returns (after_save uc room msg s (returned r))
unfolding after_save
after_save-Returns uc room msg s (some e, m) = (_, refl)
after_save-Returns uc room msg s (none, m) = (_, refl)

module _ {R M P : Type 0} (rooms : Collection R ChatRoom) (c : Collection M MessageBucket)
    (day_of : ℕ → String) (aggregate : String → M → Result (List RoomUnreadInfo))
    (pub_sub : PubSubRepository P) where
  -- `FindBucket` over MongoDB gives a bucket or an error, so that no nil bucket is read.
  pub execute-Returns :
      (room_id sender content today fresh : String) (now : ℕ) (s : Stores R M P)
      → Returns (
          execute
            (over_mongo rooms c day_of aggregate pub_sub)
            room_id
            sender
            content
            today
            fresh
            now
            s)
  unfolding execute save_message mongo_room_repository mongo_chat_message_repository
  execute-Returns room_id sender content today fresh now s =
      let uc = over_mongo rooms c day_of aggregate pub_sub in
      let msg = new_message fresh sender content now in
      elim (Result-cases (rooms.find_one (has_id room_id) s.rooms)) [
        | inr (e, missing) ↦ ((err e, s), rw (missing, execute) refl)
        | inl (room, found) ↦ elim (Result-cases (c.find_one (of_day room_id today) s.messages)) [
          | inr (e, missing) ↦
              let (out, is) = after_save-Returns uc room msg s (
                uc.msg_repo.insert_messages
                  (record { room_id = room_id; date = today; messages = msg ∷ [] }) s.messages) in
              (out, rw (found, execute) (rw (missing, save_message) is))
          | inl (b, there) ↦
              let (out, is) = after_save-Returns uc room msg s (
                uc.msg_repo.update_bucket (record b { messages = b.messages ++ msg ∷ [] })
                  s.messages) in
              (out, rw (found, execute) (rw (there, save_message) is))
        ]
      ]

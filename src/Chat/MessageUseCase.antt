-- ===== src/Chat/MessageUseCase.antt =====
-- internal/chat/app/message_usecase.go. The day of the bucket, `today`, the clock, `now`, and
-- `uuid.New`, `fresh`, are arguments.
pub mod Deliver
pub mod Marking
pub mod Buckets
pub mod Returning
use streaming_video_service.Prelude.{
  ℕ, String, Bool, true, false, not, ◌==◌, Option, none, some, List, [], ◌∷◌, ◌++◌, if◌then◌else◌,
}
use streaming_video_service.Golang.{Error, Result, ok, err, Outcome, returned, panicked}
use streaming_video_service.Contains.{contains}
use streaming_video_service.Chat.Domain.{ChatRoom, ChatMessage, MessageBucket, RoomUnreadInfo}
use streaming_video_service.Chat.Repository.Room.{RoomRepository}
use streaming_video_service.Chat.Repository.Message.{MessageRepository}
use streaming_video_service.Chat.Repository.PubSub.{PubSubRepository}

-- What the use case reads and writes: rooms, buckets and the publisher.
pub record Stores (R M P : Type 0) : Type 0 where
  pub rooms : R
  pub messages : M
  pub pub_sub : P

pub record SendMessageUseCase (R M P : Type 0) : Type 0 where
  pub room_repo : RoomRepository R
  pub msg_repo : MessageRepository M
  pub member_pub_sub : PubSubRepository P

-- The message that `Execute` makes: its sender has read it.
abbrev pub new_message : String → String → String → ℕ → ChatMessage
new_message fresh sender content now = record {
  id = fresh;
  sender_id = sender;
  content = content;
  timestamp = now;
  read_by = sender ∷ [];
}

-- The loop of `MarkRead`: the first message with the id is marked and ends the loop. `none` is
-- `updated == false`.
unfoldable pub mark_first : String → String → List ChatMessage → Option (List ChatMessage)
mark_first message_id user [] = none
mark_first message_id user (msg ∷ rest) =
    if msg.id == message_id
    then (if not (contains msg.read_by user)
        then some (record msg { read_by = msg.read_by ++ user ∷ [] } ∷ rest)
        else none)
    else elim (mark_first message_id user rest) [ none ↦ none | some marked ↦ some (msg ∷ marked) ]

module _ {R M P : Type 0} (uc : SendMessageUseCase R M P) where
  -- The write half of `Execute`, by what `FindBucket` gave: a new bucket on an error, else the
  -- bucket with the message at its end. A nil bucket without an error is dereferenced.
  unfoldable pub save_message :
      String → String → ChatMessage → Result (Option MessageBucket) → M → Outcome (Option Error × M)
  save_message room_id today msg (err e) m = returned (
      uc.msg_repo.insert_messages (record { room_id = room_id; date = today; messages = msg ∷ [] })
        m)
  save_message room_id today msg (ok none) m = panicked
  save_message room_id today msg (ok (some bucket)) m =
      returned
        (uc.msg_repo.update_bucket (record bucket { messages = bucket.messages ++ msg ∷ [] }) m)

  -- The loop that publishes to every member but the sender; an error is logged only.
  unfoldable pub publish_all : String → ChatMessage → List String → P → P
  publish_all sender msg [] p = p
  publish_all sender msg (member ∷ members) p =
      publish_all sender msg members
        (if not (member == sender) then (uc.member_pub_sub.publish member msg p).1 else p)

  after_save :
      ChatRoom
      → ChatMessage
      → Stores R M P
      → Outcome (Option Error × M)
      → Outcome (Result String × Stores R M P)
  unfolding publish_all
  after_save room msg s panicked = panicked
  after_save room msg s (returned (some e, m)) = returned (err e, record s { messages = m })
  after_save room msg s (returned (none, m)) = returned (
    ok msg.id,
    record s { messages = m; pub_sub = publish_all msg.sender_id msg room.members s.pub_sub },
  )

  -- `Execute`
  unfoldable pub execute :
      String
      → String
      → String
      → String
      → String
      → ℕ
      → Stores R M P
      → Outcome (Result String × Stores R M P)
  unfolding save_message after_save
  execute room_id sender content today fresh now s =
      elim (uc.room_repo.find_by_id room_id s.rooms) [
        | err e ↦ returned (err e, s)
        | ok none ↦ returned (err "room not found", s)
        | ok (some room) ↦
            let msg = new_message fresh sender content now in
            after_save room msg s (
              save_message room_id today msg (uc.msg_repo.find_bucket room_id today s.messages)
                s.messages)
      ]

  -- `MarkRead` from the bucket that was found.
  mark_found : MessageBucket → String → String → Stores R M P → Option Error × Stores R M P
  mark_found bucket message_id user s = elim (mark_first message_id user bucket.messages) [
    | none ↦ (some "message not found or already marked", s)
    | some messages ↦
        let (e, m) = uc.msg_repo.update_bucket (record bucket { messages = messages }) s.messages in
        (e, record s { messages = m })
  ]

  -- `MarkRead`
  unfoldable pub mark_read :
      String → String → String → String → Stores R M P → Option Error × Stores R M P
  unfolding mark_found mark_first
  mark_read room_id message_id user today s =
      elim (uc.msg_repo.find_bucket room_id today s.messages) [
        | ok (some bucket) ↦ mark_found bucket message_id user s
        | _ ↦ (some "bucket not found", s)
      ]

  -- `GetCountUnreadMessages`
  unfoldable pub get_count_unread_messages : String → Stores R M P → Result (List RoomUnreadInfo)
  get_count_unread_messages user s = uc.msg_repo.count_unread_messages_by_room user s.messages

-- ===== src/Chat/Repository/Message.antt =====
-- internal/chat/repository/message_repository.go. The unread count is an aggregation that the
-- server runs, a parameter.
pub mod Write
pub mod Reading
use streaming_video_service.Prelude.{
  ℕ, String, Bool, true, false, ◌&&◌, ◌==◌, Option, none, some, List, [], ◌∷◌, if◌then◌else◌, not,
  ltb,
}
use streaming_video_service.Golang.{Error, Result, ok, err}
use streaming_video_service.Mongo.{Collection}
use streaming_video_service.Contains.{contains}
use streaming_video_service.Chat.Domain.{ChatMessage, MessageBucket, RoomUnreadInfo}
use streaming_video_service.Chat.Repository.Room.{decoded}

-- `MessageRepository`
pub record MessageRepository (M : Type 0) : Type 0 where
  pub insert_messages : MessageBucket → M → Option Error × M
  pub find_bucket : String → String → M → Result (Option MessageBucket)
  pub update_bucket : MessageBucket → M → Option Error × M
  pub find_earliest_unread : String → String → M → Result (Option MessageBucket)
  pub find_messages_before : String → ℕ → M → Result (List ChatMessage)
  pub count_unread_messages_by_room : String → M → Result (List RoomUnreadInfo)

-- The filter `{"room_id": room, "date": date}`.
abbrev pub of_day : String → String → MessageBucket → Bool
of_day room date bucket = bucket.room_id == room && bucket.date == date

-- `{"$set": bucket}`: no field of a bucket is marked `omitempty`.
abbrev pub set_bucket : MessageBucket → MessageBucket → MessageBucket
set_bucket new old = new

-- The inner loop of `FindEarliestUnread`: some message of the bucket is not read by the user.
unfoldable pub has_unread : String → List ChatMessage → Bool
has_unread user [] = false
has_unread user (msg ∷ messages) =
    if not (contains msg.read_by user) then true else has_unread user messages

-- Its outer loop: the first bucket with an unread message.
unfoldable pub first_unread : String → List MessageBucket → Option MessageBucket
first_unread user [] = none
first_unread user (bucket ∷ buckets) =
    if has_unread user bucket.messages then some bucket else first_unread user buckets

unfoldable pub find_earliest_unread_in :
    String → Result (List MessageBucket) → Result (Option MessageBucket)
find_earliest_unread_in user (ok buckets) = ok (first_unread user buckets)
find_earliest_unread_in user (err e) = err e

-- The loop of `FindMessagesBefore`.
unfoldable pub sent_before : ℕ → List ChatMessage → List ChatMessage
sent_before before [] = []
sent_before before (msg ∷ messages) =
    let rest = sent_before before messages in if ltb msg.timestamp before then msg ∷ rest else rest

unfoldable pub find_messages_before_in : ℕ → Result MessageBucket → Result (List ChatMessage)
find_messages_before_in before (ok bucket) = ok (sent_before before bucket.messages)
find_messages_before_in before (err e) = err e

-- `chatMessageRepository`. `day_of` is `time.Unix(t, 0).Format("2006-01-02")`.
unfoldable pub mongo_chat_message_repository :
    {M : Type 0}
    → Collection M MessageBucket
    → (ℕ → String)
    → (String → M → Result (List RoomUnreadInfo))
    → MessageRepository M
mongo_chat_message_repository c day_of aggregate = record {
  insert_messages = λ bucket m. c.insert_one bucket m;
  find_bucket = λ room date m. decoded (c.find_one (of_day room date) m);
  update_bucket =
      λ bucket m. c.update_one (of_day bucket.room_id bucket.date) (set_bucket bucket) m;
  find_earliest_unread = λ user room m.
      find_earliest_unread_in user
        (c.find_sorted (λ bucket. bucket.room_id == room) (λ bucket. bucket.date) m);
  find_messages_before =
      λ room before m. find_messages_before_in before (c.find_one (of_day room (day_of before)) m);
  count_unread_messages_by_room = aggregate;
}

-- ===== src/Chat/Repository/Message/Reading.antt =====
-- The loops of internal/chat/repository/message_repository.go over what MongoDB gives.
use streaming_video_service.Prelude.{
  ℕ, String, ◌≡◌, refl, sym, ◌∙◌, ◌==◌, ap, true, false, not, ◌++◌, ltb, Option, none, some, List,
  [], ◌∷◌, All, select, find?, arith, Bool-cases, inl, inr,
}
use streaming_video_service.Golang.{Result, ok, Result-cases}
use streaming_video_service.Contains.{contains}
use streaming_video_service.Mongo.{Collection, Documented}
use streaming_video_service.Chat.Domain.{ChatMessage, MessageBucket, RoomUnreadInfo}
use streaming_video_service.Chat.Repository.Message.{
  of_day, sent_before, has_unread, first_unread, find_messages_before_in, find_earliest_unread_in,
  mongo_chat_message_repository,
}

sent_before-select :
    (before : ℕ) (ms : List ChatMessage)
    → sent_before before ms ≡ select (λ (m : ChatMessage). ltb m.timestamp before) ms
unfolding sent_before
sent_before-select before [] = refl
sent_before-select before (m ∷ ms) = ground (arith, sent_before-select before ms)

-- Every message is read by the user.
abbrev pub IsRead : String → List ChatMessage → Type 0
IsRead user ms = All (λ (m : ChatMessage). contains m.read_by user ≡ true) ms

has_unread-IsRead :
    (user : String) (ms : List ChatMessage) → has_unread user ms ≡ false → IsRead user ms
unfolding has_unread
has_unread-IsRead user [] e = tt
has_unread-IsRead user (m ∷ ms) e = elim (Bool-cases (contains m.read_by user)) [
  | inl yes_ ↦ (yes_, has_unread-IsRead user ms (ground (arith, yes_, e)))
  | inr no_ ↦ absurd (ground (arith, no_, e))
]

has_unread-find :
    (user : String) (ms : List ChatMessage)
    → has_unread user ms ≡ true
    → (m : ChatMessage) × (find? (λ (x : ChatMessage). not (contains x.read_by user)) ms ≡ some m)
unfolding has_unread
has_unread-find user [] e = absurd (cc)
has_unread-find user (m ∷ ms) e = elim (Bool-cases (contains m.read_by user)) [
  | inr no_ ↦ (m, ground (arith, no_))
  | inl yes_ ↦
      let (x, deeper) = has_unread-find user ms (ground (arith, yes_, e)) in
      (x, ground (arith, yes_, deeper))
]

-- What the loops of `FindEarliestUnread` find among the buckets of a room, oldest day first: a bucket
-- with a message that the user has not read, after buckets in which every message is read; or
-- nothing, and every message of every bucket is read.
abbrev pub IsEarliest : String → List MessageBucket → Option MessageBucket → Type 0
IsEarliest user bs none = All (λ (b : MessageBucket). IsRead user b.messages) bs
IsEarliest user bs (some b) =
    (before : List MessageBucket) × (after : List MessageBucket) × (bs ≡ before ++ b ∷ after)
    × All (λ (x : MessageBucket). IsRead user x.messages) before
    × ((m : ChatMessage) × (find? (λ (x : ChatMessage). not (contains x.read_by user)) b.messages
          ≡ some m))

later :
    (user : String) (b : MessageBucket) (bs : List MessageBucket) (found : Option MessageBucket)
    → IsRead user b.messages
    → IsEarliest user bs found
    → IsEarliest user (b ∷ bs) found
later user b bs none done rest = (done, rest)
later user b bs (some x) done (before, after, is, clean, unread) =
    (b ∷ before, after, ap (λ (l : List MessageBucket). b ∷ l) is, (done, clean), unread)

pub first_unread-IsEarliest :
    (user : String) (bs : List MessageBucket) → IsEarliest user bs (first_unread user bs)
unfolding first_unread
first_unread-IsEarliest user [] = tt
first_unread-IsEarliest user (b ∷ bs) = elim (Bool-cases (has_unread user b.messages)) [
  | inl here ↦ rw here ([], bs, refl, tt, has_unread-find user b.messages here)
  | inr clean ↦ rw clean (
      later user b bs (first_unread user bs) (has_unread-IsRead user b.messages clean)
        (first_unread-IsEarliest user bs))
]

module _ {M : Type 0} (c : Collection M MessageBucket) (day_of : ℕ → String)
    (aggregate : String → M → Result (List RoomUnreadInfo)) where
  -- When `FindEarliestUnread` gives no error, then MongoDB gave the room's buckets by date, and the
  -- result is the first of them with a message that the user has not read; or nothing, and every
  -- message of every bucket is read.
  pub find_earliest_unread-IsEarliest :
      (user room : String) (m : M) (answer : Option MessageBucket)
      → (mongo_chat_message_repository c day_of aggregate).find_earliest_unread user room m
        ≡ ok answer
      → (bs : List MessageBucket) × (c.find_sorted (λ b. b.room_id == room) (λ b. b.date) m ≡ ok bs)
        × IsEarliest user bs answer
  unfolding mongo_chat_message_repository find_earliest_unread_in
  find_earliest_unread-IsEarliest user room m answer e =
      elim (Result-cases (c.find_sorted (λ b. b.room_id == room) (λ b. b.date) m)) [
        | inr (x, failed) ↦ absurd (ground (arith, failed, e))
        | inl (bs, given) ↦
            let is : first_unread user bs ≡ answer = ground (arith, given, e) in
            (bs, given, rw (sym is) (first_unread-IsEarliest user bs))
      ]

  -- When `FindMessagesBefore` gives no error, the room had a bucket of the time's day, and the result
  -- lists the messages of it that were sent before the time, in their order.
  pub find_messages_before-select :
      (docs : M → List MessageBucket) (laws : Documented c docs) (room : String) (before : ℕ)
      (m : M) (answer : List ChatMessage)
      → (mongo_chat_message_repository c day_of aggregate).find_messages_before room before m
        ≡ ok answer
      → (b : MessageBucket) × (find? (of_day room (day_of before)) (docs m) ≡ some b)
        × (answer ≡ select (λ (x : ChatMessage). ltb x.timestamp before) b.messages)
  unfolding mongo_chat_message_repository find_messages_before_in
  find_messages_before-select docs laws room before m answer e =
      elim (Result-cases (c.find_one (of_day room (day_of before)) m)) [
        | inr (x, failed) ↦ absurd (ground (arith, failed, e))
        | inl (b, given) ↦
            let is : sent_before before b.messages ≡ answer = ground (arith, given, e) in
            (
              b,
              laws.find_one-eq (of_day room (day_of before)) m b given,
              sym is ∙ sent_before-select before b.messages,
            )
      ]

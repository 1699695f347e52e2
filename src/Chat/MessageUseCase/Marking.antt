-- ===== src/Chat/MessageUseCase/Marking.antt =====
-- `MarkRead` over the MongoDB repository.
use streaming_video_service.Prelude.{
  ℕ, suc, String, ◌≡◌, refl, sym, ◌∙◌, ◌≢◌, ◌⊎◌, true, false, ◌==◌, ==_of_ne, none, some,
  Option-cases, eq_of_some, List, [], ◌∷◌, ◌++◌, arith, find?, inl, inr, Bool-cases, if◌then◌else◌,
}
use streaming_video_service.Golang.{Error, Result, ok, err, Result-cases}
use streaming_video_service.Contains.{contains}
use streaming_video_service.Contains.Laws.{contains-append_self, contains-append_ne}
use streaming_video_service.Mongo.{Collection, Documented}
use streaming_video_service.Chat.Domain.{ChatRoom, ChatMessage, MessageBucket, RoomUnreadInfo}
use streaming_video_service.Chat.Repository.Room.{mongo_room_repository}
use streaming_video_service.Chat.Repository.Message.{
  of_day, set_bucket, mongo_chat_message_repository,
}
use streaming_video_service.Chat.Repository.Message.Write.{update_bucket-find}
use streaming_video_service.Chat.Repository.PubSub.{PubSubRepository}
use streaming_video_service.Chat.MessageUseCase.{
  Stores, SendMessageUseCase, mark_first, mark_found, mark_read,
}

-- How many of the messages a user has not read.
abbrev pub unread : String → List ChatMessage → ℕ
unread user [] = 0
unread user (msg ∷ rest) =
    if contains msg.read_by user then unread user rest else suc (unread user rest)

-- The message with the user among its readers.
abbrev read_too : String → ChatMessage → ChatMessage
read_too user msg = record msg { read_by = msg.read_by ++ user ∷ [] }

module _ (message_id user : String) where
  -- What a step of the loop that marks a message has done.
  Marks : ChatMessage → List ChatMessage → List ChatMessage → Type 0
  Marks msg rest marked =
      (((msg.id == message_id) ≡ true)
        × (contains msg.read_by user ≡ false)
        × (marked ≡ read_too user msg ∷ rest))
      ⊎ ((more : List ChatMessage) × ((msg.id == message_id) ≡ false)
          × (mark_first message_id user rest ≡ some more)
          × (marked ≡ msg ∷ more))

  mark_first-Marks :
      (msg : ChatMessage) (rest marked : List ChatMessage)
      → mark_first message_id user (msg ∷ rest) ≡ some marked
      → Marks msg rest marked
  unfolding mark_first Marks
  mark_first-Marks msg rest marked e = elim (Bool-cases (msg.id == message_id)) [
    | inl hit ↦ inl (hit, ground (arith, hit, e), ground (arith, hit, e))
    | inr miss ↦ elim (Option-cases (mark_first message_id user rest)) [
      | inl nothing ↦ absurd (ground (arith, miss, nothing, e))
      | inr (more, deeper) ↦ inr (more, miss, deeper, ground (arith, miss, deeper, e))
    ]
  ]

  -- One message less is unread for the user,
  mark_first-unread :
      (msgs marked : List ChatMessage)
      → mark_first message_id user msgs ≡ some marked
      → suc (unread user marked) ≡ unread user msgs
  unfolding Marks
  mark_first-unread [] marked e = absurd (unfold mark_first in cc)
  mark_first-unread (msg ∷ rest) marked e = elim (mark_first-Marks msg rest marked e) [
    | inl (hit, new, is) ↦ rw is (ground (arith, new, contains-append_self msg.read_by user))
    | inr (more, miss, deeper, is) ↦ rw is (ground (arith, mark_first-unread rest more deeper))
  ]

  -- and as many as before for anyone else.
  mark_first-unread_ne :
      (other : String) (msgs marked : List ChatMessage)
      → user ≢ other
      → mark_first message_id user msgs ≡ some marked
      → unread other marked ≡ unread other msgs
  unfolding Marks
  mark_first-unread_ne other [] marked ne e = absurd (unfold mark_first in cc)
  mark_first-unread_ne other (msg ∷ rest) marked ne e = elim (mark_first-Marks msg rest marked e) [
    | inl (hit, new, is) ↦
        rw is (ground (arith, contains-append_ne msg.read_by user other (==_of_ne user other ne)))
    | inr (more, miss, deeper, is) ↦
        rw is (ground (arith, mark_first-unread_ne other rest more ne deeper))
  ]

  -- The same message cannot be marked again.
  mark_first_again :
      (msgs marked : List ChatMessage)
      → mark_first message_id user msgs ≡ some marked
      → mark_first message_id user marked ≡ none
  unfolding mark_first Marks
  mark_first_again [] marked e = cc
  mark_first_again (msg ∷ rest) marked e = elim (mark_first-Marks msg rest marked e) [
    | inl (hit, new, is) ↦ rw is (ground (arith, hit, contains-append_self msg.read_by user))
    | inr (more, miss, deeper, is) ↦ rw is (ground (arith, miss, mark_first_again rest more deeper))
  ]

-- The use case over MongoDB.
abbrev pub over_mongo :
    {R M P : Type 0}
    → Collection R ChatRoom
    → Collection M MessageBucket
    → (ℕ → String)
    → (String → M → Result (List RoomUnreadInfo))
    → PubSubRepository P
    → SendMessageUseCase R M P
over_mongo rooms buckets day_of aggregate pub_sub = record {
  room_repo = mongo_room_repository rooms;
  msg_repo = mongo_chat_message_repository buckets day_of aggregate;
  member_pub_sub = pub_sub;
}

module _ {R M P : Type 0} (rooms : Collection R ChatRoom) (c : Collection M MessageBucket)
    (day_of : ℕ → String) (aggregate : String → M → Result (List RoomUnreadInfo))
    (pub_sub : PubSubRepository P) where
  mark_read-inv :
      (room_id message_id user today : String) (s : Stores R M P)
      → (mark_read (over_mongo rooms c day_of aggregate pub_sub) room_id message_id user today s).0
        ≡ none
      → (bucket : MessageBucket) × (marked : List ChatMessage) × (c.find_one
            (of_day room_id today)
            s.messages
          ≡ ok bucket)
        × (mark_first message_id user bucket.messages ≡ some marked)
        × ((mark_read
              (over_mongo rooms c day_of aggregate pub_sub)
              room_id
              message_id
              user
              today
              s).1.messages
            ≡ (c.update_one
                (of_day bucket.room_id bucket.date)
                (set_bucket (record bucket { messages = marked }))
                s.messages).1)
        × ((c.update_one
              (of_day bucket.room_id bucket.date)
              (set_bucket (record bucket { messages = marked }))
              s.messages).0
            ≡ none)
  unfolding mark_read mark_found mongo_chat_message_repository
  mark_read-inv room_id message_id user today s done =
      elim (Result-cases (c.find_one (of_day room_id today) s.messages)) [
        | inr (e, missing) ↦ absurd (ground (arith, missing))
        | inl (bucket, found) ↦ elim (Option-cases (mark_first message_id user bucket.messages)) [
          | inl nothing ↦ absurd (ground (arith, found, nothing))
          | inr (marked, e) ↦ (
            bucket,
            marked,
            found,
            e,
            rw (found, mark_read) (rw (e, mark_found) refl),
            rw (e, mark_found) at (rw (found, mark_read) at done),
          )
        ]
      ]

  mark_read_refused :
      (room_id message_id user today : String) (s : Stores R M P) (bucket : MessageBucket)
      → mark_first message_id user bucket.messages ≡ none
      → c.find_one (of_day room_id today) s.messages ≡ ok bucket
      → (mark_read (over_mongo rooms c day_of aggregate pub_sub) room_id message_id user today s).0
        ≢ none
  unfolding mark_read mark_found mongo_chat_message_repository
  mark_read_refused room_id message_id user today s bucket nothing found =
      rw (found, mark_read) (rw (nothing, mark_found) (λ e. cc))

  mark_read_missing :
      (room_id message_id user today : String) (s : Stores R M P) (m : Error)
      → c.find_one (of_day room_id today) s.messages ≡ err m
      → (mark_read (over_mongo rooms c day_of aggregate pub_sub) room_id message_id user today s).0
        ≢ none
  unfolding mark_read mongo_chat_message_repository
  mark_read_missing room_id message_id user today s m missing = rw (missing, mark_read) (λ e. cc)

module _ {R M P : Type 0} (rooms : Collection R ChatRoom) (c : Collection M MessageBucket)
    (docs : M → List MessageBucket) (laws : Documented c docs) (day_of : ℕ → String)
    (aggregate : String → M → Result (List RoomUnreadInfo)) (pub_sub : PubSubRepository P) where
  -- When `MarkRead` gives no error, today's bucket of the room was there, and afterwards it is there
  -- with other messages: one less is unread for the user, and as many as before for anyone else.
  -- A second `MarkRead` of the same message by the same user, on the same day, gives an error.
  pub mark_read-unread :
      (room_id message_id user today : String) (s : Stores R M P)
      → let uc = over_mongo rooms c day_of aggregate pub_sub in
        let after = (mark_read uc room_id message_id user today s).1 in
        (mark_read uc room_id message_id user today s).0 ≡ none
        → (bucket : MessageBucket) × (marked : List ChatMessage) × (find?
              (of_day room_id today)
              (docs s.messages)
            ≡ some bucket)
          × (find? (of_day room_id today) (docs after.messages)
              ≡ some (record bucket { messages = marked }))
          × (suc (unread user marked) ≡ unread user bucket.messages)
          × ((other : String) → user ≢ other → unread other marked ≡ unread other bucket.messages)
          × ((mark_read uc room_id message_id user today after).0 ≢ none)
  mark_read-unread room_id message_id user today s done =
      let (bucket, marked, found, e, wrote, stored) =
        mark_read-inv rooms c day_of aggregate pub_sub room_id message_id user today s done in
      let here = laws.find_one-eq (of_day room_id today) s.messages bucket found in
      let after : Stores R M P =
        (mark_read (over_mongo rooms c day_of aggregate pub_sub) room_id message_id user today
          s).1 in
      let new : MessageBucket = record bucket { messages = marked } in
      let there : find? (of_day room_id today) (docs after.messages) ≡ some new =
        rw wrote
          (update_bucket-find c docs laws room_id today bucket marked s.messages here stored) in
      (
        bucket,
        marked,
        here,
        there,
        mark_first-unread message_id user bucket.messages marked e,
        λ other ne. mark_first-unread_ne message_id user other bucket.messages marked ne e,
        elim (Result-cases (c.find_one (of_day room_id today) after.messages)) [
          | inr (m, missing) ↦
              mark_read_missing rooms c day_of aggregate pub_sub room_id message_id user today after
                m missing
          | inl (b, again) ↦
              let same : b ≡ new =
                eq_of_some
                  (sym (laws.find_one-eq (of_day room_id today) after.messages b again) ∙ there) in
              mark_read_refused rooms c day_of aggregate pub_sub room_id message_id user today after
                b (rw same (mark_first_again message_id user bucket.messages marked e)) again
        ],
      )

-- ===== src/Chat/MessageUseCase/Buckets.antt =====
-- The bucket of the day under `Execute`: a message that is kept, one that is hidden, one that is lost.
use streaming_video_service.Prelude.{
  ℕ, String, ◌≡◌, ◌∙◌, refl, ap, subst, ==_self, Option, none, some, List, [], ◌∷◌, ◌++◌, arith,
  find?, find?-append_none, find?-append_some, inl, inr, Option-cases,
}
use streaming_video_service.Golang.{Error, Result, ok, err, returned, eq_of_returned}
use streaming_video_service.Mongo.{Collection, Documented, Available}
use streaming_video_service.Chat.Domain.{ChatRoom, ChatMessage, MessageBucket, RoomUnreadInfo}
use streaming_video_service.Chat.Repository.Message.{
  of_day, set_bucket, mongo_chat_message_repository,
}
use streaming_video_service.Chat.Repository.Message.Write.{update_bucket-replaces, find?-of_day}
use streaming_video_service.Chat.Repository.PubSub.{PubSubRepository}
use streaming_video_service.Chat.MessageUseCase.{
  Stores, SendMessageUseCase, new_message, save_message, execute,
}
use streaming_video_service.Chat.MessageUseCase.Marking.{over_mongo}
use streaming_video_service.Chat.MessageUseCase.Deliver.{execute-inv}

-- The messages that `FindBucket` of a day gives, none if there is no bucket.
abbrev pub messages_of : Option MessageBucket → List ChatMessage
messages_of none = []
messages_of (some bucket) = bucket.messages

module _ {R M P : Type 0} (rooms : Collection R ChatRoom) (c : Collection M MessageBucket)
    (docs : M → List MessageBucket) (laws : Documented c docs) (day_of : ℕ → String)
    (aggregate : String → M → Result (List RoomUnreadInfo)) (pub_sub : PubSubRepository P) where
  abbrev UC : SendMessageUseCase R M P
  UC = over_mongo rooms c day_of aggregate pub_sub

  -- A bucket that was found earlier is written with the message at its end, over what is there now.
  save_over :
      (room_id today : String) (msg : ChatMessage) (bucket now_there : MessageBucket) (m m' : M)
      → bucket.room_id ≡ room_id
      → bucket.date ≡ today
      → find? (of_day room_id today) (docs m) ≡ some now_there
      → save_message UC room_id today msg (ok (some bucket)) m ≡ returned (none, m')
      → find? (of_day room_id today) (docs m')
        ≡ some (record bucket { messages = bucket.messages ++ msg ∷ [] })
  unfolding save_message mongo_chat_message_repository
  save_over room_id today msg bucket now_there m m' r d there saved =
      let new : MessageBucket = record bucket { messages = bucket.messages ++ msg ∷ [] } in
      let out = c.update_one (of_day bucket.room_id bucket.date) (set_bucket new) m in
      let (done, is) = eq_of_returned out (none, m') saved in
      subst (λ k. find? (of_day room_id today) (docs k) ≡ some new) is
        (update_bucket-replaces c docs laws room_id today now_there new m there r d done)

  save_new :
      (room_id today : String) (msg : ChatMessage) (e : Error) (m m' : M)
      → save_message UC room_id today msg (err e) m ≡ returned (none, m')
      → docs m' ≡ docs m ++ (record { room_id = room_id; date = today; messages = msg ∷ [] }) ∷ []
  unfolding save_message mongo_chat_message_repository
  save_new room_id today msg e m m' saved =
      let new : MessageBucket = record { room_id = room_id; date = today; messages = msg ∷ [] } in
      let (done, is) = eq_of_returned (c.insert_one new m) (none, m') saved in
      subst (λ k. docs k ≡ docs m ++ new ∷ []) is (laws.insert_one-some new m done)

  find_bucket-found :
      (room_id today : String) (m : M) (bucket : MessageBucket)
      → c.find_one (of_day room_id today) m ≡ ok bucket
      → UC.msg_repo.find_bucket room_id today m ≡ ok (some bucket)
  unfolding mongo_chat_message_repository
  find_bucket-found room_id today m bucket found = rw found refl

  find_bucket-failed :
      (room_id today : String) (m : M) (e : Error)
      → c.find_one (of_day room_id today) m ≡ err e
      → UC.msg_repo.find_bucket room_id today m ≡ err e
  unfolding mongo_chat_message_repository
  find_bucket-failed room_id today m e failed = rw failed refl

  -- With the database up, an `Execute` that answers with an id has put its message at the end of
  -- the messages of the room's bucket of the day, and kept those before it.
  pub execute-messages :
      (room_id sender content today fresh : String) (now : ℕ) (s s' : Stores R M P) (id : String)
      → Available c docs
      → execute
          (over_mongo rooms c day_of aggregate pub_sub)
          room_id
          sender
          content
          today
          fresh
          now
          s
        ≡ returned (ok id, s')
      → messages_of (find? (of_day room_id today) (docs s'.messages))
        ≡ messages_of (find? (of_day room_id today) (docs s.messages))
          ++ new_message fresh sender content now ∷ []
  execute-messages room_id sender content today fresh now s s' id up done =
      let msg = new_message fresh sender content now in
      let (room, m, found, saved, same, is) =
        execute-inv UC room_id sender content today fresh now s s' id done in
      let m_is : s'.messages ≡ m = ap (λ (t : Stores R M P). t.messages) is in
      rw m_is (elim (Option-cases (find? (of_day room_id today) (docs s.messages))) [
        | inr (bucket, there) ↦
            let (r, d) = find?-of_day room_id today (docs s.messages) bucket there in
            let read =
              find_bucket-found room_id today s.messages bucket
                (up.find_one-some (of_day room_id today) s.messages bucket there) in
            rw there (
              ap messages_of (
                save_over room_id today msg bucket bucket s.messages m r d there
                  (rw read at saved)))
        | inl none_yet ↦
            let (e, missing) = up.find_one-none (of_day room_id today) s.messages none_yet in
            let read = find_bucket-failed room_id today s.messages e missing in
            rw none_yet (
              rw (save_new room_id today msg e s.messages m (rw read at saved)) (
                ap messages_of (
                  find?-append_none (of_day room_id today) (docs s.messages)
                    (record { room_id = room_id; date = today; messages = msg ∷ [] }) none_yet
                    (ground (arith, ==_self room_id, ==_self today)))))
      ])

  -- Any error of `FindBucket` counts as a missing bucket: when the bucket of the day is there and the
  -- look-up fails, an `Execute` that answers with an id has added a second bucket of the day with the
  -- message alone, and the first bucket, as it was, is still the one that is found.
  pub execute_hidden :
      (room_id sender content today fresh : String) (now : ℕ) (s s' : Stores R M P) (id : String)
      (bucket : MessageBucket) (e : Error)
      → find? (of_day room_id today) (docs s.messages) ≡ some bucket
      → c.find_one (of_day room_id today) s.messages ≡ err e
      → execute
          (over_mongo rooms c day_of aggregate pub_sub)
          room_id
          sender
          content
          today
          fresh
          now
          s
        ≡ returned (ok id, s')
      → let new : MessageBucket = record {
        room_id = room_id;
        date = today;
        messages = new_message fresh sender content now ∷ [];
      } in
        (docs s'.messages ≡ docs s.messages ++ new ∷ [])
        × (find? (of_day room_id today) (docs s'.messages) ≡ some bucket)
  execute_hidden room_id sender content today fresh now s s' id bucket e there failed done =
      let msg = new_message fresh sender content now in
      let (room, m, found, saved, same, is) =
        execute-inv UC room_id sender content today fresh now s s' id done in
      let m_is : s'.messages ≡ m = ap (λ (t : Stores R M P). t.messages) is in
      let read = find_bucket-failed room_id today s.messages e failed in
      let added = ap docs m_is ∙ save_new room_id today msg e s.messages m (rw read at saved) in
      (
        added,
        rw added (
            find?-append_some (of_day room_id today) (docs s.messages)
              (record { room_id = room_id; date = today; messages = msg ∷ [] } ∷ []) bucket there),
      )

  -- Two messages whose `Execute` calls read the bucket of the day before either has written it: when
  -- both writes give no error, the bucket has the second message at its end and not the first.
  pub save_message_lost :
      (room_id today : String) (first second : ChatMessage) (bucket : MessageBucket) (m m₁ m₂ : M)
      → c.find_one (of_day room_id today) m ≡ ok bucket
      → let read = UC.msg_repo.find_bucket room_id today m in
        save_message UC room_id today first read m ≡ returned (none, m₁)
        → save_message UC room_id today second read m₁ ≡ returned (none, m₂)
        → (messages_of (find? (of_day room_id today) (docs m₁)) ≡ bucket.messages ++ first ∷ [])
          × (messages_of (find? (of_day room_id today) (docs m₂)) ≡ bucket.messages ++ second ∷ [])
  save_message_lost room_id today first second bucket m m₁ m₂ found one two =
      let there = laws.find_one-eq (of_day room_id today) m bucket found in
      let (r, d) = find?-of_day room_id today (docs m) bucket there in
      let read = find_bucket-found room_id today m bucket found in
      let mid = save_over room_id today first bucket bucket m m₁ r d there (rw read at one) in
      (
        ap messages_of mid,
        ap messages_of (
            save_over room_id today second bucket
              (record bucket { messages = bucket.messages ++ first ∷ [] }) m₁ m₂ r d mid
              (rw read at two)),
      )

-- ===== src/Chat/MessageUseCase/Deliver.antt =====
-- Who is told of a new message, and over which channel.
use streaming_video_service.Prelude.{
  ℕ, String, ◌≡◌, refl, sym, ap, subst, ◌∙◌, ◌⊎◌, false, ◌==◌, Option, none, some, Option-cases,
  List, [], ◌∷◌, ◌++◌, map, arith, inl, inr, Bool-cases, select, append_assoc, append-nil,
  select-append,
}
use streaming_video_service.Golang.{Error, ok, Result-cases, Outcome, returned, panicked}
use streaming_video_service.Contains.{contains, without}
use streaming_video_service.Chat.Domain.{ChatRoom, ChatMessage}
use streaming_video_service.Chat.Channels.{user_channel}
use streaming_video_service.Chat.Repository.PubSub.{PubSubRepository}
use streaming_video_service.Chat.MessageUseCase.{
  Stores, SendMessageUseCase, new_message, save_message, publish_all, after_save, execute,
}

-- What has been sent: channels with their messages, in order.
abbrev pub Sent : Type 0
Sent = List (String × ChatMessage)

-- A publication without an error is sent; one with an error may be sent or not.
pub record Publishes {P : Type 0} (pub_sub : PubSubRepository P) (sent : P → Sent) : Type 0 where
  pub publish-sent :
      (channel : String) (msg : ChatMessage) (p : P)
      → (pub_sub.publish channel msg p).0 ≡ none
      → sent (pub_sub.publish channel msg p).1 ≡ sent p ++ (channel, msg) ∷ []
  pub publish-or :
      (channel : String) (msg : ChatMessage) (p : P)
      → (sent (pub_sub.publish channel msg p).1 ≡ sent p ++ (channel, msg) ∷ [])
        ⊎ (sent (pub_sub.publish channel msg p).1 ≡ sent p)

-- What a subscriber of a channel gets of it.
abbrev pub delivered : String → Sent → Sent
delivered channel = select (λ entry. entry.0 == channel)

module _ {R M P : Type 0} (uc : SendMessageUseCase R M P) (sent : P → Sent)
    (laws : Publishes uc.member_pub_sub sent) where
  -- With Redis up, every member but the sender is published to, once for each time it is listed.
  publish_all-sent :
      (up : (channel : String) (msg : ChatMessage) (p : P)
        → (uc.member_pub_sub.publish channel msg p).0 ≡ none)
      (sender : String) (msg : ChatMessage) (members : List String) (p : P)
      → sent (publish_all uc sender msg members p)
        ≡ sent p ++ map (λ (member : String). (member, msg)) (without sender members)
  unfolding publish_all without
  publish_all-sent up sender msg [] p = sym (append-nil (sent p))
  publish_all-sent up sender msg (m ∷ members) p = elim (Bool-cases (m == sender)) [
    | inl self ↦ rw self (publish_all-sent up sender msg members p)
    | inr other ↦ rw other (
        publish_all-sent up sender msg members (uc.member_pub_sub.publish m msg p).1
        ∙ rw (laws.publish-sent m msg p (up m msg p)) (append_assoc (sent p) ((m, msg) ∷ []) _))
  ]

  publish-delivered :
      (channel member : String) (msg : ChatMessage) (p : P)
      → (member == channel) ≡ false
      → delivered channel (sent (uc.member_pub_sub.publish member msg p).1)
        ≡ delivered channel (sent p)
  publish-delivered channel member msg p other = elim (laws.publish-or member msg p) [
    | inl made ↦ rw made (
        select-append (λ (entry : String × ChatMessage). entry.0 == channel) (sent p)
          ((member, msg) ∷ [])
        ∙ rw other (append-nil (delivered channel (sent p))))
    | inr kept ↦ rw kept refl
  ]

  -- A channel that is no member's id gets nothing.
  publish_all-delivered :
      (channel sender : String) (msg : ChatMessage) (members : List String) (p : P)
      → contains members channel ≡ false
      → delivered channel (sent (publish_all uc sender msg members p)) ≡ delivered channel (sent p)
  unfolding publish_all contains
  publish_all-delivered channel sender msg [] p h = refl
  publish_all-delivered channel sender msg (m ∷ members) p h =
      let other : (m == channel) ≡ false = ground (arith, h) in
      let rest : contains members channel ≡ false = ground (arith, h) in
      elim (Bool-cases (m == sender)) [
        | inl self ↦ rw self (publish_all-delivered channel sender msg members p rest)
        | inr to ↦ rw to (
            publish_all-delivered channel sender msg members (uc.member_pub_sub.publish m msg p).1
              rest
            ∙ publish-delivered channel m msg p other)
      ]

module _ {R M P : Type 0} (uc : SendMessageUseCase R M P) where
  after_save-inv :
      (room : ChatRoom) (msg : ChatMessage) (s : Stores R M P) (out : Outcome (Option Error × M))
      (s' : Stores R M P) (id : String)
      → after_save uc room msg s out ≡ returned (ok id, s')
      → (m : M) × (out ≡ returned (none, m))
        × (id ≡ msg.id)
        × (s' ≡ record s {
          messages = m;
          pub_sub = publish_all uc msg.sender_id msg room.members s.pub_sub;
        })
  unfolding after_save
  after_save-inv room msg s panicked s' id e = absurd (cc)
  after_save-inv room msg s (returned (some x, m)) s' id e = absurd (cc)
  after_save-inv room msg s (returned (none, m)) s' id e = (m, refl, ground arith, ground arith)

  -- What `Execute` has done when it answers with an id.
  pub execute-inv :
      (room_id sender content today fresh : String) (now : ℕ) (s s' : Stores R M P) (id : String)
      → execute uc room_id sender content today fresh now s ≡ returned (ok id, s')
      → let msg = new_message fresh sender content now in
        (room : ChatRoom) × (m : M) × (uc.room_repo.find_by_id room_id s.rooms ≡ ok (some room))
        × (save_message uc room_id today msg
              (uc.msg_repo.find_bucket room_id today s.messages)
              s.messages
            ≡ returned (none, m))
        × (id ≡ fresh)
        × (s'
            ≡ record s { messages = m; pub_sub = publish_all uc sender msg room.members s.pub_sub })
  unfolding execute after_save
  execute-inv room_id sender content today fresh now s s' id done =
      elim (Result-cases (uc.room_repo.find_by_id room_id s.rooms)) [
        | inr (e, failed) ↦ absurd (ground (arith, failed))
        | inl (found, is) ↦ elim (Option-cases found) [
          | inl nil ↦ absurd (ground (arith, is, nil))
          | inr (room, there) ↦
              let msg = new_message fresh sender content now in
              let is' : uc.room_repo.find_by_id room_id s.rooms ≡ ok (some room) =
                is ∙ ap ok there in
              let (m, saved, same_id, same_s) =
                after_save-inv room msg s
                  (save_message uc room_id today msg
                    (uc.msg_repo.find_bucket room_id today s.messages) s.messages)
                  s' id (rw (is', execute) at done) in
              (room, m, is', saved, same_id, same_s)
        ]
      ]

module _ {R M P : Type 0} (uc : SendMessageUseCase R M P) (sent : P → Sent)
    (laws : Publishes uc.member_pub_sub sent) where
  -- With Redis up, an `Execute` that answers with an id has published its message, in the room's
  -- order, once to each member of the room but the sender, on the channel that is the member's id.
  pub execute-sent :
      (room_id sender content today fresh : String) (now : ℕ) (s s' : Stores R M P) (id : String)
      → ((channel : String) (msg : ChatMessage) (p : P)
          → (uc.member_pub_sub.publish channel msg p).0 ≡ none)
      → execute uc room_id sender content today fresh now s ≡ returned (ok id, s')
      → (room : ChatRoom) × (uc.room_repo.find_by_id room_id s.rooms ≡ ok (some room))
        × (id ≡ fresh)
        × (sent s'.pub_sub
            ≡ sent s.pub_sub
              ++ map
                  (λ (member : String). (member, new_message fresh sender content now))
                  (without sender room.members))
  execute-sent room_id sender content today fresh now s s' id up done =
      let (room, m, found, saved, same, is) =
        execute-inv uc room_id sender content today fresh now s s' id done in
      (
        room,
        found,
        same,
        ap (λ (t : Stores R M P). sent t.pub_sub) is
            ∙ publish_all-sent uc sent laws up sender (new_message fresh sender content now)
                room.members s.pub_sub,
      )

  -- The channel that a member's connection subscribes to is not its id but "chat:user:" and the id:
  -- unless the room lists a member under that very text, an `Execute` that answers with an id has
  -- delivered nothing there.
  pub execute-delivered :
      (room_id sender content today fresh : String) (now : ℕ) (s s' : Stores R M P)
      (id listener : String) (room : ChatRoom)
      → execute uc room_id sender content today fresh now s ≡ returned (ok id, s')
      → uc.room_repo.find_by_id room_id s.rooms ≡ ok (some room)
      → contains room.members (user_channel listener) ≡ false
      → delivered (user_channel listener) (sent s'.pub_sub)
        ≡ delivered (user_channel listener) (sent s.pub_sub)
  execute-delivered room_id sender content today fresh now s s' id listener room done here
        none_such =
      let (room', m, found, saved, same, is) =
        execute-inv uc room_id sender content today fresh now s s' id done in
      let same_room : room ≡ room' = ground (arith, here, found) in
      ap (λ (t : Stores R M P). delivered (user_channel listener) (sent t.pub_sub)) is
      ∙ publish_all-delivered uc sent laws (user_channel listener) sender
          (new_message fresh sender content now) room'.members s.pub_sub
          (subst (λ (q : ChatRoom). contains q.members (user_channel listener) ≡ false) same_room
            none_such)

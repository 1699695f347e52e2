-- ===== src/Chat/RoomUseCase/Exit.antt =====
-- `ExitRoom` over the MongoDB repository: who is left, and the last member who cannot leave.
use streaming_video_service.Prelude.{
  String, ◌≡◌, refl, sym, ap, subst, ◌∙◌, ◌≢◌, true, false, none, some, List, [], ◌∷◌, arith, find?,
  inl, inr,
}
use streaming_video_service.Golang.{ok, Result-cases}
use streaming_video_service.Contains.{contains, without}
use streaming_video_service.Contains.Without.{contains-without_self, contains-without_ne}
use streaming_video_service.Mongo.{Collection, Documented}
use streaming_video_service.Chat.Domain.{ChatRoom, PrivateChatInvitation}
use streaming_video_service.Chat.Repository.Room.{has_id, set_room, set_list, mongo_room_repository}
use streaming_video_service.Chat.Repository.Room.Write.{
  update_room-find, update_room-find_ne, find?-id,
}
use streaming_video_service.Chat.RoomUseCase.{Stores, exit_room}
use streaming_video_service.Chat.RoomUseCase.Join.{over_mongo}

-- The room as an exit writes it.
abbrev after_exit : ChatRoom → String → ChatRoom
after_exit room user = record room { members = without user room.members }

module _ {R I : Type 0} (c : Collection R ChatRoom)
    (invitations : Collection I PrivateChatInvitation) where
  exit_room-inv :
      (id user : String) (s : Stores R I)
      → (exit_room (over_mongo c invitations) id user s).0 ≡ none
      → (room : ChatRoom) × (c.find_one (has_id id) s.rooms ≡ ok room)
        × ((exit_room (over_mongo c invitations) id user s).1.rooms
            ≡ (c.update_one (has_id room.id) (set_room (after_exit room user)) s.rooms).1)
        × ((c.update_one (has_id room.id) (set_room (after_exit room user)) s.rooms).0 ≡ none)
  unfolding exit_room mongo_room_repository
  exit_room-inv id user s h = elim (Result-cases (c.find_one (has_id id) s.rooms)) [
    | inr (e, missing) ↦ absurd (ground (arith, missing))
    | inl (room, found) ↦ (room, found, rw (found, exit_room) refl, rw (found, exit_room) at h)
  ]

module _ {R I : Type 0} (c : Collection R ChatRoom) (docs : R → List ChatRoom)
    (laws : Documented c docs) (invitations : Collection I PrivateChatInvitation) where
  exit_room-writes :
      (id user : String) (s : Stores R I)
      → (exit_room (over_mongo c invitations) id user s).0 ≡ none
      → let after = (exit_room (over_mongo c invitations) id user s).1.rooms in
        (room : ChatRoom) × (find? (has_id id) (docs s.rooms) ≡ some room)
        × (find? (has_id id) (docs after)
            ≡ some (record room { members = set_list (without user room.members) room.members }))
        × ((j : String) → id ≢ j → find? (has_id j) (docs after) ≡ find? (has_id j) (docs s.rooms))
  exit_room-writes id user s h =
      let (room, found, wrote, done) = exit_room-inv c invitations id user s h in
      let here : find? (has_id id) (docs s.rooms) ≡ some room =
        laws.find_one-eq (has_id id) s.rooms room found in
      (
        room,
        here,
        rw wrote
            (update_room-find c docs laws id (without user room.members) room s.rooms here done),
        λ j ne. rw wrote (
            update_room-find_ne c docs laws (after_exit room user) j s.rooms
              (λ e. ne (sym (find?-id id (docs s.rooms) room here) ∙ e)) done),
      )

  set_list-left :
      (left old : List String) (other : String)
      → contains left other ≡ true
      → set_list left old ≡ left
  unfolding contains
  set_list-left [] old other h = cc
  set_list-left (x ∷ left) old other h = refl

  -- When `ExitRoom` gives no error and the room with this id has a member besides the user, then
  -- afterwards the user is no member, everyone else is a member exactly as before, the room's other
  -- fields are as they were, and so is every other room.
  pub exit_room-contains :
      (id user other : String) (s : Stores R I) (room : ChatRoom)
      → find? (has_id id) (docs s.rooms) ≡ some room
      → user ≢ other
      → contains room.members other ≡ true
      → (exit_room (over_mongo c invitations) id user s).0 ≡ none
      → let after = (exit_room (over_mongo c invitations) id user s).1.rooms in
        (members : List String) × (find? (has_id id) (docs after)
          ≡ some (record room { members = members }))
        × (contains members user ≡ false)
        × ((v : String) → user ≢ v → contains members v ≡ contains room.members v)
        × ((j : String) → id ≢ j → find? (has_id j) (docs after) ≡ find? (has_id j) (docs s.rooms))
  exit_room-contains id user other s room here ne member h =
      let (found, there, wrote, apart) = exit_room-writes id user s h in
      let same : found ≡ room = ground (arith, here, there) in
      let left = without user room.members in
      (
        left,
        subst
              (λ (q : ChatRoom).
                find? (has_id id) (docs (exit_room (over_mongo c invitations) id user s).1.rooms)
                ≡ some (record q { members = set_list (without user q.members) q.members }))
              same wrote
            ∙ ap (λ ms. some (record room { members = ms }))
                (set_list-left left room.members other
                  (contains-without_ne user other room.members ne ∙ member)),
        contains-without_self user room.members,
        λ v apart_v. contains-without_ne user v room.members apart_v,
        apart,
      )

  -- When the user is a member of the room with this id, nobody else is, and `ExitRoom` gives no error,
  -- then the room is as it was: the user is still a member.
  pub exit_room_last :
      (id user : String) (s : Stores R I) (room : ChatRoom)
      → find? (has_id id) (docs s.rooms) ≡ some room
      → contains room.members user ≡ true
      → without user room.members ≡ []
      → (exit_room (over_mongo c invitations) id user s).0 ≡ none
      → (after : ChatRoom) × (find?
            (has_id id)
            (docs (exit_room (over_mongo c invitations) id user s).1.rooms)
          ≡ some after)
        × (after ≡ room)
        × (contains after.members user ≡ true)
  exit_room_last id user s room here member alone h =
      let (found, there, wrote, apart) = exit_room-writes id user s h in
      let same : found ≡ room = ground (arith, here, there) in
      (
        room,
        subst
              (λ (q : ChatRoom).
                find? (has_id id) (docs (exit_room (over_mongo c invitations) id user s).1.rooms)
                ≡ some (record q { members = set_list (without user q.members) q.members }))
              same wrote
            ∙ ap (λ ms. some (record room { members = set_list ms room.members })) alone,
        refl,
        member,
      )

-- ===== src/Chat/RoomUseCase/Soundness.antt =====
-- What the operations do to the invariant of the rooms collection: that no group lists a member
-- twice.
use streaming_video_service.Prelude.{
  ℕ, String, ◌≡◌, sym, subst, Bool, not, ◌==◌, ◌&&◌, nat_beq, length, some, List, [], ◌∷◌, arith,
  find?, inl, inr, All, All-append_one, All-update_first_found, All-find?, Bool-cases,
}
use streaming_video_service.Golang.{Result-cases}
use streaming_video_service.Contains.{contains, without}
use streaming_video_service.Contains.Laws.{Distinct, Distinct-append}
use streaming_video_service.Contains.Without.{Distinct-without}
use streaming_video_service.Mongo.{Collection, Documented}
use streaming_video_service.Chat.Domain.{
  ChatRoom, PrivateChatInvitation, chat_room_type_group, chat_room_type_private,
}
use streaming_video_service.Chat.Repository.Room.{has_id, set_room, set_list, mongo_room_repository}
use streaming_video_service.Chat.Repository.Room.Write.{find?-id}
use streaming_video_service.Chat.RoomUseCase.{
  Stores, create, update, execute_room, join_found, join_room, exit_room, join_members,
}
use streaming_video_service.Chat.RoomUseCase.Join.{over_mongo, joined, join_members-ok}

-- A group lists no member twice.
abbrev pub IsSound : ChatRoom → Type 0
IsSound room = room.room_type ≡ chat_room_type_group → Distinct room.members

Distinct-set_list :
    (left old : List String) → Distinct left → Distinct old → Distinct (set_list left old)
Distinct-set_list [] old l o = o
Distinct-set_list (x ∷ left) old l o = l

Distinct-joined :
    (room : ChatRoom) (user : String) → Distinct room.members → Distinct (joined room user)
Distinct-joined room user d = elim (Bool-cases (contains room.members user)) [
  | inl seen ↦ ground (arith, seen)
  | inr new ↦ ground (arith, new, Distinct-append room.members user d new)
]

-- The invariant.
abbrev pub AllSound : {R I : Type 0} → (R → List ChatRoom) → Stores R I → Type 0
AllSound docs s = All IsSound (docs s.rooms)

module _ {R I : Type 0} (c : Collection R ChatRoom) (docs : R → List ChatRoom)
    (laws : Documented c docs) (invitations : Collection I PrivateChatInvitation) where
  pub create-AllSound :
      (room : ChatRoom) (s : Stores R I)
      → IsSound room
      → AllSound docs s
      → AllSound docs (create (over_mongo c invitations) room s).1
  unfolding create mongo_room_repository
  create-AllSound room s new h = elim (laws.insert_one-or room s.rooms) [
    | inl made ↦ rw made (All-append_one IsSound (docs s.rooms) room h new)
    | inr kept ↦ rw kept h
  ]

  -- A room that was found is written back with another list of members.
  update-AllSound :
      (id : String) (room : ChatRoom) (members : List String) (s : Stores R I)
      → find? (has_id id) (docs s.rooms) ≡ some room
      → (Distinct room.members → Distinct members)
      → AllSound docs s
      → AllSound docs (update (over_mongo c invitations) (record room { members = members }) s).1
  unfolding update mongo_room_repository
  update-AllSound id room members s found keeps h =
      let new : ChatRoom = record room { members = members } in
      let same : room.id ≡ id = find?-id id (docs s.rooms) room found in
      let found' : find? (has_id room.id) (docs s.rooms) ≡ some room =
        subst (λ k. find? (has_id k) (docs s.rooms) ≡ some room) (sym same) found in
      let old : IsSound room = All-find? IsSound (has_id id) (docs s.rooms) room h found in
      elim (laws.update_one-or (has_id room.id) (set_room new) s.rooms) [
        | inl made ↦ rw made (
            All-update_first_found IsSound (has_id room.id) (set_room new) (docs s.rooms) room
              found' (λ g. Distinct-set_list members room.members (keeps (old g)) (old g)) h)
        | inr kept ↦ rw kept h
      ]

  join_found-AllSound :
      (id user password : String) (room : ChatRoom) (s : Stores R I)
      → find? (has_id id) (docs s.rooms) ≡ some room
      → AllSound docs s
      → AllSound docs (join_found (over_mongo c invitations) room user password s).1
  unfolding join_found
  join_found-AllSound id user password room s found h =
      elim (Bool-cases (room.room_type == chat_room_type_group)) [
        | inr other ↦ rw (other, join_found) h
        | inl g ↦ elim (Result-cases (join_members room user password)) [
          | inr (e, refused) ↦ rw (g, refused, join_found) h
          | inl (members, e) ↦
              let m : members ≡ joined room user = join_members-ok room user password members e in
              rw (g, e, join_found)
                (update-AllSound id room members s found (λ d. rw m (Distinct-joined room user d))
                  h)
        ]
      ]

  pub join_room-AllSound :
      (id user password : String) (s : Stores R I)
      → AllSound docs s
      → AllSound docs (join_room (over_mongo c invitations) id user password s).1
  unfolding join_room mongo_room_repository
  join_room-AllSound id user password s h = elim (Result-cases (c.find_one (has_id id) s.rooms)) [
    | inr (e, missing) ↦ rw (missing, join_room) h
    | inl (room, found) ↦
        rw (found, join_room)
          (join_found-AllSound id user password room s
            (laws.find_one-eq (has_id id) s.rooms room found) h)
  ]

  pub exit_room-AllSound :
      (id user : String) (s : Stores R I)
      → AllSound docs s
      → AllSound docs (exit_room (over_mongo c invitations) id user s).1
  unfolding exit_room mongo_room_repository
  exit_room-AllSound id user s h = elim (Result-cases (c.find_one (has_id id) s.rooms)) [
    | inr (e, missing) ↦ rw (missing, exit_room) h
    | inl (room, found) ↦
        rw (found, exit_room)
          (update-AllSound id room (without user room.members) s
            (laws.find_one-eq (has_id id) s.rooms room found) (Distinct-without user room.members)
            h)
  ]

  -- The members may be given freely, if none is given twice.
  pub execute_room-AllSound :
      (room_type name : String) (members : List String) (join_mode password : String)
      (is_private is_invite : Bool) (fresh : String) (now : ℕ) (s : Stores R I)
      → Distinct members
      → AllSound docs s
      → AllSound docs
          (execute_room
            (over_mongo c invitations)
            room_type
            name
            members
            join_mode
            password
            is_private
            is_invite
            fresh
            now
            s).1
  unfolding execute_room
  execute_room-AllSound room_type name members join_mode password is_private is_invite fresh now s d
        h =
      elim (Bool-cases (room_type == chat_room_type_private && not (nat_beq (length members) 2))) [
        | inl refused ↦ rw (refused, execute_room) h
        | inr fine ↦ rw (fine, execute_room) (create-AllSound _ s (λ g. d) h)
      ]

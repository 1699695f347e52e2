-- ===== src/Chat/RoomUseCase/Join.antt =====
-- `JoinRoom` over the MongoDB repository: who gets in, and what it writes.
use streaming_video_service.Prelude.{
  String, ◌≡◌, refl, sym, ap, ◌∙◌, ◌≢◌, Bool, true, false, ◌||◌, ◌==◌, eq_iff, Option, none, some,
  List, [], ◌∷◌, ◌++◌, if◌then◌else◌, arith, find?, Bool-cases, inl, inr,
}
use streaming_video_service.Golang.{Error, ok, Result-cases}
use streaming_video_service.Contains.{contains}
use streaming_video_service.Mongo.{Collection, Documented}
use streaming_video_service.Chat.Domain.{
  ChatRoom, PrivateChatInvitation, chat_room_type_group, join_mode_open, join_mode_password,
  join_mode_approve,
}
use streaming_video_service.Chat.Repository.Room.{has_id, set_room, set_list, mongo_room_repository}
use streaming_video_service.Chat.Repository.Room.Write.{
  update_room-find, update_room-find_ne, find?-id,
}
use streaming_video_service.Chat.Repository.Invitation.{mongo_invitation_repository}
use streaming_video_service.Chat.RoomUseCase.{
  Stores, RoomUseCase, append_if_not_exists, append_loop, join_members, update, join_found,
  join_room,
}

-- The use case over MongoDB.
abbrev pub over_mongo :
    {R I : Type 0} → Collection R ChatRoom → Collection I PrivateChatInvitation → RoomUseCase R I
over_mongo rooms invitations = record {
  inv_repo = mongo_invitation_repository invitations;
  room_repo = mongo_room_repository rooms;
}

append_loop_lem :
    (list rest : List String) (val : String)
    → append_loop list rest val ≡ (if contains rest val then list else list ++ val ∷ [])
unfolding append_loop contains
append_loop_lem list [] val = refl
append_loop_lem list (v ∷ rest) val = ground (arith, append_loop_lem list rest val)

-- `appendIfNotExists` is the list with the value added unless it is there.
pub append_if_not_exists_lem :
    (list : List String) (val : String)
    → append_if_not_exists list val ≡ (if contains list val then list else list ++ val ∷ [])
unfolding append_if_not_exists
append_if_not_exists_lem list val = append_loop_lem list list val

-- The member list after a join: in the modes that let a user in, with the user added unless there.
abbrev pub joined : ChatRoom → String → List String
joined room user =
    if room.join_mode == join_mode_open || room.join_mode == join_mode_password
    then (if contains room.members user then room.members else room.members ++ user ∷ [])
    else room.members

-- What a join without an error asks of the room and of the password that was given.
pub record MayJoin (room : ChatRoom) (password : String) : Type 0 where
  pub is_group : room.room_type ≡ chat_room_type_group
  pub no_approval : room.join_mode ≢ join_mode_approve
  pub knows_password :
      room.join_mode ≡ join_mode_password → (password ≡ room.password) × (password ≢ "")

pub join_members-ok :
    (room : ChatRoom) (user password : String) (members : List String)
    → join_members room user password ≡ ok members
    → members ≡ joined room user
unfolding join_members
join_members-ok room user password members e =
    ground (arith, append_if_not_exists_lem room.members user)

-- The cases of the switch on the mode, as equations of the tests.
may_join :
    (room : ChatRoom) (user password : String) (members : List String)
    → room.room_type ≡ chat_room_type_group
    → join_members room user password ≡ ok members
    → MayJoin room password
unfolding join_members
may_join room user password members g e = record {
  is_group = g;
  no_approval = λ a. approve_refused a e;
  knows_password = λ a. password_checked a e;
}
  where
    approve_refused :
        room.join_mode ≡ join_mode_approve → join_members room user password ≡ ok members → ⊥
    approve_refused a h = ground (
      arith,
      ap (λ (m : String). m == join_mode_open) a,
      ap (λ (m : String). m == join_mode_password) a,
      ap (λ (m : String). m == join_mode_approve) a,
    )

    password_checked :
        room.join_mode ≡ join_mode_password
        → join_members room user password ≡ ok members
        → (password ≡ room.password) × (password ≢ "")
    password_checked a h = ground (
      arith,
      ap (λ (m : String). m == join_mode_open) a,
      ap (λ (m : String). m == join_mode_password) a,
      eq_iff password room.password,
      eq_iff password "",
    )

-- The room as a join writes it.
abbrev pub after_join : ChatRoom → String → ChatRoom
after_join room user = record room { members = joined room user }

module _ {R I : Type 0} (c : Collection R ChatRoom)
    (invitations : Collection I PrivateChatInvitation) where
  pub join_found-update :
      (room : ChatRoom) (user password : String) (members : List String) (s : Stores R I)
      → room.room_type ≡ chat_room_type_group
      → join_members room user password ≡ ok members
      → join_found (over_mongo c invitations) room user password s
        ≡ update (over_mongo c invitations) (record room { members = members }) s
  unfolding join_found
  join_found-update room user password members s g e =
      ground (arith, (eq_iff room.room_type chat_room_type_group).1 g, e)

  -- What a join that found its room has done, when it gives no error.
  JoinWrites : ChatRoom → String → String → Stores R I → Option Error × Stores R I → Type 0
  JoinWrites room user password s out =
      MayJoin room password
      × (out.1.rooms ≡ (c.update_one (has_id room.id) (set_room (after_join room user)) s.rooms).1)
      × ((c.update_one (has_id room.id) (set_room (after_join room user)) s.rooms).0 ≡ none)

  join_found-inv :
      (room : ChatRoom) (user password : String) (s : Stores R I)
      → (join_found (over_mongo c invitations) room user password s).0 ≡ none
      → JoinWrites room user password s (join_found (over_mongo c invitations) room user password s)
  unfolding join_found JoinWrites mongo_room_repository
  join_found-inv room user password s h =
      elim (Bool-cases (room.room_type == chat_room_type_group)) [
        | inr other ↦ absurd (ground (arith, other))
        | inl g ↦ elim (Result-cases (join_members room user password)) [
          | inr (e, refused) ↦ absurd (ground (arith, g, refused))
          | inl (members, e) ↦
              let m : members ≡ joined room user = join_members-ok room user password members e in
              let is_group : room.room_type ≡ chat_room_type_group =
                (eq_iff room.room_type chat_room_type_group).0 g in
              let wrote =
                join_found-update room user password (joined room user) s is_group (rw (← m) e) in
              (may_join room user password members is_group e, rw wrote refl, rw wrote at h)
        ]
      ]

  join_room-found :
      (id user password : String) (s : Stores R I) (room : ChatRoom)
      → c.find_one (has_id id) s.rooms ≡ ok room
      → join_room (over_mongo c invitations) id user password s
        ≡ join_found (over_mongo c invitations) room user password s
  unfolding join_room mongo_room_repository
  join_room-found id user password s room found = rw (found, join_room) refl

  -- A join without an error has found a room that may be joined, and has written it back.
  join_room-inv :
      (id user password : String) (s : Stores R I)
      → (join_room (over_mongo c invitations) id user password s).0 ≡ none
      → (room : ChatRoom) × (c.find_one (has_id id) s.rooms ≡ ok room)
        × JoinWrites room user password s (join_room (over_mongo c invitations) id user password s)
  unfolding join_room mongo_room_repository
  join_room-inv id user password s h = elim (Result-cases (c.find_one (has_id id) s.rooms)) [
    | inr (e, missing) ↦ absurd (ground (arith, missing))
    | inl (room, found) ↦
        let same = join_room-found id user password s room found in
        (room, found, rw same (join_found-inv room user password s (rw same at h)))
  ]

set_list-joined :
    (room : ChatRoom) (user : String) → set_list (joined room user) room.members ≡ joined room user
unfolding contains
set_list-joined room user =
    set_list-grown room.members user
      (room.join_mode == join_mode_open || room.join_mode == join_mode_password)
  where
    set_list-grown :
        (members : List String) (user : String) (lets_in : Bool)
        → let grown =
            if lets_in
            then (if contains members user then members else members ++ user ∷ [])
            else members in
          set_list grown members ≡ grown
    set_list-grown [] u false = refl
    set_list-grown [] u true = refl
    set_list-grown (m ∷ ms) u false = refl
    set_list-grown (m ∷ ms) u true = ground arith

module _ {R I : Type 0} (c : Collection R ChatRoom) (docs : R → List ChatRoom)
    (laws : Documented c docs) (invitations : Collection I PrivateChatInvitation) where
  -- When `JoinRoom` gives no error, the room with this id was there, it is a group, it does not ask
  -- for approval, and if it asks for a password then the one given is the room's and is not empty.
  -- Afterwards the room has this member list (in the modes "open" and "password" the user added at
  -- the end unless listed before; in any other mode unchanged), its other fields are as they were,
  -- and every other room is as it was.
  pub join_room-MayJoin :
      (id user password : String) (s : Stores R I)
      → (join_room (over_mongo c invitations) id user password s).0 ≡ none
      → let after = (join_room (over_mongo c invitations) id user password s).1.rooms in
        (room : ChatRoom) × (find? (has_id id) (docs s.rooms) ≡ some room)
        × MayJoin room password
        × (find? (has_id id) (docs after) ≡ some (record room { members = joined room user }))
        × ((j : String) → id ≢ j → find? (has_id j) (docs after) ≡ find? (has_id j) (docs s.rooms))
  unfolding JoinWrites
  join_room-MayJoin id user password s h =
      let (room, found, writes) = join_room-inv c invitations id user password s h in
      let (may, wrote, done) = writes in
      let here : find? (has_id id) (docs s.rooms) ≡ some room =
        laws.find_one-eq (has_id id) s.rooms room found in
      (
        room,
        here,
        may,
        rw wrote (
            update_room-find c docs laws id (joined room user) room s.rooms here done
            ∙ ap (λ ms. some (record room { members = ms })) (set_list-joined room user)),
        λ j ne. rw wrote (
            update_room-find_ne c docs laws (after_join room user) j s.rooms
              (λ e. ne (sym (find?-id id (docs s.rooms) room here) ∙ e)) done),
      )

-- ===== src/Chat/RoomUseCase.antt =====
-- internal/chat/app/room_usecause.go. `uuid.New` and `time.Now` enter as the arguments `fresh` and
-- `now`. An operation returns its Go result beside the state that it leaves.
pub mod Join
pub mod Exit
pub mod Calls
pub mod Soundness
pub mod Distinct
pub mod PrivateRoom
pub mod Accept
use streaming_video_service.Prelude.{
  ℕ, String, Bool, true, false, ◌&&◌, ◌||◌, not, ◌==◌, Option, none, some, List, [], ◌∷◌, ◌++◌,
  if◌then◌else◌, nat_beq, length,
}
use streaming_video_service.Golang.{Error, Result, ok, err}
use streaming_video_service.Contains.{without}
use streaming_video_service.Chat.Domain.{
  ChatRoom, PrivateChatInvitation, chat_room_type_private, chat_room_type_group, join_mode_open,
  join_mode_password, join_mode_approve, invitation_pending, invitation_accepted,
}
use streaming_video_service.Chat.Repository.Room.{RoomRepository}
use streaming_video_service.Chat.Repository.Invitation.{InvitationRepository}

-- The two collections that the use case reads and writes.
pub record Stores (R I : Type 0) : Type 0 where
  pub rooms : R
  pub invitations : I

pub record RoomUseCase (R I : Type 0) : Type 0 where
  pub inv_repo : InvitationRepository I
  pub room_repo : RoomRepository R

-- The loop of `appendIfNotExists` over what is left of `list`.
unfoldable pub append_loop : List String → List String → String → List String
append_loop list [] val = list ++ val ∷ []
append_loop list (v ∷ rest) val = if v == val then list else append_loop list rest val

unfoldable pub append_if_not_exists : List String → String → List String
unfolding append_loop
append_if_not_exists list val = append_loop list list val

-- `value, nil` or `"", err`.
abbrev pub result : {A : Type 0} → A → Option Error → Result A
result value none = ok value
result value (some e) = err e

-- The admins of a new room: the first member of a group.
abbrev pub initial_admins : String → List String → List String
initial_admins room_type [] = []
initial_admins room_type (m ∷ ms) = if room_type == chat_room_type_group then m ∷ [] else []

-- The member list that `JoinRoom` writes, or its refusal, by the room's mode. A mode that the switch
-- does not name changes nothing.
unfoldable pub join_members : ChatRoom → String → String → Result (List String)
unfolding append_if_not_exists
join_members room user password =
    if room.join_mode == join_mode_open
    then ok (append_if_not_exists room.members user)
    else if room.join_mode == join_mode_password
    then (if password == "" || not (password == room.password)
        then err "invalid password"
        else ok (append_if_not_exists room.members user))
    else if room.join_mode == join_mode_approve
    then err "need admin approval"
    else ok room.members

-- The room that `ExecuteAccept` makes for the two.
abbrev pub private_room : PrivateChatInvitation → String → ℕ → ChatRoom
private_room inv fresh now = record {
  id = fresh;
  room_type = chat_room_type_private;
  name = "";
  members = inv.inviter_id ∷ inv.invitee_id ∷ [];
  admins = [];
  join_mode = "";
  password = "";
  is_private = false;
  is_invite = true;
  created_at = now;
}

module _ {R I : Type 0} (uc : RoomUseCase R I) where
  pub create : ChatRoom → Stores R I → Result String × Stores R I
  create room s =
      let (e, rooms) = uc.room_repo.create_room room s.rooms in
      (result room.id e, record s { rooms = rooms })

  pub update : ChatRoom → Stores R I → Option Error × Stores R I
  update room s =
      let (e, rooms) = uc.room_repo.update_room room s.rooms in (e, record s { rooms = rooms })

  -- `ExecuteRoom`
  unfoldable pub execute_room :
      String
      → String
      → List String
      → String
      → String
      → Bool
      → Bool
      → String
      → ℕ
      → Stores R I
      → Result String × Stores R I
  unfolding create
  execute_room room_type name members join_mode password is_private is_invite fresh now s =
      if room_type == chat_room_type_private && not (nat_beq (length members) 2)
      then (err "private room must have exactly 2 members", s)
      else create
          (record {
            id = fresh;
            room_type = room_type;
            name = name;
            members = members;
            admins = initial_admins room_type members;
            join_mode = join_mode;
            password = password;
            is_private = is_private;
            is_invite = is_invite;
            created_at = now;
          })
          s

  -- `JoinRoom` from the room that was found.
  pub join_found : ChatRoom → String → String → Stores R I → Option Error × Stores R I
  unfolding update
  join_found room user password s =
      if not (room.room_type == chat_room_type_group)
      then (some "not a group chat room", s)
      else elim (join_members room user password) [
        | ok members ↦ update (record room { members = members }) s
        | err e ↦ (some e, s)
      ]

  -- `JoinRoom`
  unfoldable pub join_room : String → String → String → Stores R I → Option Error × Stores R I
  unfolding join_found
  join_room room_id user password s = elim (uc.room_repo.find_by_id room_id s.rooms) [
    | err e ↦ (some e, s)
    | ok none ↦ (some "room not found", s)
    | ok (some room) ↦ join_found room user password s
  ]

  pub invite_new : String → String → String → ℕ → Stores R I → Result String × Stores R I
  invite_new inviter invitee fresh now s =
      let inv : PrivateChatInvitation = record {
        id = fresh;
        inviter_id = inviter;
        invitee_id = invitee;
        status = invitation_pending;
        created_at = now;
      } in
      let (e, invitations) = uc.inv_repo.create_invitation inv s.invitations in
      (result fresh e, record s { invitations = invitations })

  -- `ExecuteInvite`; the error of the look-up is dropped.
  unfoldable pub execute_invite :
      String → String → String → ℕ → Stores R I → Result String × Stores R I
  unfolding invite_new
  execute_invite inviter invitee fresh now s =
      elim (uc.inv_repo.find_invitation_status inviter invitee s.invitations) [
        | ok (some pending) ↦ (err "already invited, wait for acceptance", s)
        | _ ↦ invite_new inviter invitee fresh now s
      ]

  -- The second half of `ExecuteAccept`: the room of the two, found or made. The error of the look-up
  -- is dropped.
  pub accept_room : PrivateChatInvitation → String → ℕ → Stores R I → Result String × Stores R I
  unfolding create
  accept_room inv fresh now s =
      elim (uc.room_repo.find_one_private_room inv.inviter_id inv.invitee_id s.rooms) [
        | ok (some room) ↦ (ok room.id, s)
        | _ ↦ create (private_room inv fresh now) s
      ]

  -- The first half: the checks on the invitation, and its new status.
  pub accept_found :
      PrivateChatInvitation → String → String → String → ℕ → Stores R I → Result String × Stores R I
  unfolding accept_room
  accept_found inv inviter user fresh now s =
      if not (inv.invitee_id == user)
      then (err "not the correct invitee", s)
      else if not (inv.status == invitation_pending)
      then (err "invitation not pending", s)
      else let (e, invitations) =
          uc.inv_repo.update_invitation_status inviter user invitation_accepted s.invitations in
        let s' : Stores R I = record s { invitations = invitations } in
        elim e [ none ↦ accept_room inv fresh now s' | some m ↦ (err m, s') ]

  -- `ExecuteAccept`
  unfoldable pub execute_accept :
      String → String → String → ℕ → Stores R I → Result String × Stores R I
  unfolding accept_found
  execute_accept inviter user fresh now s =
      elim (uc.inv_repo.find_invitation_by_id inviter user s.invitations) [
        | err e ↦ (err e, s)
        | ok none ↦ (err "invitation not found", s)
        | ok (some inv) ↦ accept_found inv inviter user fresh now s
      ]

  -- `ExitRoom`
  unfoldable pub exit_room : String → String → Stores R I → Option Error × Stores R I
  unfolding update without
  exit_room room_id user s = elim (uc.room_repo.find_by_id room_id s.rooms) [
    | ok (some room) ↦ update (record room { members = without user room.members }) s
    | _ ↦ (some "room not found", s)
  ]

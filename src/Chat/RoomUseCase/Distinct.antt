-- ===== src/Chat/RoomUseCase/Distinct.antt =====
-- The invariant of the rooms collection: no group lists a member twice, whatever calls the websocket
-- handler makes and whichever of the database's operations fail.
use streaming_video_service.Prelude.{
  ℕ, String, ◌≡◌, refl, sym, ◌∙◌, false, ◌==◌, ap, Option, none, some, List, [], ◌∷◌, arith, inl,
  inr, All, Bool-cases,
}
use streaming_video_service.Golang.{Error, Result, ok, err, Result-cases}
use streaming_video_service.Contains.{contains}
use streaming_video_service.Mongo.{Collection, Documented}
use streaming_video_service.Chat.Domain.{
  ChatRoom, PrivateChatInvitation, chat_room_type_group, chat_room_type_private, invitation_pending,
  invitation_accepted,
}
use streaming_video_service.Chat.Repository.Room.{is_private_room_of, mongo_room_repository}
use streaming_video_service.Chat.Repository.Invitation.{mongo_invitation_repository}
use streaming_video_service.Chat.RoomUseCase.{
  Stores, private_room, execute_invite, accept_room, accept_found, execute_accept, invite_new,
}
use streaming_video_service.Chat.RoomUseCase.Calls.{
  RoomCall, creates, joins, exits, invites, accepts, step, run,
}
use streaming_video_service.Chat.RoomUseCase.Join.{over_mongo}
use streaming_video_service.Chat.RoomUseCase.Soundness.{
  IsSound, AllSound, create-AllSound, join_room-AllSound, exit_room-AllSound, execute_room-AllSound,
}

private_room-IsSound : (room : ChatRoom) → room.room_type ≡ chat_room_type_private → IsSound room
private_room-IsSound room p g =
    absurd (cc (ap (λ (t : String). t == chat_room_type_group) (sym p ∙ g)))

module _ {R I : Type 0} (c : Collection R ChatRoom) (docs : R → List ChatRoom)
    (laws : Documented c docs) (invitations : Collection I PrivateChatInvitation) where
  accept_room-AllSound :
      (inv : PrivateChatInvitation) (fresh : String) (now : ℕ) (s : Stores R I)
      → AllSound docs s
      → AllSound docs (accept_room (over_mongo c invitations) inv fresh now s).1
  unfolding accept_room mongo_room_repository
  accept_room-AllSound inv fresh now s h =
      elim (Result-cases (c.find_one (is_private_room_of inv.inviter_id inv.invitee_id) s.rooms)) [
        | inl (room, found) ↦ rw (found, accept_room) h
        | inr (e, missing) ↦
            rw (missing, accept_room)
              (create-AllSound c docs laws invitations (private_room inv fresh now) s
                (private_room-IsSound (private_room inv fresh now) refl) h)
      ]

  accept_found-AllSound :
      (inv : PrivateChatInvitation) (inviter user fresh : String) (now : ℕ) (s : Stores R I)
      → AllSound docs s
      → AllSound docs (accept_found (over_mongo c invitations) inv inviter user fresh now s).1
  unfolding accept_found
  accept_found-AllSound inv inviter user fresh now s h =
      elim (Bool-cases (inv.invitee_id == user)) [
        | inr other ↦ rw (other, accept_found) h
        | inl mine ↦ elim (Bool-cases (inv.status == invitation_pending)) [
          | inr late ↦ rw (mine, late, accept_found) h
          | inl pending ↦
              rw (mine, pending, accept_found)
                (marked (
                  (mongo_invitation_repository invitations).update_invitation_status inviter user
                    invitation_accepted s.invitations))
        ]
      ]
    where
      marked :
          (out : Option Error × I)
          → let s' : Stores R I = record s { invitations = out.1 } in
            AllSound docs
              (elim out.0 as (λ _. Result String × Stores R I) [
                | none ↦ accept_room (over_mongo c invitations) inv fresh now s'
                | some m ↦ (err m, s')
              ]).1
      marked (none, i) = accept_room-AllSound inv fresh now (record s { invitations = i }) h
      marked (some m, i) = h

  execute_accept-AllSound :
      (inviter user fresh : String) (now : ℕ) (s : Stores R I)
      → AllSound docs s
      → AllSound docs (execute_accept (over_mongo c invitations) inviter user fresh now s).1
  unfolding execute_accept
  execute_accept-AllSound inviter user fresh now s h =
      elim ((mongo_invitation_repository invitations).find_invitation_by_id inviter user
          s.invitations)
        as (λ found.
          AllSound docs
            (elim found as (λ _. Result String × Stores R I) [
              | err e ↦ (err e, s)
              | ok none ↦ (err "invitation not found", s)
              | ok (some inv) ↦ accept_found (over_mongo c invitations) inv inviter user fresh now s
            ]).1) [
              | err e ↦ h
              | ok none ↦ h
              | ok (some inv) ↦ accept_found-AllSound inv inviter user fresh now s h
            ]

  execute_invite-AllSound :
      (inviter invitee fresh : String) (now : ℕ) (s : Stores R I)
      → AllSound docs s
      → AllSound docs (execute_invite (over_mongo c invitations) inviter invitee fresh now s).1
  unfolding execute_invite invite_new
  execute_invite-AllSound inviter invitee fresh now s h = ground arith

module _ {R I : Type 0} (c : Collection R ChatRoom) (docs : R → List ChatRoom)
    (laws : Documented c docs) (invitations : Collection I PrivateChatInvitation) where
  step-AllSound :
      (call : RoomCall) (s : Stores R I)
      → AllSound docs s
      → AllSound docs (step (over_mongo c invitations) call s)
  unfolding step contains
  step-AllSound (creates room_type name member join_mode password is_private fresh now) s h =
      execute_room-AllSound c docs laws invitations room_type name (member ∷ []) join_mode password
        is_private false fresh now s (refl, tt) h
  step-AllSound (joins id user password) s h =
      join_room-AllSound c docs laws invitations id user password s h
  step-AllSound (exits id user) s h = exit_room-AllSound c docs laws invitations id user s h
  step-AllSound (invites inviter invitee fresh now) s h =
      execute_invite-AllSound c docs laws invitations inviter invitee fresh now s h
  step-AllSound (accepts inviter user fresh now) s h =
      execute_accept-AllSound c docs laws invitations inviter user fresh now s h

  -- From a collection in which no group lists a member twice, any sequence of the calls that the
  -- websocket handler makes of the room use case, where a room is created with one member, its
  -- creator, leads to such a collection, with any of the database's operations failing.
  pub run-AllSound :
      (calls : List RoomCall) (s : Stores R I)
      → All IsSound (docs s.rooms)
      → All IsSound (docs (run (over_mongo c invitations) calls s).rooms)
  unfolding run
  run-AllSound [] s h = h
  run-AllSound (call ∷ calls) s h =
      run-AllSound calls (step (over_mongo c invitations) call s) (step-AllSound call s h)

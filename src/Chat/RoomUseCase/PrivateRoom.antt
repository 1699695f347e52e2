-- ===== src/Chat/RoomUseCase/PrivateRoom.antt =====
-- What an invitation and its acceptance leave: the invitation as it was sent, and a private room of
-- the two members.
use streaming_video_service.Prelude.{
  ℕ, String, ◌≡◌, refl, ap, true, ◌==◌, ==_self, eq_iff, none, some, Option-cases, List, arith,
  find?, find?-append_none, find?-update_first_self, find?-pass, inl, inr,
}
use streaming_video_service.Golang.{ok, err}
use streaming_video_service.Contains.{contains}
use streaming_video_service.Mongo.{Collection, Documented, Available}
use streaming_video_service.Chat.Domain.{
  ChatRoom, PrivateChatInvitation, invitation_pending, invitation_accepted,
}
use streaming_video_service.Chat.Repository.Room.{is_private_room_of, mongo_room_repository}
use streaming_video_service.Chat.Repository.Invitation.{
  between, set_status, mongo_invitation_repository,
}
use streaming_video_service.Chat.RoomUseCase.{
  Stores, private_room, create, invite_new, execute_invite, accept_room, accept_found,
  execute_accept,
}
use streaming_video_service.Chat.RoomUseCase.Join.{over_mongo}

abbrev pub invitation : String → String → String → ℕ → PrivateChatInvitation
invitation inviter invitee fresh now = record {
  id = fresh;
  inviter_id = inviter;
  invitee_id = invitee;
  status = invitation_pending;
  created_at = now;
}

pub between_self :
    (a b status : String) (inv : PrivateChatInvitation)
    → between a b inv ≡ true
    → between a b (set_status status inv) ≡ true
between_self a b status inv h = h

private_room_matches :
    (inv : PrivateChatInvitation) (fresh : String) (now : ℕ)
    → is_private_room_of inv.inviter_id inv.invitee_id (private_room inv fresh now) ≡ true
unfolding contains
private_room_matches inv fresh now = ground (arith, ==_self inv.inviter_id, ==_self inv.invitee_id)

-- The private room of two members, as a look-up in the collection.
abbrev pub HasRoom : {R : Type 0} → (R → List ChatRoom) → String → String → String → R → Type 0
HasRoom docs a b id r =
    (room : ChatRoom) × (find? (is_private_room_of a b) (docs r) ≡ some room) × (room.id ≡ id)

-- An invitation that is not pending is refused, and nothing is changed.
pub accept_refused :
    {R I : Type 0} (c : Collection R ChatRoom) (ic : Collection I PrivateChatInvitation)
    (a b fresh : String) (now : ℕ) (inv : PrivateChatInvitation) (s : Stores R I)
    → ic.find_one (between a b) s.invitations ≡ ok inv
    → between a b inv ≡ true
    → inv.status ≡ invitation_accepted
    → execute_accept (over_mongo c ic) a b fresh now s ≡ (err "invitation not pending", s)
unfolding execute_accept accept_found mongo_invitation_repository
accept_refused c ic a b fresh now inv s found hit late =
    rw (found, execute_accept)
      (ground (arith, hit, ap (λ (t : String). t == invitation_pending) late))

module _ {R I : Type 0} (c : Collection R ChatRoom) (docs : R → List ChatRoom)
    (laws : Documented c docs) (up : Available c docs) (ic : Collection I PrivateChatInvitation)
    (idocs : I → List PrivateChatInvitation) (ilaws : Documented ic idocs)
    (iup : Available ic idocs) where
  -- With the database up, the two get their room: the one they have, or a new one.
  accept_room-HasRoom :
      (inv : PrivateChatInvitation) (fresh : String) (now : ℕ) (s : Stores R I)
      → (id : String) × ((accept_room (over_mongo c ic) inv fresh now s).0 ≡ ok id)
        × ((accept_room (over_mongo c ic) inv fresh now s).1.invitations ≡ s.invitations)
        × HasRoom docs inv.inviter_id inv.invitee_id id
            (accept_room (over_mongo c ic) inv fresh now s).1.rooms
  unfolding accept_room create mongo_room_repository
  accept_room-HasRoom inv fresh now s =
      let theirs = is_private_room_of inv.inviter_id inv.invitee_id in
      elim (Option-cases (find? theirs (docs s.rooms))) [
        | inr (room, there) ↦
            let found = up.find_one-some theirs s.rooms room there in
            (
              room.id,
              rw (found, accept_room) refl,
              rw (found, accept_room) refl,
              (room, rw (found, accept_room) there, refl),
            )
        | inl gone ↦
            let (e, missing) = up.find_one-none theirs s.rooms gone in
            let new = private_room inv fresh now in
            let made = up.insert_one-none new s.rooms in
            (
              fresh,
              rw (missing, accept_room) (rw made),
              rw (missing, accept_room) refl,
              (
                new,
                rw (missing, accept_room)
                    (rw (laws.insert_one-some new s.rooms made) (
                      find?-append_none theirs (docs s.rooms) new gone
                        (private_room_matches inv fresh now))),
                refl,
              ),
            )
      ]

  pub execute_invite-sent :
      (a b fresh : String) (now : ℕ) (s : Stores R I)
      → find? (between a b) (idocs s.invitations) ≡ none
      → ((execute_invite (over_mongo c ic) a b fresh now s).0 ≡ ok fresh)
        × ((execute_invite (over_mongo c ic) a b fresh now s).1.rooms ≡ s.rooms)
        × (find?
              (between a b)
              (idocs (execute_invite (over_mongo c ic) a b fresh now s).1.invitations)
            ≡ some (invitation a b fresh now))
  unfolding execute_invite invite_new mongo_invitation_repository
  execute_invite-sent a b fresh now s h =
      let (e, missing) = iup.find_one-none (between a b) s.invitations h in
      let made = iup.insert_one-none (invitation a b fresh now) s.invitations in
      (
        rw (missing, execute_invite) (rw made),
        rw (missing, execute_invite),
        rw (missing, execute_invite)
            (rw (ilaws.insert_one-some (invitation a b fresh now) s.invitations made) (
              find?-append_none (between a b) (idocs s.invitations) (invitation a b fresh now) h
                (ground (arith, ==_self a, ==_self b)))),
      )

  -- A pending invitation is accepted by its invitee.
  pub execute_accept-HasRoom :
      (a b fresh : String) (now : ℕ) (inv : PrivateChatInvitation) (s : Stores R I)
      → find? (between a b) (idocs s.invitations) ≡ some inv
      → inv.status ≡ invitation_pending
      → (id : String) × ((execute_accept (over_mongo c ic) a b fresh now s).0 ≡ ok id)
        × HasRoom docs inv.inviter_id inv.invitee_id id
            (execute_accept (over_mongo c ic) a b fresh now s).1.rooms
        × (find?
              (between a b)
              (idocs (execute_accept (over_mongo c ic) a b fresh now s).1.invitations)
            ≡ some (set_status invitation_accepted inv))
  unfolding execute_accept accept_found mongo_invitation_repository
  execute_accept-HasRoom a b fresh now inv s there pending =
      let found = iup.find_one-some (between a b) s.invitations inv there in
      let hit = find?-pass (between a b) (idocs s.invitations) inv there in
      let mine : (inv.invitee_id == b) ≡ true = ground (arith, hit) in
      let waits : (inv.status == invitation_pending) ≡ true =
        (eq_iff inv.status invitation_pending).1 pending in
      let done = iup.update_one-none (between a b) (set_status invitation_accepted) s.invitations in
      let s' : Stores R I = record s {
        invitations =
            (ic.update_one (between a b) (set_status invitation_accepted) s.invitations).1;
      } in
      let (id, answer, kept, room) = accept_room-HasRoom inv fresh now s' in
      (
        id,
        rw (found, execute_accept) (rw (mine, waits, accept_found) (rw done answer)),
        rw (found, execute_accept) (rw (mine, waits, accept_found) (rw done room)),
        rw (found, execute_accept)
            (rw (mine, waits, accept_found)
              (rw done (
                rw kept (
                  rw
                    (ilaws.update_one-eq (between a b) (set_status invitation_accepted)
                      s.invitations done)
                    (find?-update_first_self (between a b) (set_status invitation_accepted)
                      (between_self a b invitation_accepted) (idocs s.invitations) inv there))))),
      )

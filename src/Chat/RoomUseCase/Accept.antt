-- ===== src/Chat/RoomUseCase/Accept.antt =====
-- Invitations: from the invitation of two members to their private room, and the acceptance that
-- cannot be repeated.
use streaming_video_service.Prelude.{
  ℕ, String, ◌≡◌, refl, sym, ap, ◌∙◌, true, ◌==◌, ==_self, eq_iff, none, some, eq_of_some, List,
  arith, find?, find?-update_first_self, find?-pass,
}
use streaming_video_service.Golang.{Error, Result, ok, err}
use streaming_video_service.Mongo.{Collection, Documented, Available}
use streaming_video_service.Chat.Domain.{
  ChatRoom, PrivateChatInvitation, invitation_pending, invitation_accepted,
}
use streaming_video_service.Chat.Repository.Room.{is_private_room_of, mongo_room_repository}
use streaming_video_service.Chat.Repository.Invitation.{
  between, set_status, mongo_invitation_repository,
}
use streaming_video_service.Chat.RoomUseCase.{
  Stores, private_room, create, execute_invite, accept_room, accept_found, execute_accept,
}
use streaming_video_service.Chat.RoomUseCase.Join.{over_mongo}
use streaming_video_service.Chat.RoomUseCase.PrivateRoom.{
  invitation, between_self, HasRoom, accept_refused, execute_invite-sent, execute_accept-HasRoom,
}

module _ {R I : Type 0} (c : Collection R ChatRoom) (docs : R → List ChatRoom)
    (laws : Documented c docs) (up : Available c docs) (ic : Collection I PrivateChatInvitation)
    (idocs : I → List PrivateChatInvitation) (ilaws : Documented ic idocs)
    (iup : Available ic idocs) where
  -- With the database up, and no invitation from `a` to `b` yet: an invitation is sent, under the
  -- fresh id. When `b` accepts it, the answer is the id of a private room of the two in the
  -- collection, the one they had or a new one. The invitation is accepted then, so accepting it once
  -- more is refused and changes nothing.
  pub execute_invite-execute_accept :
      (a b fresh fresh' fresh2 : String) (now now' now2 : ℕ) (s : Stores R I)
      → find? (between a b) (idocs s.invitations) ≡ none
      → let (sent, s₁) = execute_invite (over_mongo c ic) a b fresh now s in
        let (answer, s₂) = execute_accept (over_mongo c ic) a b fresh' now' s₁ in
        (sent ≡ ok fresh)
        × ((id : String) × (answer ≡ ok id) × HasRoom docs a b id s₂.rooms)
        × (execute_accept (over_mongo c ic) a b fresh2 now2 s₂ ≡ (err "invitation not pending", s₂))
  execute_invite-execute_accept a b fresh fresh' fresh2 now now' now2 s none_yet =
      let (sent, _, there) =
        execute_invite-sent c docs laws up ic idocs ilaws iup a b fresh now s none_yet in
      let inv = invitation a b fresh now in
      let s₁ : Stores R I = (execute_invite (over_mongo c ic) a b fresh now s).1 in
      let s₂ : Stores R I = (execute_accept (over_mongo c ic) a b fresh' now' s₁).1 in
      let (id, answer, room, marked) =
        execute_accept-HasRoom c docs laws up ic idocs ilaws iup a b fresh' now' inv s₁ there
          refl in
      (
        sent,
        (id, answer, room),
        accept_refused c ic a b fresh2 now2 (set_status invitation_accepted inv) s₂
            (iup.find_one-some (between a b) s₂.invitations (set_status invitation_accepted inv)
              marked)
            (ground (arith, ==_self a, ==_self b)) refl,
      )

-- The acceptance of a pending invitation whose room is not found and cannot be stored.
accept_fails :
    {R I : Type 0} (c : Collection R ChatRoom) (ic : Collection I PrivateChatInvitation)
    (a b fresh : String) (now : ℕ) (inv : PrivateChatInvitation) (s : Stores R I) (m m' : Error)
    → ic.find_one (between a b) s.invitations ≡ ok inv
    → between a b inv ≡ true
    → inv.status ≡ invitation_pending
    → (ic.update_one (between a b) (set_status invitation_accepted) s.invitations).0 ≡ none
    → c.find_one (is_private_room_of inv.inviter_id inv.invitee_id) s.rooms ≡ err m'
    → (c.insert_one (private_room inv fresh now) s.rooms).0 ≡ some m
    → execute_accept (over_mongo c ic) a b fresh now s ≡ (
      err m,
      record {
        rooms = (c.insert_one (private_room inv fresh now) s.rooms).1;
        invitations =
            (ic.update_one (between a b) (set_status invitation_accepted) s.invitations).1;
      },
    )
unfolding execute_accept accept_found accept_room create mongo_invitation_repository
    mongo_room_repository
accept_fails c ic a b fresh now inv s m m' found hit pending done missing failed =
    let mine : (inv.invitee_id == b) ≡ true = ground (arith, hit) in
    let waits : (inv.status == invitation_pending) ≡ true =
      (eq_iff inv.status invitation_pending).1 pending in
    rw (found, execute_accept)
      (rw (mine, waits, accept_found) (rw done (rw (missing, accept_room) (rw failed))))

module _ {R I : Type 0} (c : Collection R ChatRoom) (ic : Collection I PrivateChatInvitation)
    (idocs : I → List PrivateChatInvitation) (ilaws : Documented ic idocs) where
  -- The status is written before the room: when the room of a pending invitation is not found and
  -- cannot be stored, the acceptance gives that error, and from then on, as long as the invitations
  -- stay as they are and are found, every further acceptance is refused.
  pub execute_accept_stuck :
      (a b fresh : String) (now : ℕ) (inv : PrivateChatInvitation) (s : Stores R I) (m m' : Error)
      → ic.find_one (between a b) s.invitations ≡ ok inv
      → inv.status ≡ invitation_pending
      → (ic.update_one (between a b) (set_status invitation_accepted) s.invitations).0 ≡ none
      → c.find_one (is_private_room_of inv.inviter_id inv.invitee_id) s.rooms ≡ err m'
      → (c.insert_one (private_room inv fresh now) s.rooms).0 ≡ some m
      → let (answer, s') = execute_accept (over_mongo c ic) a b fresh now s in
        (answer ≡ err m)
        × ((fresh2 : String) (now2 : ℕ) (later : Stores R I) (inv' : PrivateChatInvitation)
            → later.invitations ≡ s'.invitations
            → ic.find_one (between a b) later.invitations ≡ ok inv'
            → execute_accept (over_mongo c ic) a b fresh2 now2 later
              ≡ (err "invitation not pending", later))
  execute_accept_stuck a b fresh now inv s m m' found pending done missing failed =
      let there = ilaws.find_one-eq (between a b) s.invitations inv found in
      let hit = find?-pass (between a b) (idocs s.invitations) inv there in
      let marked =
        ilaws.update_one-eq (between a b) (set_status invitation_accepted) s.invitations done in
      let kept =
        find?-update_first_self (between a b) (set_status invitation_accepted)
          (between_self a b invitation_accepted) (idocs s.invitations) inv there in
      let fails =
        accept_fails c ic a b fresh now inv s m m' found hit pending done missing failed in
      (
        ap (λ (out : Result String × Stores R I). out.0) fails,
        λ fresh2 now2 later inv' same again.
            let same' = same ∙ ap (λ (out : Result String × Stores R I). out.1.invitations) fails in
            let then_ = ilaws.find_one-eq (between a b) later.invitations inv' again in
            let known : inv' ≡ set_status invitation_accepted inv = eq_of_some (
              sym then_
              ∙ ap (λ i. find? (between a b) (idocs i)) same'
              ∙ ap (find? (between a b)) marked
              ∙ kept) in
            accept_refused c ic a b fresh2 now2 inv' later again
              (find?-pass (between a b) (idocs later.invitations) inv' then_)
              (ap (λ (i : PrivateChatInvitation). i.status) known),
      )

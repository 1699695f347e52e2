-- ===== src/Chat/Repository/Room/Write.antt =====
-- What `UpdateRoom` leaves in the collection: the `$set` of a whole room that was found by its id.
use streaming_video_service.Prelude.{
  String, ◌≡◌, sym, ap, subst, ◌∙◌, ◌≢◌, true, false, eq_iff, ==_self, ==_of_ne, none, some, List,
  arith, find?, find?-update_first_self, find?-update_first_ne, find?-pass,
}
use streaming_video_service.Mongo.{Collection, Documented}
use streaming_video_service.Chat.Domain.{ChatRoom}
use streaming_video_service.Chat.Repository.Room.{has_id, set_room, set_list}

-- A room that was found and written back with another member list: all its other fields stay.
pub set_room-members :
    (room : ChatRoom) (members : List String)
    → set_room (record room { members = members }) room
      ≡ record room { members = set_list members room.members }
set_room-members room members = ground arith

-- The id of a room that was found.
pub find?-id :
    (id : String) (l : List ChatRoom) (room : ChatRoom)
    → find? (has_id id) l ≡ some room
    → room.id ≡ id
find?-id id l room found = (eq_iff room.id id).0 (find?-pass (has_id id) l room found)

set_room-id : (new x : ChatRoom) → has_id new.id x ≡ true → has_id new.id (set_room new x) ≡ true
set_room-id new x h = ground (arith, h, ==_self new.id)

-- The change of one room leaves a room under another id.
set_room-apart :
    (new : ChatRoom) (j : String)
    → new.id ≢ j
    → (x : ChatRoom) → has_id new.id x ≡ true
    → (has_id j x ≡ false) × (has_id j (set_room new x) ≡ false)
set_room-apart new j ne x h = (
  ==_of_ne x.id j (λ e. ne (sym ((eq_iff x.id new.id).0 h) ∙ e)),
  ==_of_ne (set_room new x).id j (λ e. ne (ground (arith, eq_iff x.id new.id, e, h))),
)

module _ {R : Type 0} (c : Collection R ChatRoom) (docs : R → List ChatRoom)
    (laws : Documented c docs) where
  -- The write of a room that was found by its id, with another member list.
  pub update_room-find :
      (id : String) (members : List String) (room : ChatRoom) (r : R)
      → find? (has_id id) (docs r) ≡ some room
      → (c.update_one (has_id room.id) (set_room (record room { members = members })) r).0 ≡ none
      → find?
          (has_id id)
          (docs (c.update_one (has_id room.id) (set_room (record room { members = members })) r).1)
        ≡ some (record room { members = set_list members room.members })
  update_room-find id members room r found done =
      let new : ChatRoom = record room { members = members } in
      let same : room.id ≡ id = find?-id id (docs r) room found in
      let found' : find? (has_id room.id) (docs r) ≡ some room =
        subst (λ k. find? (has_id k) (docs r) ≡ some room) (sym same) found in
      subst
        (λ k.
          find? (has_id k) (docs (c.update_one (has_id room.id) (set_room new) r).1)
          ≡ some (record room { members = set_list members room.members }))
        same
        (rw (laws.update_one-eq (has_id room.id) (set_room new) r done) (
          find?-update_first_self (has_id room.id) (set_room new) (set_room-id new) (docs r) room
            found'
          ∙ ap some (set_room-members room members)))

  -- It leaves every other room as it was.
  pub update_room-find_ne :
      (new : ChatRoom) (j : String) (r : R)
      → new.id ≢ j
      → (c.update_one (has_id new.id) (set_room new) r).0 ≡ none
      → find? (has_id j) (docs (c.update_one (has_id new.id) (set_room new) r).1)
        ≡ find? (has_id j) (docs r)
  update_room-find_ne new j r ne done =
      rw (laws.update_one-eq (has_id new.id) (set_room new) r done) (
        find?-update_first_ne (has_id new.id) (has_id j) (set_room new) (set_room-apart new j ne)
          (docs r))

-- ===== src/Chat/Repository/Room.antt =====
-- internal/chat/repository/room_repository.go
pub mod Write
use streaming_video_service.Prelude.{
  ℕ, String, Bool, true, false, ◌&&◌, ◌==◌, Option, none, some, List, [], ◌∷◌, if◌then◌else◌,
  nat_beq,
}
use streaming_video_service.Golang.{Error, Result, ok, err}
use streaming_video_service.Mongo.{Collection}
use streaming_video_service.Contains.{contains}
use streaming_video_service.Chat.Domain.{ChatRoom, chat_room_type_private}

-- `RoomRepository`; a nil room without an error is `ok none`.
pub record RoomRepository (R : Type 0) : Type 0 where
  pub create_room : ChatRoom → R → Option Error × R
  pub find_by_id : String → R → Result (Option ChatRoom)
  pub update_room : ChatRoom → R → Option Error × R
  pub find_one_private_room : String → String → R → Result (Option ChatRoom)

-- The filter `{"_id": id}`.
abbrev pub has_id : String → ChatRoom → Bool
has_id id room = room.id == id

-- The filter of `FindOnePrivateRoom`: `$all` asks for both members.
abbrev pub is_private_room_of : String → String → ChatRoom → Bool
is_private_room_of a b room =
    room.room_type == chat_room_type_private && (contains room.members a && contains room.members b)

-- A field marked `omitempty` is left out of the `$set` when it is empty, and keeps its old value.
abbrev pub set_text : String → String → String
set_text new old = if new == "" then old else new

abbrev pub set_list : List String → List String → List String
set_list [] old = old
set_list (x ∷ xs) old = x ∷ xs

-- `{"$set": room}` on a stored room, by the bson tags of `ChatRoom`.
abbrev pub set_room : ChatRoom → ChatRoom → ChatRoom
set_room new old = record {
  id = set_text new.id old.id;
  room_type = new.room_type;
  name = set_text new.name old.name;
  members = set_list new.members old.members;
  admins = set_list new.admins old.admins;
  join_mode = set_text new.join_mode old.join_mode;
  password = set_text new.password old.password;
  is_private = new.is_private;
  is_invite = new.is_invite;
  created_at = if nat_beq new.created_at 0 then old.created_at else new.created_at;
}

-- `FindOne(...).Decode(&room)`: nil and the error, or the room.
abbrev pub decoded : {D : Type 0} → Result D → Result (Option D)
decoded (ok d) = ok (some d)
decoded (err e) = err e

-- `chatRepository`
unfoldable pub mongo_room_repository : {R : Type 0} → Collection R ChatRoom → RoomRepository R
mongo_room_repository c = record {
  create_room = λ room r. c.insert_one room r;
  find_by_id = λ id r. decoded (c.find_one (has_id id) r);
  update_room = λ room r. c.update_one (has_id room.id) (set_room room) r;
  find_one_private_room = λ a b r. decoded (c.find_one (is_private_room_of a b) r);
}

-- ===== src/Tests/Rooms.antt =====
-- The room use case on a collection in memory.
use streaming_video_service.Prelude.{
  true, ℕ, String, ◌≡◌, refl, ◌≢◌, false, eq_iff, some, List, [], ◌∷◌, find?, All, map,
}
use streaming_video_service.Golang.{ok, err}
use streaming_video_service.Contains.{contains, without}
use streaming_video_service.Mongo.Sample.{
  sample, sample-Documented, sample-Available, all_docs, broken,
}
use streaming_video_service.Chat.Domain.{ChatRoom, PrivateChatInvitation}
use streaming_video_service.Chat.Repository.Room.{has_id, mongo_room_repository}
use streaming_video_service.Chat.Repository.Invitation.{between}
use streaming_video_service.Chat.RoomUseCase.{
  Stores, join_room, exit_room, execute_invite, execute_accept, join_members, execute_room,
}
use streaming_video_service.Chat.RoomUseCase.Join.{over_mongo, joined, MayJoin, join_room-MayJoin}
use streaming_video_service.Chat.RoomUseCase.Exit.{exit_room-contains, exit_room_last}
use streaming_video_service.Chat.RoomUseCase.Calls.{RoomCall, step, creates, joins, exits, run}
use streaming_video_service.Chat.RoomUseCase.Soundness.{IsSound}
use streaming_video_service.Chat.RoomUseCase.Distinct.{run-AllSound}
use streaming_video_service.Chat.RoomUseCase.PrivateRoom.{HasRoom, invitation}
use streaming_video_service.Chat.RoomUseCase.Accept.{
  execute_invite-execute_accept, execute_accept_stuck,
}

-- A group of two that asks for a password, and one of one member.
abbrev club : ChatRoom
club = record {
  id = "r1";
  room_type = "group";
  name = "club";
  members = "ann" ∷ "bob" ∷ [];
  admins = "ann" ∷ [];
  join_mode = "password";
  password = "secret";
  is_private = false;
  is_invite = false;
  created_at = 1;
}

abbrev solo : ChatRoom
solo = record club { id = "r2"; members = "ann" ∷ [] }

abbrev stores : Stores (List ChatRoom) (List PrivateChatInvitation)
stores = record { rooms = club ∷ solo ∷ []; invitations = [] }

join_room-MayJoin_example :
    let after = (join_room (over_mongo sample sample) "r1" "eve" "secret" stores).1.rooms in
    (room : ChatRoom) × (find? (has_id "r1") stores.rooms ≡ some room)
    × MayJoin room "secret"
    × (find? (has_id "r1") after ≡ some (record room { members = joined room "eve" }))
    × ((j : String) → "r1" ≢ j → find? (has_id j) after ≡ find? (has_id j) stores.rooms)
unfolding join_room join_members mongo_room_repository sample
join_room-MayJoin_example =
    join_room-MayJoin sample all_docs sample-Documented sample "r1" "eve" "secret" stores refl

ann-ne-bob : ◌≢◌ {A = String} "ann" "bob"
ann-ne-bob e = cc ((eq_iff "ann" "bob").1 e)

exit_room-contains_example :
    let after = (exit_room (over_mongo sample sample) "r1" "ann" stores).1.rooms in
    (members : List String) × (find? (has_id "r1") after ≡ some (record club { members = members }))
    × (contains members "ann" ≡ false)
    × ((v : String) → "ann" ≢ v → contains members v ≡ contains club.members v)
    × ((j : String) → "r1" ≢ j → find? (has_id j) after ≡ find? (has_id j) stores.rooms)
unfolding exit_room mongo_room_repository sample contains
exit_room-contains_example =
    exit_room-contains sample all_docs sample-Documented sample "r1" "ann" "bob" stores club refl
      ann-ne-bob refl refl

exit_room_last_example :
    (after : ChatRoom) × (find?
        (has_id "r2")
        (exit_room (over_mongo sample sample) "r2" "ann" stores).1.rooms
      ≡ some after)
    × (after ≡ solo)
    × (contains after.members "ann" ≡ true)
unfolding exit_room mongo_room_repository sample without contains
exit_room_last_example =
    exit_room_last sample all_docs sample-Documented sample "r2" "ann" stores solo refl refl refl
      refl

abbrev calls : List RoomCall
calls =
    joins "r1" "eve" "secret"
    ∷ exits "r1" "bob"
    ∷ creates "group" "new" "bob" "open" "" false "r3" 7
    ∷ joins "r3" "eve" ""
    ∷ joins "r3" "eve" ""
    ∷ []

run-AllSound_example : All IsSound (run (over_mongo sample sample) calls stores).rooms
unfolding contains
run-AllSound_example =
    run-AllSound sample all_docs sample-Documented sample calls stores
      (λ _. (refl, (refl, tt)), (λ _. (refl, tt), tt))

-- Joining twice adds the user once.
run-calls :
    map (λ (room : ChatRoom). room.members) (run (over_mongo sample sample) calls stores).rooms
    ≡ ("ann" ∷ "eve" ∷ []) ∷ ("ann" ∷ []) ∷ ("bob" ∷ "eve" ∷ []) ∷ []
unfolding run step join_room exit_room execute_room join_members mongo_room_repository sample
    without
run-calls = refl

execute_invite-execute_accept_example :
    let (sent, s₁) = execute_invite (over_mongo sample sample) "ann" "bob" "i1" 5 stores in
    let (answer, s₂) = execute_accept (over_mongo sample sample) "ann" "bob" "r9" 6 s₁ in
    (sent ≡ ok "i1")
    × ((id : String) × (answer ≡ ok id) × HasRoom all_docs "ann" "bob" id s₂.rooms)
    × (execute_accept (over_mongo sample sample) "ann" "bob" "r10" 7 s₂
        ≡ (err "invitation not pending", s₂))
execute_invite-execute_accept_example =
    execute_invite-execute_accept sample all_docs sample-Documented sample-Available sample all_docs
      sample-Documented sample-Available "ann" "bob" "i1" "r9" "r10" 5 6 7 stores refl

abbrev invited : Stores (List ChatRoom) (List PrivateChatInvitation)
invited = record stores { invitations = invitation "ann" "bob" "i1" 5 ∷ [] }

execute_accept_stuck_example :
    let (answer, s') = execute_accept (over_mongo broken sample) "ann" "bob" "r9" 6 invited in
    (answer ≡ err "no reachable servers")
    × ((fresh2 : String) (now2 : ℕ) (later : Stores (List ChatRoom) (List PrivateChatInvitation))
          (inv' : PrivateChatInvitation)
        → later.invitations ≡ s'.invitations
        → sample.find_one (between "ann" "bob") later.invitations ≡ ok inv'
        → execute_accept (over_mongo broken sample) "ann" "bob" fresh2 now2 later
          ≡ (err "invitation not pending", later))
unfolding sample broken
execute_accept_stuck_example =
    execute_accept_stuck broken sample all_docs sample-Documented "ann" "bob" "r9" 6
      (invitation "ann" "bob" "i1" 5) invited "no reachable servers" "no reachable servers" refl
      refl refl refl refl

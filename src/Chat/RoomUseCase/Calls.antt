-- ===== src/Chat/RoomUseCase/Calls.antt =====
-- The calls of the room use case as internal/chat/app/websocket_handler.go makes them, in sequence.
use streaming_video_service.Prelude.{ℕ, String, Bool, false, List, [], ◌∷◌}
use streaming_video_service.Chat.RoomUseCase.{
  Stores, RoomUseCase, execute_room, join_room, exit_room, execute_invite, execute_accept,
}

-- The calls that the websocket handler makes: a room is created with its creator as only member.
pub data RoomCall : Type 0 where
  creates : String → String → String → String → String → Bool → String → ℕ → RoomCall
  joins : String → String → String → RoomCall
  exits : String → String → RoomCall
  invites : String → String → String → ℕ → RoomCall
  accepts : String → String → String → ℕ → RoomCall

module _ {R I : Type 0} (uc : RoomUseCase R I) where
  -- What a call leaves behind, failing or not.
  unfoldable pub step : RoomCall → Stores R I → Stores R I
  step (creates room_type name member join_mode password is_private fresh now) s =
      (execute_room uc room_type name (member ∷ []) join_mode password is_private false fresh now
        s).1
  step (joins id user password) s = (join_room uc id user password s).1
  step (exits id user) s = (exit_room uc id user s).1
  step (invites inviter invitee fresh now) s = (execute_invite uc inviter invitee fresh now s).1
  step (accepts inviter user fresh now) s = (execute_accept uc inviter user fresh now s).1

  unfoldable pub run : List RoomCall → Stores R I → Stores R I
  run [] s = s
  run (call ∷ calls) s = run calls (step call s)

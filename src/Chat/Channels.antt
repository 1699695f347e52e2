-- ===== src/Chat/Channels.antt =====
-- The channels that internal/chat/app/websocket_handler.go subscribes to.
use streaming_video_service.Prelude.{String, append_text}

-- In `HandleConnection`: a member's own channel.
unfoldable pub user_channel : String → String
user_channel member = append_text "chat:user:" member

-- In the action `enter_room`: the channel of a room.
unfoldable pub room_channel : String → String
room_channel room_id = append_text "chat:room:" room_id

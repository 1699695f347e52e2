-- ===== src/Chat/Websocket/Notices.antt =====
-- Whether the notices of a message reach the connections of `HandleConnection`.
use streaming_video_service.Prelude.{
  ℕ, String, ◌≡◌, refl, ap, false, ◌==◌, ==_of_ne, some, List, [], ◌∷◌, ◌++◌, All, arith,
}
use Prim.Native.String.{count}
use text.Mathlib.TextLemmas.{length-append}
use streaming_video_service.Golang.{ok, returned}
use streaming_video_service.Contains.{contains}
use streaming_video_service.Chat.Domain.{ChatRoom}
use streaming_video_service.Chat.Channels.{user_channel}
use streaming_video_service.Chat.MessageUseCase.{Stores, execute}
use streaming_video_service.Chat.MessageUseCase.Deliver.{
  Sent, Publishes, delivered, execute-delivered,
}
use streaming_video_service.Chat.Websocket.{Hub, ChatWebsocketHandler, handle_connection}

-- Ids of one length, as UUIDs have it.
abbrev pub HasLength : ℕ → String → Type 0
HasLength n id = count id ≡ n

-- The channel of a member has ten characters more than the id, and so is no id.
user_channel-ne :
    (n : ℕ) (member listener : String)
    → HasLength n member
    → HasLength n listener
    → (member == user_channel listener) ≡ false
unfolding user_channel
user_channel-ne n member listener m l =
    ==_of_ne member (user_channel listener)
      (λ e. absurd (omega (arith, ap count e, length-append "chat:user:" listener, m, l)))

contains-user_channel :
    (n : ℕ) (listener : String) (members : List String)
    → HasLength n listener
    → All (HasLength n) members
    → contains members (user_channel listener) ≡ false
unfolding contains
contains-user_channel n listener [] l h = refl
contains-user_channel n listener (m ∷ members) l (one, h) =
    ground (arith, user_channel-ne n m listener one l, contains-user_channel n listener members l h)

module _ {R I M P : Type 0} (h : ChatWebsocketHandler R I M P) (sent : P → Sent)
    (laws : Publishes h.message_uc.member_pub_sub sent) where
  -- `HandleConnection` of a member that sends no request subscribes to one channel. Where the ids of the
  -- members of a room and of this member have one length, as UUIDs have it, an `Execute` that answers
  -- with an id delivers nothing to this channel, also when the member is in the room.
  pub handle_connection-execute :
      (conn : ℕ) (listener : String) (hub : Hub R I M P)
      (room_id sender content today fresh : String) (now n : ℕ) (s s' : Stores R M P) (id : String)
      (room : ChatRoom)
      → execute h.message_uc room_id sender content today fresh now s ≡ returned (ok id, s')
      → h.message_uc.room_repo.find_by_id room_id s.rooms ≡ ok (some room)
      → All (HasLength n) room.members
      → HasLength n listener
      → (channel : String) × (connected : Hub R I M P) × (handle_connection h conn listener [] hub
          ≡ returned connected)
        × (connected.subscribed ≡ hub.subscribed ++ channel ∷ [])
        × (delivered channel (sent s'.pub_sub) ≡ delivered channel (sent s.pub_sub))
  unfolding handle_connection
  handle_connection-execute conn listener hub room_id sender content today fresh now n s s' id room
        done here ids mine =
      (
        user_channel listener,
        _,
        refl,
        refl,
        execute-delivered h.message_uc sent laws room_id sender content today fresh now s s' id
            listener room done here (contains-user_channel n listener room.members mine ids),
      )

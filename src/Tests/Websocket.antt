-- ===== src/Tests/Websocket.antt =====
-- The websocket handler and the reading of messages, on collections in memory.
use streaming_video_service.Prelude.{
  ℕ, ◌+◌, String, ◌≡◌, refl, ◌↔◌, false, ◌==◌, ltb, none, some, List, [], ◌∷◌, ◌++◌, length, find?,
  select,
}
use streaming_video_service.Golang.{Result, ok, returned, panicked}
use streaming_video_service.Contains.{contains}
use streaming_video_service.Mongo.Sample.{sample, sample-Documented, all_docs}
use streaming_video_service.Chat.Domain.{
  ChatRoom, ChatMessage, MessageBucket, PrivateChatInvitation, RoomUnreadInfo,
}
use streaming_video_service.Chat.Channels.{room_channel}
use streaming_video_service.Chat.Repository.Message.{
  of_day, first_unread, has_unread, sent_before, find_earliest_unread_in, find_messages_before_in,
  mongo_chat_message_repository,
}
use streaming_video_service.Chat.Repository.Message.Reading.{
  IsEarliest, find_earliest_unread-IsEarliest, find_messages_before-select,
}
use streaming_video_service.Chat.Repository.PubSub.{PubSubRepository}
use streaming_video_service.Chat.RoomUseCase.Join.{over_mongo as room_use_case}
use streaming_video_service.Chat.Frames.{WsRequest, WsResponse}
use streaming_video_service.Chat.Websocket.{
  Env, Hub, ChatWebsocketHandler, text_message_action, act,
}
use streaming_video_service.Chat.Websocket.Actions.{IsAnswer, notices, text_message_action-IsAnswer}
use streaming_video_service.Chat.Websocket.Enter.{entering, leaving, text_message_action-cancelled}
use streaming_video_service.Chat.Websocket.Panics.{over_mongo_handler, text_message_action-panicked}

abbrev Published : Type 0
Published = List (String × ChatMessage)

abbrev recorder : PubSubRepository Published
recorder = record { publish = λ channel msg p. (none, p ++ (channel, msg) ∷ []) }

abbrev day : ℕ → String
day t = "2025-01-23"

abbrev no_counts : String → List MessageBucket → Result (List RoomUnreadInfo)
no_counts user m = ok []

abbrev handler :
    ChatWebsocketHandler (List ChatRoom) (List PrivateChatInvitation) (List MessageBucket) Published
handler = over_mongo_handler (room_use_case sample sample) sample sample day no_counts recorder

abbrev env : Env
env = record { fresh = "n1"; now = 20; today = "2025-01-23" }

abbrev request : WsRequest
request = record {
  action = "dance";
  room_type = "group";
  room_name = "club";
  members = [];
  join_mode = "open";
  password = "";
  room_id = "r1";
  inviter_id = "";
  invitee_id = "";
  content = "hello";
  message_id = "";
  is_private = false;
}

abbrev hello : ChatMessage
hello = record {
  id = "m1";
  sender_id = "ann";
  content = "hello";
  timestamp = 10;
  read_by = "ann" ∷ [];
}

abbrev today : MessageBucket
today = record { room_id = "r1"; date = "2025-01-23"; messages = hello ∷ [] }

abbrev hub : Hub (List ChatRoom) (List PrivateChatInvitation) (List MessageBucket) Published
hub = record {
  rooms = [];
  invitations = [];
  messages = today ∷ [];
  pub_sub = [];
  room_ctx = none;
  subscribed = [];
  cancelled = [];
  frames = [];
}

abbrev unknown_answer : WsResponse
unknown_answer = record { action = "dance"; success = false; payload = []; error = "" }

text_message_action-IsAnswer_example :
    (resp : WsResponse) × IsAnswer request resp
    × (hub.frames ++ notices 7 "dance" ++ (7, unknown_answer) ∷ []
        ≡ (hub.frames ++ notices 7 "dance") ++ (7, resp) ∷ [])
unfolding text_message_action act
text_message_action-IsAnswer_example =
    text_message_action-IsAnswer handler 7 "ann" request env hub
      (record hub { frames = hub.frames ++ notices 7 "dance" ++ (7, unknown_answer) ∷ [] }) refl

text_message_action-panicked_example :
    (text_message_action handler 7 "ann" (ok (leaving request)) env hub ≡ panicked)
    ↔ (((leaving request).action ≡ "leave_room") × (hub.room_ctx ≡ none))
text_message_action-panicked_example =
    text_message_action-panicked (room_use_case sample sample) sample sample day no_counts recorder
      7 "ann" (leaving request) env hub

text_message_action-cancelled_example :
    let H = Hub (List ChatRoom) (List PrivateChatInvitation) (List MessageBucket) Published in
    (hub₁ : H) × (hub₂ : H) × (hub₃ : H) × (text_message_action handler 7 "ann"
        (ok (entering request))
        env
        hub
      ≡ returned hub₁)
    × (text_message_action handler 8 "bob" (ok (entering request)) env hub₁ ≡ returned hub₂)
    × (text_message_action handler 7 "ann" (ok (leaving request)) env hub₂ ≡ returned hub₃)
    × (hub₃.subscribed ≡ hub.subscribed ++ room_channel "r1" ∷ room_channel "r1" ∷ [])
    × (hub₃.cancelled ≡ hub.cancelled ++ (length hub.subscribed + 1) ∷ [])
text_message_action-cancelled_example =
    text_message_action-cancelled handler 7 8 "ann" "bob" request request request env env env hub

find_earliest_unread-IsEarliest_example :
    (bs : List MessageBucket) × (sample.find_sorted
        (λ b. b.room_id == "r1")
        (λ b. b.date)
        (today ∷ [])
      ≡ ok bs)
    × IsEarliest "bob" bs (some today)
unfolding mongo_chat_message_repository find_earliest_unread_in first_unread has_unread contains
    sample
find_earliest_unread-IsEarliest_example =
    find_earliest_unread-IsEarliest sample day no_counts "bob" "r1" (today ∷ []) (some today) refl

find_messages_before-select_example :
    (b : MessageBucket) × (find? (of_day "r1" (day 20)) (today ∷ []) ≡ some b)
    × (hello ∷ [] ≡ select (λ (x : ChatMessage). ltb x.timestamp 20) b.messages)
unfolding mongo_chat_message_repository find_messages_before_in sent_before sample
find_messages_before-select_example =
    find_messages_before-select sample day no_counts all_docs sample-Documented "r1" 20 (today ∷ [])
      (hello ∷ []) refl

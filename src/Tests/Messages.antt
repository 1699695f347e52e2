-- ===== src/Tests/Messages.antt =====
-- The message use case on a collection in memory and a publisher that records what it is given.
use streaming_video_service.Prelude.{
  ℕ, suc, String, ◌≡◌, refl, ◌≢◌, false, inl, none, some, List, [], ◌∷◌, ◌++◌, find?, map,
}
use streaming_video_service.Golang.{Result, ok, returned}
use streaming_video_service.Contains.{contains, without}
use streaming_video_service.Mongo.Sample.{
  sample, sample-Documented, sample-Available, all_docs, blind, blind-Documented,
}
use streaming_video_service.Chat.Domain.{
  ChatRoom, ChatMessage, MessageBucket, RoomUnreadInfo, PrivateChatInvitation,
}
use streaming_video_service.Chat.RoomUseCase.Join.{over_mongo as room_use_case}
use streaming_video_service.Chat.Websocket.{Hub, ChatWebsocketHandler, handle_connection}
use streaming_video_service.Chat.Websocket.Notices.{handle_connection-execute}
use streaming_video_service.Chat.Repository.Room.{mongo_room_repository}
use streaming_video_service.Chat.Repository.Message.{of_day, mongo_chat_message_repository}
use streaming_video_service.Chat.Repository.PubSub.{PubSubRepository}
use streaming_video_service.Chat.MessageUseCase.{
  Stores, SendMessageUseCase, new_message, save_message, execute, mark_read,
}
use streaming_video_service.Chat.MessageUseCase.Marking.{unread, over_mongo, mark_read-unread}
use streaming_video_service.Chat.MessageUseCase.Deliver.{Sent, Publishes, delivered, execute-sent}
use streaming_video_service.Chat.MessageUseCase.Buckets.{
  messages_of, execute-messages, execute_hidden, save_message_lost,
}

abbrev recorder : PubSubRepository Sent
recorder = record { publish = λ channel msg p. (none, p ++ (channel, msg) ∷ []) }

abbrev recorded : Sent → Sent
recorded p = p

recorder-Publishes : Publishes recorder recorded
recorder-Publishes = record {
  publish-sent = λ channel msg p e. refl;
  publish-or = λ channel msg p. inl refl;
}

abbrev room : ChatRoom
room = record {
  id = "r1";
  room_type = "group";
  name = "club";
  members = "ann" ∷ "bob" ∷ "eve" ∷ [];
  admins = "ann" ∷ [];
  join_mode = "open";
  password = "";
  is_private = false;
  is_invite = false;
  created_at = 1;
}

abbrev hello : ChatMessage
hello = new_message "m1" "ann" "hello" 10

abbrev today : MessageBucket
today = record { room_id = "r1"; date = "2025-01-23"; messages = hello ∷ [] }

abbrev stores : Stores (List ChatRoom) (List MessageBucket) Sent
stores = record { rooms = room ∷ []; messages = today ∷ []; pub_sub = [] }

abbrev day : ℕ → String
day t = "2025-01-23"

abbrev no_counts : String → List MessageBucket → Result (List RoomUnreadInfo)
no_counts user m = ok []

abbrev uc : SendMessageUseCase (List ChatRoom) (List MessageBucket) Sent
uc = over_mongo sample sample day no_counts recorder

abbrev hi : ChatMessage
hi = new_message "m2" "bob" "hi" 11

abbrev after_hi : Stores (List ChatRoom) (List MessageBucket) Sent
after_hi = record stores {
  messages = record today { messages = hello ∷ hi ∷ [] } ∷ [];
  pub_sub = ("ann", hi) ∷ ("eve", hi) ∷ [];
}

execute-hi : execute uc "r1" "bob" "hi" "2025-01-23" "m2" 11 stores ≡ returned (ok "m2", after_hi)
unfolding execute mongo_room_repository mongo_chat_message_repository sample
execute-hi = refl

mark_read-unread_example :
    let after = (mark_read uc "r1" "m1" "bob" "2025-01-23" stores).1 in
    (bucket : MessageBucket) × (marked : List ChatMessage) × (find?
        (of_day "r1" "2025-01-23")
        stores.messages
      ≡ some bucket)
    × (find? (of_day "r1" "2025-01-23") after.messages ≡ some (record bucket { messages = marked }))
    × (suc (unread "bob" marked) ≡ unread "bob" bucket.messages)
    × ((other : String) → "bob" ≢ other → unread other marked ≡ unread other bucket.messages)
    × ((mark_read uc "r1" "m1" "bob" "2025-01-23" after).0 ≢ none)
unfolding mark_read mongo_chat_message_repository sample contains
mark_read-unread_example =
    mark_read-unread sample sample all_docs sample-Documented day no_counts recorder "r1" "m1" "bob"
      "2025-01-23" stores refl

execute-sent_example :
    (found : ChatRoom) × (uc.room_repo.find_by_id "r1" stores.rooms ≡ ok (some found))
    × (◌≡◌ {A = String} "m2" "m2")
    × (after_hi.pub_sub
        ≡ stores.pub_sub ++ map (λ (member : String). (member, hi)) (without "bob" found.members))
execute-sent_example =
    execute-sent uc recorded recorder-Publishes "r1" "bob" "hi" "2025-01-23" "m2" 11 stores after_hi
      "m2" (λ channel msg p. refl) execute-hi

abbrev handler :
    ChatWebsocketHandler (List ChatRoom) (List PrivateChatInvitation) (List MessageBucket) Sent
handler = record { room_uc = room_use_case sample sample; message_uc = uc }

abbrev hub : Hub (List ChatRoom) (List PrivateChatInvitation) (List MessageBucket) Sent
hub = record {
  rooms = room ∷ [];
  invitations = [];
  messages = [];
  pub_sub = [];
  room_ctx = none;
  subscribed = [];
  cancelled = [];
  frames = [];
}

handle_connection-execute_example :
    (channel : String) × (connected : Hub
      (List ChatRoom)
      (List PrivateChatInvitation)
      (List MessageBucket)
      Sent)
    × (handle_connection handler 1 "ann" [] hub ≡ returned connected)
    × (connected.subscribed ≡ [] ++ channel ∷ [])
    × (delivered channel after_hi.pub_sub ≡ delivered channel stores.pub_sub)
unfolding mongo_room_repository sample
handle_connection-execute_example =
    handle_connection-execute handler recorded recorder-Publishes 1 "ann" hub "r1" "bob" "hi"
      "2025-01-23" "m2" 11 3 stores after_hi "m2" room execute-hi refl (refl, (refl, (refl, tt)))
      refl

execute-messages_example :
    messages_of (find? (of_day "r1" "2025-01-23") after_hi.messages)
    ≡ messages_of (find? (of_day "r1" "2025-01-23") stores.messages) ++ hi ∷ []
execute-messages_example =
    execute-messages sample sample all_docs sample-Documented day no_counts recorder "r1" "bob" "hi"
      "2025-01-23" "m2" 11 stores after_hi "m2" sample-Available execute-hi

abbrev blind_uc : SendMessageUseCase (List ChatRoom) (List MessageBucket) Sent
blind_uc = over_mongo sample blind day no_counts recorder

abbrev two_buckets : Stores (List ChatRoom) (List MessageBucket) Sent
two_buckets = record after_hi { messages = today ∷ record today { messages = hi ∷ [] } ∷ [] }

execute-blind :
    execute blind_uc "r1" "bob" "hi" "2025-01-23" "m2" 11 stores ≡ returned (ok "m2", two_buckets)
unfolding execute mongo_room_repository mongo_chat_message_repository sample blind
execute-blind = refl

execute_hidden_example :
    (two_buckets.messages ≡ stores.messages ++ record today { messages = hi ∷ [] } ∷ [])
    × (find? (of_day "r1" "2025-01-23") two_buckets.messages ≡ some today)
unfolding blind
execute_hidden_example =
    execute_hidden sample blind all_docs blind-Documented day no_counts recorder "r1" "bob" "hi"
      "2025-01-23" "m2" 11 stores two_buckets "m2" today "i/o timeout" refl refl execute-blind

abbrev bye : ChatMessage
bye = new_message "m3" "eve" "bye" 11

save_message_lost_example :
    (messages_of
        (find? (of_day "r1" "2025-01-23") (record today { messages = hello ∷ hi ∷ [] } ∷ []))
      ≡ today.messages ++ hi ∷ [])
    × (messages_of
          (find? (of_day "r1" "2025-01-23") (record today { messages = hello ∷ bye ∷ [] } ∷ []))
        ≡ today.messages ++ bye ∷ [])
unfolding save_message mongo_chat_message_repository sample
save_message_lost_example =
    save_message_lost sample sample all_docs sample-Documented day no_counts recorder "r1"
      "2025-01-23" hi bye today (today ∷ []) (record today { messages = hello ∷ hi ∷ [] } ∷ [])
      (record today { messages = hello ∷ bye ∷ [] } ∷ []) refl refl refl

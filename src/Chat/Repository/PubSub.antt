-- ===== src/Chat/Repository/PubSub.antt =====
-- internal/chat/repository/pubsub_repostitory.go. Redis is a parameter, and so is the JSON of a
-- message. The goroutine that reads a subscription is the loop over what its `select` takes.
use streaming_video_service.Prelude.{ℕ, String, Option, none, some, List, [], ◌∷◌}
use streaming_video_service.Golang.{Error, Result, ok, err}
use streaming_video_service.Chat.Domain.{ChatMessage}

-- `PubSubRepository.Publish`, at the one type of message that is published.
pub record PubSubRepository (P : Type 0) : Type 0 where
  pub publish : String → ChatMessage → P → Option Error × P

-- `json.Marshal` and `json.Unmarshal` of a `ChatMessage`.
pub record Json : Type 0 where
  pub marshal : ChatMessage → Result String
  pub unmarshal : String → Result ChatMessage

-- `client.Publish(ctx, channel, data).Err()` of go-redis.
pub record RedisPublish (P : Type 0) : Type 0 where
  pub publish : String → String → P → Option Error × P

-- `redisPubSub.Publish`, by the marshalled message.
unfoldable pub publish_data :
    {P : Type 0} → RedisPublish P → String → Result String → P → Option Error × P
publish_data client channel (ok text) p = client.publish channel text p
publish_data client channel (err e) p = (some e, p)

unfoldable pub redis_pub_sub : {P : Type 0} → RedisPublish P → Json → PubSubRepository P
unfolding publish_data
redis_pub_sub client json = record {
  publish = λ channel message p. publish_data client channel (json.marshal message) p;
}

-- The payload of the notification that `Subscribe` hands to its handler.
pub record Notification : Type 0 where
  pub message_id : String
  pub sender_id : String
  pub message : String
  pub timestamp : ℕ

abbrev pub notification_of : ChatMessage → Notification
notification_of m = record {
  message_id = m.id;
  sender_id = m.sender_id;
  message = m.content;
  timestamp = m.timestamp;
}

-- One payload from the channel; one that is no message is logged and dropped.
unfoldable pub receive : Json → String → Option Notification
receive json text = elim (json.unmarshal text) [ ok m ↦ some (notification_of m) | err e ↦ none ]

-- What the `select` of the goroutine takes next: a payload, the end of the channel, or the
-- cancellation of the context, which stays ready.
pub data SubEvent : Type 0 where
  payload : String → SubEvent
  channel_end : SubEvent
  cancelled : SubEvent

abbrev pub handed_on : Option Notification → List Notification → List Notification
handed_on none later = later
handed_on (some n) later = n ∷ later

-- The goroutine of `Subscribe`: the notifications that it hands to its handler. A cancellation closes
-- the subscription and does not end the loop; only the end of the channel does.
unfoldable pub subscription_loop : Json → List SubEvent → List Notification
unfolding receive
subscription_loop json [] = []
subscription_loop json (channel_end ∷ events) = []
subscription_loop json (cancelled ∷ events) = subscription_loop json events
subscription_loop json (payload text ∷ events) =
    handed_on (receive json text) (subscription_loop json events)

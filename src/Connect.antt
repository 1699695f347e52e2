-- ===== src/Connect.antt =====
-- pkg/database: how the services connect to PostgreSQL, RabbitMQ, Kafka and MongoDB, with retries. The
-- clients of these are parameters, with what they change in `W`; the numbers of retries are not
-- negative, and times are nanoseconds.
pub mod Retries
pub mod Waits
pub mod Single
use streaming_video_service.Prelude.{
  ℕ, zero, suc, ◌*◌, ◌^◌, ◌%◌, ltb, if◌then◌else◌, String, ◌⊎◌, inl, inr, Option, none, some, List,
  [], ◌∷◌, join, append_text,
}
use streaming_video_service.Golang.{Error, Result, ok, err}
use streaming_video_service.Streaming.Decimal.{decimal}

-- `Connection`
pub record Connection : Type 0 where
  pub connect_str : String
  pub retry_count : ℕ
  pub retry_interval : ℕ

-- `KafkaConnection`
pub record KafkaConnection : Type 0 where
  pub brokers : List String
  pub topic : String
  pub retry_count : ℕ
  pub retry_interval : ℕ

-- time.Second
abbrev pub nanoseconds : ℕ
nanoseconds = 10 ^ 9

-- `n * time.Second` as a pause: the product of two 64-bit integers wraps around, and a negative one is
-- no pause.
unfoldable pub seconds : ℕ → ℕ
seconds n = let d = (n * nanoseconds) % 2 ^ 64 in if ltb d (2 ^ 63) then d else 0

-- The loop of a connection with `n` attempts left: an attempt that succeeds ends it; after any other,
-- `after_failure` is done, also after the last. What is left is the last error, if there was one.
unfoldable pub attempt_loop :
    {C W : Type 0} → (W → Result C × W) → (W → W) → ℕ → Option Error → W → (C ⊎ Option Error) × W
attempt_loop connect after_failure zero last w = (inr last, w)
attempt_loop connect after_failure (suc n) last w =
    let (r, w') = connect w in
    elim r [
      | ok c ↦ (inl c, w')
      | err e ↦ attempt_loop connect after_failure n (some e) (after_failure w')
    ]

-- `%v` of an error.
abbrev pub shown : Option Error → String
shown none = "<nil>"
shown (some e) = e

-- A connection or an error with a text before the last error.
abbrev pub or_text : {C W : Type 0} → String → (C ⊎ Option Error) × W → Result C × W
or_text text (inl c, w) = (ok c, w)
or_text text (inr last, w) = (err (append_text text (shown last)), w)

-- Both values of the last attempt; `none` if there was none, where both are nil.
abbrev pub last_attempt : {C W : Type 0} → (C ⊎ Option Error) × W → Option (Result C) × W
last_attempt (inl c, w) = (some (ok c), w)
last_attempt (inr none, w) = (none, w)
last_attempt (inr (some e), w) = (some (err e), w)

module _ {C W : Type 0} (sleep : ℕ → W → W) where
  -- `NewPGConnection`, over `gorm.Open`, and `NewDatabaseConnection`, over `pgxpool.ConnectConfig`.
  unfoldable pub new_pg_connection :
      (String → W → Result C × W) → Connection → W → Option (Result C) × W
  unfolding attempt_loop
  new_pg_connection open_db d w =
      last_attempt (
        attempt_loop (open_db d.connect_str) (sleep (seconds d.retry_interval)) d.retry_count none
          w)

  -- `ConnectRabbitMQWithRetry`, over `amqp.Dial`.
  unfoldable pub connect_rabbit_mq_with_retry :
      (String → W → Result C × W) → Connection → W → Result C × W
  unfolding attempt_loop
  connect_rabbit_mq_with_retry dial d w =
      or_text
        (join ("無法連線 RabbitMQ[" ∷ d.connect_str ∷ "]，經過 " ∷ decimal d.retry_count ∷ " 次嘗試: " ∷ []))
        (attempt_loop (dial d.connect_str) (sleep (seconds d.retry_interval)) d.retry_count none w)

  -- `GetRabbitMQChannelWithRetry`, over `Channel` of the connection.
  unfoldable pub get_rabbit_mq_channel_with_retry : (W → Result C × W) → ℕ → ℕ → W → Result C × W
  unfolding attempt_loop
  get_rabbit_mq_channel_with_retry channel max_retries base_delay w =
      or_text (join ("無法取得 RabbitMQ Channel，經過 " ∷ decimal max_retries ∷ " 次嘗試: " ∷ []))
        (attempt_loop channel (sleep (seconds base_delay)) max_retries none w)

-- `kafka.NewWriter`, `WriteMessages` of the ping, and `Close`.
pub record Kafka (C W : Type 0) : Type 0 where
  pub new_writer : List String → String → C
  pub write_ping : C → W → Option Error × W
  pub close : C → W → W

abbrev pub tested : {C W : Type 0} → C → Option Error × W → Result C × W
tested writer (none, w) = (ok writer, w)
tested writer (some e, w) = (err e, w)

-- `NewKafkaWriterWithRetry`
unfoldable pub new_kafka_writer_with_retry :
    {C W : Type 0} → (ℕ → W → W) → Kafka C W → KafkaConnection → W → Result C × W
unfolding attempt_loop
new_kafka_writer_with_retry sleep kafka k w =
    let writer = kafka.new_writer k.brokers k.topic in
    or_text (join ("無法建立 Kafka Writer，經過 " ∷ decimal k.retry_count ∷ " 次嘗試: " ∷ [])) (
      attempt_loop (λ w. tested writer (kafka.write_ping writer w))
        (λ w. sleep (seconds k.retry_interval) (kafka.close writer w)) k.retry_count none w)

-- `mongo.Connect` and `Ping`.
pub record MongoDriver (C W : Type 0) : Type 0 where
  pub connect : String → W → Result C × W
  pub ping : C → W → Option Error × W

-- One round of `NewMongoDB`: connect, then ping.
abbrev pub pinged : {C W : Type 0} → MongoDriver C W → Result C × W → Result C × W
pinged mongo (err e, w) = (err e, w)
pinged mongo (ok client, w) = tested client (mongo.ping client w)

-- The loop of `NewMongoDB`, with a pause before each of the `n` rounds that follow the first.
unfoldable pub mongo_loop :
    {C W : Type 0} → (ℕ → W → W) → MongoDriver C W → Connection → ℕ → W → Result C × W
mongo_loop sleep mongo c zero w =
    let (r, w') = pinged mongo (mongo.connect c.connect_str w) in
    elim r [
      | ok client ↦ (ok client, w')
      | err e ↦ (err (append_text "failed to connect to MongoDB after retries: " e), w')
    ]
mongo_loop sleep mongo c (suc n) w =
    let (r, w') = pinged mongo (mongo.connect c.connect_str w) in
    elim r [
      | ok client ↦ (ok client, w')
      | err e ↦ mongo_loop sleep mongo c n (sleep c.retry_interval w')
    ]

-- `NewMongoDB`: the client; the name of its database is only passed on.
unfoldable pub new_mongo_db :
    {C W : Type 0} → (ℕ → W → W) → MongoDriver C W → Connection → W → Result C × W
unfolding mongo_loop
new_mongo_db sleep mongo c w = mongo_loop sleep mongo c c.retry_count w

-- ===== src/Redis.antt =====
-- pkg/database/redis.go: the repository of values in Redis. The client, go-redis, and JSON are
-- parameters. Durations are nanoseconds.
pub mod Keys
use streaming_video_service.Prelude.{ℕ, ◌/◌, String, Option, some, append_text}
use streaming_video_service.Golang.{Error, Result, ok, err}

abbrev pub second : ℕ
second = 1000000000

-- What the command GET gives: a value, `redis.Nil`, or another error.
pub data Fetched : Type 0 where
  found : String → Fetched
  nil : Fetched
  failed : Error → Fetched

-- The duration that the command TTL gives: negative for a key that is missing or does not expire.
pub data Ttl : Type 0 where
  negative : Ttl
  left : ℕ → Ttl

-- The commands of the client that the repository calls.
pub record RedisClient (S : Type 0) : Type 0 where
  pub set : String → String → ℕ → S → Option Error × S
  pub get : String → S → Fetched
  pub del : String → S → Option Error × S
  pub expire : String → ℕ → S → Option Error × S
  pub ttl : String → S → Result Ttl

-- `RedisRepository[T]`
pub record RedisRepository (S T : Type 0) : Type 0 where
  pub set : String → T → ℕ → S → Option Error × S
  pub get : String → S → Result T
  pub del : String → S → Option Error × S
  pub get_ttl : String → S → Result ℕ
  pub extend_ttl : String → ℕ → S → Option Error × S

-- `json.Marshal` and `json.Unmarshal` at one type.
pub record Codec (T : Type 0) : Type 0 where
  pub marshal : T → Result String
  pub unmarshal : String → Result T

-- `Set`, by the marshalled value.
unfoldable pub set_data :
    {S : Type 0} → RedisClient S → String → ℕ → Result String → S → Option Error × S
set_data client key ttl (ok text) s = client.set key text ttl s
set_data client key ttl (err e) s = (some (append_text "failed to marshal sessionData: " e), s)

pub parsed : {T : Type 0} → Result T → Result T
parsed (ok t) = ok t
parsed (err e) = err (append_text "failed to unmarshal session data: " e)

-- `Get`, by what the client gives.
pub get_data : {T : Type 0} → Codec T → Fetched → Result T
unfolding parsed
get_data json (found text) = parsed (json.unmarshal text)
get_data json nil = err "redis.Nil"
get_data json (failed e) = err (append_text "failed to get session: " e)

-- `GetTTL`, by what the client gives: whole seconds.
pub ttl_seconds : String → Result Ttl → Result ℕ
ttl_seconds key (ok negative) = ok 0
ttl_seconds key (ok (left d)) = ok (d / second)
ttl_seconds key (err e) =
    err (append_text "failed to get TTL for key " (append_text key (append_text ": " e)))

-- `redisRepository`
unfoldable pub redis_repository : {S T : Type 0} → RedisClient S → Codec T → RedisRepository S T
unfolding set_data get_data ttl_seconds
redis_repository client json = record {
  set = λ key value ttl s. set_data client key ttl (json.marshal value) s;
  get = λ key s. get_data json (client.get key s);
  del = λ key s. client.del key s;
  get_ttl = λ key s. ttl_seconds key (client.ttl key s);
  extend_ttl = λ key ttl s. client.expire key ttl s;
}

-- ===== src/Redis/Keys.antt =====
-- What the Redis manual says of the commands that pkg/database/redis.go sends, and what the
-- repository makes of it.
use streaming_video_service.Prelude.{
  ℕ, ◌*◌, ◌/◌, ◌<◌, ◌≤◌, ◌≡◌, ◌≢◌, refl, String, Option, none, some, arith,
}
use streaming_video_service.Golang.{ok}
use streaming_video_service.Redis.{
  second, Ttl, negative, left, RedisClient, Codec, redis_repository, ttl_seconds,
}

-- A key with its value and the time that it has left.
pub record Entry : Type 0 where
  pub value : String
  pub remaining : ℕ

-- The entry with another time to live, if it is there.
abbrev pub extended : ℕ → Option Entry → Option Entry
extended ttl none = none
extended ttl (some e) = some (record e { remaining = ttl })

-- `entry` gives the key that is live. The times to live are whole seconds: fractions are rounded.
pub record Keyed {S : Type 0} (client : RedisClient S) (entry : S → String → Option Entry)
    : Type 0 where
  pub set-entry :
      (key text : String) (n : ℕ) (s : S)
      → 0 < n
      → (client.set key text (n * second) s).0 ≡ none
      → entry (client.set key text (n * second) s).1 key
        ≡ some (record { value = text; remaining = n * second })
  pub set-entry_ne :
      (key other text : String) (ttl : ℕ) (s : S)
      → key ≢ other
      → entry (client.set key text ttl s).1 other ≡ entry s other
  pub del-entry :
      (key : String) (s : S) → (client.del key s).0 ≡ none → entry (client.del key s).1 key ≡ none
  pub expire-entry :
      (key : String) (n : ℕ) (s : S)
      → 0 < n
      → (client.expire key (n * second) s).0 ≡ none
      → entry (client.expire key (n * second) s).1 key ≡ extended (n * second) (entry s key)
  pub ttl-negative :
      (key : String) (s : S) (t : Ttl) → client.ttl key s ≡ ok t → entry s key ≡ none → t ≡ negative
  pub ttl-left :
      (key : String) (s : S) (t : Ttl) (e : Entry)
      → client.ttl key s ≡ ok t
      → entry s key ≡ some e
      → second ≤ e.remaining
      → (n : ℕ) × (0 < n) × (t ≡ left (n * second))

-- Redis answers every command.
pub record Up {S : Type 0} (client : RedisClient S) : Type 0 where
  pub set-none : (key text : String) (ttl : ℕ) (s : S) → (client.set key text ttl s).0 ≡ none
  pub del-none : (key : String) (s : S) → (client.del key s).0 ≡ none
  pub expire-none : (key : String) (ttl : ℕ) (s : S) → (client.expire key ttl s).0 ≡ none
  pub ttl-ok : (key : String) (s : S) → (t : Ttl) × (client.ttl key s ≡ ok t)

seconds-positive : (n : ℕ) → 0 < n → 0 < n * second / second
seconds-positive n h = omega arith

module _ {S T : Type 0} (client : RedisClient S) (json : Codec T)
    (entry : S → String → Option Entry) (laws : Keyed client entry) (up : Up client) where
  -- The key is not there: no time is left.
  pub get_ttl-zero :
      (key : String) (s : S)
      → entry s key ≡ none
      → (redis_repository client json).get_ttl key s ≡ ok 0
  unfolding redis_repository ttl_seconds
  get_ttl-zero key s gone =
      let (t, e) = up.ttl-ok key s in rw (e, laws.ttl-negative key s t e gone) refl

  -- At least a second is left.
  pub get_ttl-positive :
      (key : String) (s : S) (e : Entry)
      → entry s key ≡ some e
      → second ≤ e.remaining
      → (n : ℕ) × (0 < n) × ((redis_repository client json).get_ttl key s ≡ ok n)
  unfolding redis_repository ttl_seconds
  get_ttl-positive key s e there enough =
      let (t, answer) = up.ttl-ok key s in
      let (n, some_left, is) = laws.ttl-left key s t e answer there enough in
      (
        n * second / second,
        seconds-positive n some_left,
        rw (answer, redis_repository) (rw is refl),
      )

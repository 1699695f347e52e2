-- ===== src/Connect/Single.antt =====
-- pkg/database: the connections that are made once, to MinIO, Redis and gRPC.
use streaming_video_service.Prelude.{
  ℕ, String, Bool, true, false, Option, none, some, List, [], ◌∷◌, join, append_text, if◌then◌else◌,
}
use streaming_video_service.Golang.{Error, Result, ok, err, Outcome, returned, panicked}

-- `MinIOConnection`; its numbers for retries are not read.
pub record MinIoConnection : Type 0 where
  pub endpoint : String
  pub user : String
  pub password : String
  pub bucket_name : String
  pub use_ssl : Bool

-- `minio.New`, `BucketExists` and `MakeBucket`.
pub record MinIoServer (C O : Type 0) : Type 0 where
  pub new : MinIoConnection → Result C
  pub bucket_exists : C → String → O → Result Bool
  pub make_bucket : C → String → O → Option Error × O

abbrev pub bucket_error : String → String → String → Error → Error
bucket_error verb name end e = join (verb ∷ " bucket [" ∷ name ∷ "] " ∷ end ∷ ": " ∷ e ∷ [])

-- The bucket, by whether it exists.
unfoldable pub with_bucket :
    {C O : Type 0} → MinIoServer C O → String → C → Result Bool → O → Result C × O
with_bucket server name client (err e) o = (err (bucket_error "檢查" name "失敗" e), o)
with_bucket server name client (ok true) o = (ok client, o)
with_bucket server name client (ok false) o =
    let (e, o') = server.make_bucket client name o in
    elim e [ some m ↦ (err (bucket_error "建立" name "失敗" m), o') | none ↦ (ok client, o') ]

-- `NewMinIOConnection`
unfoldable pub new_minio_connection :
    {C O : Type 0} → MinIoServer C O → MinIoConnection → O → Result C × O
unfolding with_bucket
new_minio_connection server d o = elim (server.new d) [
  | err e ↦ (err (append_text "初始化 MinIO 失敗: " e), o)
  | ok client ↦
      with_bucket server d.bucket_name client (server.bucket_exists client d.bucket_name o) o
]

-- `redis.NewClient`, `redis.NewFailoverClient` and `Ping`.
pub record RedisDriver (C : Type 0) : Type 0 where
  pub new_client : String → ℕ → C
  pub new_failover_client : String → List String → ℕ → C
  pub ping : C → Option Error

abbrev pub answering : {C : Type 0} → RedisDriver C → C → Result C
answering driver client = elim (driver.ping client) [
  | none ↦ ok client
  | some e ↦ err (append_text "failed to connect to redis sentinel: " e)
]

-- `NewRedisClient`, and the client of `NewRedisRepository`, by `IsLocal`.
unfoldable pub new_redis_client :
    {C : Type 0} → RedisDriver C → Bool → String → String → List String → ℕ → Result C
new_redis_client driver is_local master_name local_use sentinel_addrs db = answering driver (
    if is_local
    then driver.new_client local_use db
    else driver.new_failover_client master_name sentinel_addrs db)

-- What the `select` of `CreateGRPCClient` takes next: the end of the five minutes, or a tick, with
-- whether the connection is ready.
pub data PollEvent : Type 0 where
  time_out : PollEvent
  tick : Bool → PollEvent

-- The loop over these events; `none` while it goes on.
unfoldable pub await_ready : {C : Type 0} → C → List PollEvent → Option (Result C)
await_ready client [] = none
await_ready client (time_out ∷ events) =
    some (err "connection did not become READY within 5 minutes")
await_ready client (tick ready ∷ events) =
    let rest = await_ready client events in if ready then some (ok client) else rest

-- `CreateGRPCClient`; where `grpc.Dial` fails, the program ends, which `panicked` stands for.
unfoldable pub create_grpc_client :
    {C : Type 0} → Result C → List PollEvent → Outcome (Option (Result C))
unfolding await_ready
create_grpc_client (err e) events = panicked
create_grpc_client (ok client) events = returned (await_ready client events)

-- ===== src/Tests/Infrastructure.antt =====
-- Configuration, connections and the logger, on small environments.
use streaming_video_service.Prelude.{
  arith, ℕ, ◌+◌, ◌*◌, ◌<◌, ◌≤◌, ◌≡◌, refl, ◌⊎◌, String, Bool, true, false, ◌==◌, Option, none, [],
  ◌∷◌, ◌++◌, join, append_text, if◌then◌else◌, ltb,
}
use streaming_video_service.Golang.{Error, Result, ok, err}
use streaming_video_service.Streaming.Decimal.{decimal}
use streaming_video_service.Golang.FilePath.{file_path_join}
use streaming_video_service.Streaming.UseCase.{temp_path}
use streaming_video_service.Config.{get_path, get_redis_setting}
use streaming_video_service.Config.Paths.{FoundAt, Missing, get_path-FoundAt}
use streaming_video_service.Connect.{
  Connection, nanoseconds, seconds, shown, connect_rabbit_mq_with_retry, MongoDriver, new_mongo_db,
}
use streaming_video_service.Connect.Retries.{Fails, connect_rabbit_mq_with_retry_attempts}
use streaming_video_service.Connect.Waits.{connect_rabbit_mq_with_retry-new_mongo_db}
use streaming_video_service.Logger.{info_level, warn_level, initialize, log, debug_log_flag}
use streaming_video_service.Logger.DebugMode.{lines_of}

abbrev has_file : String → Bool
has_file path = path == "../../.env"

get_path-FoundAt_example :
    ((k : ℕ) × (k ≤ 5) × FoundAt has_file ".env" 0 k (get_path has_file ".env" 5))
    ⊎ Missing has_file ".env" 0 5 (get_path has_file ".env" 5)
get_path-FoundAt_example = get_path-FoundAt has_file ".env" 5

abbrev variable : String → String
variable key =
    if key == "REDIS_SENTINEL1_PORT"
    then "26379"
    else if key == "REDIS_SENTINEL2_PORT"
    then ""
    else ""

-- A sentinel with no port is left out.
two_sentinels :
    get_redis_setting variable
      ("REDIS_SENTINEL1_IP=10.0.0.1" ∷ "REDIS_SENTINEL2_IP=10.0.0.2" ∷ "HOME=/root" ∷ "X" ∷ [])
    ≡ ("mymaster", "10.0.0.1:26379" ∷ [])
unfolding get_redis_setting
two_sentinels = refl

-- The state is a clock.
abbrev pause : ℕ → ℕ → ℕ
pause t w = w + t

abbrev clock : ℕ → ℕ
clock w = w

abbrev dial_down : String → ℕ → Result String × ℕ
dial_down address w = (err "refused", w + 100)

-- A service that comes up at the time 7.
abbrev dial_late : String → ℕ → Result String × ℕ
dial_late address w = (if ltb w 7 then err "refused" else ok "connection", w)

abbrev mongo_down : MongoDriver String ℕ
mongo_down = record { connect = λ address w. (err "refused", w + 70); ping = λ client w. (none, w) }

abbrev settings : Connection
settings = record { connect_str = "amqp://mq"; retry_count = 5; retry_interval = 5 }

connect_rabbit_mq_with_retry_attempts_example :
    let connect = dial_late "amqp://mq" in
    let wait = pause (seconds 5) in
    let out = connect_rabbit_mq_with_retry pause dial_late settings 0 in
    ((k : ℕ) × (last : Option Error) × (v : ℕ) × (c : String) × (k < 5)
      × Fails connect wait k none 0 last v
      × ((connect v).0 ≡ ok c)
      × (out ≡ (ok c, (connect v).1)))
    ⊎ ((last : Option Error) × (v : ℕ) × Fails connect wait 5 none 0 last v
        × (out ≡ (
          err (
              append_text
                (join ("無法連線 RabbitMQ[" ∷ "amqp://mq" ∷ "]，經過 " ∷ decimal 5 ∷ " 次嘗試: " ∷ []))
                (shown last)),
          v,
        )))
connect_rabbit_mq_with_retry_attempts_example =
    connect_rabbit_mq_with_retry_attempts pause dial_late settings 0

connect_rabbit_mq_with_retry-new_mongo_db_example :
    (0 + 5 * (5 * nanoseconds) ≤ clock (connect_rabbit_mq_with_retry pause dial_down settings 0).1)
    × (clock (new_mongo_db pause mongo_down settings 0).1 ≤ 0 + 5 * 5 + 6 * 100)
connect_rabbit_mq_with_retry-new_mongo_db_example =
    connect_rabbit_mq_with_retry-new_mongo_db pause clock (λ t w. refl) 100 dial_down mongo_down
      settings 0 (omega arith) (λ w. (("refused", refl), omega arith, omega arith))
      (λ w. (("refused", refl), omega arith, omega arith))

abbrev parse_bool : String → Result Bool
parse_bool text = if text == "true" then ok true else err "invalid syntax"

-- A warning in debug mode, by the gateway's route: the request's two lines, and three.
switched_on :
    (log warn_level "slow" (debug_log_flag parse_bool "gateway" "true" initialize).1).lines
    ≡ lines_of false info_level "debug" ++ lines_of true warn_level "slow"
unfolding debug_log_flag
switched_on = refl

-- `filepath.Join` cleans what a client's file name has in it.
cleaned_paths :
    (temp_path "cat.mp4" ≡ "tmp/cat.mp4")
    × (temp_path "" ≡ "tmp")
    × (temp_path "a//b/./c" ≡ "tmp/a/b/c")
    × (temp_path "../cat.mp4" ≡ "cat.mp4")
    × (temp_path "../../cat.mp4" ≡ "../cat.mp4")
    × (temp_path ".." ≡ ".")
unfolding file_path_join
cleaned_paths = (refl, refl, refl, refl, refl, refl)

-- The wrap-around of a pause.
long_pauses : (seconds 5 ≡ 5 * nanoseconds) × (seconds 10000000000 ≡ 0)
unfolding seconds
long_pauses = (refl, refl)

-- ===== src/Logger.antt =====
-- pkg/logger/logger.go: which outputs a message reaches, and the debug mode that the gateway switches
-- (internal/api/handlers/handler.go). A message is its text; the fields of zap are left out. zap writes
-- a message to each core of the tee that is enabled for its level.
pub mod DebugMode
use streaming_video_service.Prelude.{
  ℕ, String, Bool, true, false, ◌&&◌, leb, nat_beq, Option, none, some, List, [], ◌∷◌, ◌++◌, map,
  join, append_text, if◌then◌else◌,
}
use streaming_video_service.Golang.{Error, Result, ok, err}
use streaming_video_service.Api.Http.{HttpRes, content}

-- The levels of zap that the logger uses, in their order.
pub data Level : Type 0 where
  debug_level info_level warn_level error_level : Level

abbrev pub rank : Level → ℕ
rank debug_level = 0
rank info_level = 1
rank warn_level = 2
rank error_level = 3

-- The standard output in JSON, the file of the day, and the standard output for reading.
pub data Sink : Type 0 where
  stdout_json log_file console : Sink

-- A line of output.
pub record Line : Type 0 where
  pub sink : Sink
  pub level : Level
  pub text : String

-- `LogInfo`, and the lines that it has put out.
pub record LogInfo : Type 0 where
  pub debug_mode : Bool
  pub lines : List Line

abbrev pub if_enabled : Bool → List Sink → List Sink
if_enabled enabled sinks = if enabled then sinks else []

-- The three level enablers of `Initialize`, and the tee of their cores.
abbrev pub info_error_enabled : Level → Bool
info_error_enabled level = leb (rank info_level) (rank level) && leb (rank level) (rank error_level)

abbrev pub debug_enabled : Bool → Level → Bool
debug_enabled debug_mode level = debug_mode && nat_beq (rank level) (rank debug_level)

abbrev pub warn_enabled : Level → Bool
warn_enabled level = nat_beq (rank level) (rank warn_level)

unfoldable pub sinks : Bool → Level → List Sink
sinks debug_mode level =
    if_enabled (info_error_enabled level) (stdout_json ∷ log_file ∷ [])
    ++ (if_enabled (debug_enabled debug_mode level) (console ∷ [])
        ++ if_enabled (warn_enabled level) (console ∷ []))

-- `Initialize`: the debug mode is off.
abbrev pub initialize : LogInfo
initialize = record { debug_mode = false; lines = [] }

-- A message of a level.
unfoldable pub log : Level → String → LogInfo → LogInfo
unfolding sinks
log level text l = record l {
  lines =
      l.lines
      ++ map (λ sink. record { sink = sink; level = level; text = text })
          (sinks l.debug_mode level);
}

-- `Info`, `Infof`, `Error`, `Errorf`, `Debug` and `Warn`
abbrev pub log_info : String → LogInfo → LogInfo
log_info msg l = log info_level msg l

abbrev pub log_infof : String → String → LogInfo → LogInfo
log_infof msg info l = log info_level (join (msg ∷ " " ∷ info ∷ [])) l

abbrev pub log_error : String → LogInfo → LogInfo
log_error msg l = log error_level msg l

abbrev pub log_errorf : String → Error → LogInfo → LogInfo
log_errorf msg e l = log error_level (join (msg ∷ " " ∷ e ∷ [])) l

abbrev pub log_debug : String → LogInfo → LogInfo
log_debug msg l = log debug_level msg l

abbrev pub log_warn : String → LogInfo → LogInfo
log_warn msg l = log warn_level msg l

-- `EnableDebugMode`, `DisableDebugMode` and `SetDebugMode`
abbrev pub enable_debug_mode : LogInfo → LogInfo
enable_debug_mode l = record l { debug_mode = true }

abbrev pub disable_debug_mode : LogInfo → LogInfo
disable_debug_mode l = record l { debug_mode = false }

unfoldable pub set_debug_mode : Bool → LogInfo → LogInfo
set_debug_mode status l = record l { debug_mode = status }

-- `%t`
abbrev pub shown_bool : Bool → String
shown_bool true = "true"
shown_bool false = "false"

abbrev switched : String → Result Bool → LogInfo → HttpRes String × LogInfo
switched service (err e) l =
    (record { status = 400; body = content "text/plain; charset=utf-8" "Bad Request" }, l)
switched service (ok status) l = (
  record {
    status = 200;
    body =
        content "text/plain; charset=utf-8"
          (join ("service[" ∷ service ∷ "]: debug mode is : " ∷ shown_bool status ∷ []));
  },
  set_debug_mode status l,
)

-- `DebugLogFlag` of the gateway, over `strconv.ParseBool`. Every service is the gateway itself.
unfoldable pub debug_log_flag :
    (String → Result Bool) → String → String → LogInfo → HttpRes String × LogInfo
unfolding log set_debug_mode
debug_log_flag parse_bool service status l =
    switched service (parse_bool status) (log_info "debug" l)

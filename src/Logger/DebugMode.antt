-- ===== src/Logger/DebugMode.antt =====
-- The debug mode of the logger, as the gateway switches it.
use streaming_video_service.Prelude.{
  String, ◌≡◌, refl, Bool, true, false, List, [], ◌∷◌, ◌++◌, map, ap, ◌∙◌,
}
use streaming_video_service.Golang.{Error, Result, ok, err}
use streaming_video_service.Logger.{
  Level, debug_level, info_level, warn_level, error_level, Sink, stdout_json, log_file, console,
  Line, LogInfo, sinks, log, set_debug_mode, debug_log_flag,
}

abbrev pub to_sinks : Level → String → List Sink → List Line
to_sinks level text = map (λ sink. record { sink = sink; level = level; text = text })

-- The lines of a message, whatever the debug mode is: a debug message has one on the console in debug
-- mode and none otherwise.
abbrev pub lines_of : Bool → Level → String → List Line
lines_of true debug_level text = to_sinks debug_level text (console ∷ [])
lines_of false debug_level text = []
lines_of b info_level text = to_sinks info_level text (stdout_json ∷ log_file ∷ [])
lines_of b warn_level text = to_sinks warn_level text (stdout_json ∷ log_file ∷ console ∷ [])
lines_of b error_level text = to_sinks error_level text (stdout_json ∷ log_file ∷ [])

to_sinks-sinks :
    (b : Bool) (level : Level) (text : String)
    → to_sinks level text (sinks b level) ≡ lines_of b level text
unfolding sinks
to_sinks-sinks true debug_level text = refl
to_sinks-sinks false debug_level text = refl
to_sinks-sinks true info_level text = refl
to_sinks-sinks false info_level text = refl
to_sinks-sinks true warn_level text = refl
to_sinks-sinks false warn_level text = refl
to_sinks-sinks true error_level text = refl
to_sinks-sinks false error_level text = refl

log-lines_of :
    (level : Level) (text : String) (l : LogInfo)
    → (log level text l).lines ≡ l.lines ++ lines_of l.debug_mode level text
unfolding log
log-lines_of level text l = ap (λ m. l.lines ++ m) (to_sinks-sinks l.debug_mode level text)

-- A request to the gateway's debug route, and then messages of each level. With a status that parses,
-- the debug mode is as asked: a debug message is one line on the console if it is on, and none if it is
-- off. With any other the answer is 400 and the mode stays. The mode changes nothing for the other
-- levels: an information or an error is a line of the standard output and one of the file, and a
-- warning, beside these, a second one of the standard output. The request itself is logged as
-- information.
pub log-debug_log_flag :
    (parse_bool : String → Result Bool) (service status text : String) (l : LogInfo) (level : Level)
    → let out = debug_log_flag parse_bool service status l in
      let before = l.lines ++ lines_of l.debug_mode info_level "debug" in
      ((b : Bool)
        → parse_bool status ≡ ok b
        → (out.0.status ≡ 200) × ((log level text out.1).lines ≡ before ++ lines_of b level text))
      × ((e : Error)
          → parse_bool status ≡ err e
          → (out.0.status ≡ 400)
            × ((log level text out.1).lines ≡ before ++ lines_of l.debug_mode level text))
unfolding debug_log_flag set_debug_mode
log-debug_log_flag parse_bool service status text l level =
    let first = log-lines_of info_level "debug" l in
    (
      λ b e. rw e (
        refl,
        log-lines_of level text (set_debug_mode b (log info_level "debug" l))
            ∙ ap (λ before. before ++ lines_of b level text) first,
      ),
      λ m e. rw e (
        refl,
        log-lines_of level text (log info_level "debug" l)
            ∙ ap (λ before. before ++ lines_of l.debug_mode level text) first,
      ),
    )

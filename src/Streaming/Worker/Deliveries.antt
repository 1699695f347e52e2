-- ===== src/Streaming/Worker/Deliveries.antt =====
-- The rest of internal/streaming/app/work.go and ffmpeg.go: the end of `StartConsumer`, and what
-- nothing calls.
use streaming_video_service.Prelude.{String, Option, none, some, List, [], ◌∷◌, join, append_text}
use streaming_video_service.Golang.{Error, Result, ok, err}
use streaming_video_service.Streaming.Domain.{TranscodingJob}
use streaming_video_service.Streaming.Repository.{Disk}
use streaming_video_service.Streaming.Worker.{
  Stores, Consumer, Verdict, handle_message, process_transcoding_job,
}

-- What the `select` of `StartConsumer` takes next: a message, by its JSON, the closing of the channel
-- of messages, or the stop signal.
pub data Delivery : Type 0 where
  delivery : Result TranscodingJob → Delivery
  channel_closed : Delivery
  stop_signal : Delivery

module _ {V O F : Type 0} (c : Consumer V O F) where
  -- The loop over the deliveries, with what becomes of each message. Of an acknowledgement that fails,
  -- only the log knows.
  unfoldable pub start_consumer : List Delivery → Stores V O F → List Verdict × Stores V O F
  start_consumer [] s = ([], s)
  start_consumer (channel_closed ∷ ds) s = ([], s)
  start_consumer (stop_signal ∷ ds) s = ([], s)
  start_consumer (delivery m ∷ ds) s =
      let (v, s') = handle_message c m s in let (vs, s'') = start_consumer ds s' in (v ∷ vs, s'')

  -- `consumeTranscodingMessage`, of a message by its JSON; errors are only logged.
  unfoldable pub consume_transcoding_message : Result TranscodingJob → Stores V O F → Stores V O F
  consume_transcoding_message (err e) s = s
  consume_transcoding_message (ok job) s = (process_transcoding_job c job s).1

-- The arguments of `TranscodeToDASH`.
abbrev pub dash_args : String → String → List String
dash_args input output_dir =
    "-i"
    ∷ input
    ∷ "-c:v"
    ∷ "libx264"
    ∷ "-c:a"
    ∷ "aac"
    ∷ "-f"
    ∷ "dash"
    ∷ append_text output_dir "/manifest.mpd"
    ∷ []

abbrev pub dash_error : Option (Error × String) → Option Error
dash_error none = none
dash_error (some (e, output)) = some (join ("FFmpeg DASH 錯誤: " ∷ e ∷ ", output: " ∷ output ∷ []))

-- `TranscodeToDASH`
unfoldable pub transcode_to_dash : {F : Type 0} → Disk F → String → String → F → Option Error × F
transcode_to_dash disk input output_dir f =
    let (e, f') = disk.ffmpeg (dash_args input output_dir) f in (dash_error e, f')

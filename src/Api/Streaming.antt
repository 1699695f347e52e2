-- ===== src/Api/Streaming.antt =====
-- internal/api/handlers/streaming_handler.go: the handlers that pass one request on to the streaming
-- service. Each call of a gRPC client has its time limit of 5 seconds within the client.
pub mod Playback
use streaming_video_service.Prelude.{ℕ, String}
use streaming_video_service.Golang.{Result, ok, err}
use streaming_video_service.Streaming.Pb.{PbGetVideoRes, SearchRes, ContentRes}
use streaming_video_service.Api.Http.{HttpRes, content, error_res, relayed}

-- The unary calls of `streaming_pb.StreamingServiceClient`: the response, or an error.
pub record StreamingServiceClient : Type 0 where
  pub get_video : String → Result PbGetVideoRes
  pub search : String → Result SearchRes
  pub get_recommendations : ℕ → Result SearchRes
  pub get_index_m3u8 : String → Result ContentRes
  pub get_hls_segment : String → String → Result ContentRes

-- The content of a response under its type, or 500 with the error.
abbrev pub sent_as : String → Result ContentRes → HttpRes ContentRes
sent_as content_type (ok res) = record { status = 200; body = content content_type res.content }
sent_as content_type (err e) = error_res 500 e

-- The limit that `strconv.Atoi` gives.
abbrev recommended : StreamingServiceClient → Result ℕ → HttpRes SearchRes
recommended client (err e) = error_res 400 "Invalid limit"
recommended client (ok limit) = relayed (client.get_recommendations limit)

module _ (client : StreamingServiceClient) where
  unfoldable pub gateway_get_video : String → HttpRes PbGetVideoRes
  gateway_get_video video_id = relayed (client.get_video video_id)

  unfoldable pub gateway_search : String → HttpRes SearchRes
  gateway_search key_word = relayed (client.search key_word)

  -- `GetRecommendations`, over `strconv.Atoi`.
  unfoldable pub gateway_get_recommendations : (String → Result ℕ) → String → HttpRes SearchRes
  gateway_get_recommendations atoi limit = recommended client (atoi limit)

  unfoldable pub gateway_get_index_m3u8 : String → HttpRes ContentRes
  gateway_get_index_m3u8 video_id =
      sent_as "application/vnd.apple.mpegurl" (client.get_index_m3u8 video_id)

  unfoldable pub gateway_get_hls_segment : String → String → HttpRes ContentRes
  gateway_get_hls_segment video_id segment =
      sent_as "video/mp2t" (client.get_hls_segment video_id segment)

-- ===== src/Streaming/Playback.antt =====
-- internal/streaming/app/streaming_usecase.go: `GetIndexM3U8` and `GetHlsSegment`, which read one
-- object of MinIO.
use streaming_video_service.Prelude.{String, [], ◌∷◌, join}
use streaming_video_service.Golang.{Result, ok, err}

-- `GetObject` gives a reader or an error; reading it to its end, by `readFile`, gives the content or
-- an error.
pub record ObjectStore (O : Type 0) : Type 0 where
  pub get_object : String → O → Result (Result String)

abbrev pub playlist_key : String → String
playlist_key video_id = join ("processed/" ∷ video_id ∷ "/index.m3u8" ∷ [])

abbrev pub segment_key : String → String → String
segment_key video_id segment = join ("processed/" ∷ video_id ∷ "/" ∷ segment ∷ [])

-- The errors of the two steps, with the text that each has before it.
unfoldable pub read_all : String → String → Result (Result String) → Result String
read_all missing unread (err e) = err (join (missing ∷ " : " ∷ e ∷ []))
read_all missing unread (ok (err e)) = err (join (unread ∷ " : " ∷ e ∷ []))
read_all missing unread (ok (ok content)) = ok content

-- `GetIndexM3U8`
unfoldable pub get_index_m3u8 : {O : Type 0} → ObjectStore O → String → O → Result String
unfolding read_all
get_index_m3u8 store video_id o =
    read_all (join ("videoID[" ∷ video_id ∷ "] 無法取得 m3u8 檔案" ∷ []))
      (join ("videoID[" ∷ video_id ∷ "] 讀取 m3u8 檔案失敗" ∷ []))
      (store.get_object (playlist_key video_id) o)

-- `GetHlsSegment`
unfoldable pub get_hls_segment : {O : Type 0} → ObjectStore O → String → String → O → Result String
unfolding read_all
get_hls_segment store video_id segment o =
    read_all (join ("videoID_segment[" ∷ video_id ∷ "_" ∷ segment ∷ "] 無法取得 segment 檔案" ∷ []))
      (join ("videoID_segment[" ∷ video_id ∷ "_" ∷ segment ∷ "] 讀取 segment 檔案失敗" ∷ []))
      (store.get_object (segment_key video_id segment) o)

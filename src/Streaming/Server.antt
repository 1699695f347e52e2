-- ===== src/Streaming/Server.antt =====
-- internal/streaming/app/streaming_handler.go: the gRPC server of the streaming service. A handler
-- returns its response beside the error.
pub mod Receiving
use streaming_video_service.Prelude.{
  ℕ, String, Bool, true, false, ◌==◌, ◌⊎◌, inl, inr, Option, none, some, List, [], ◌∷◌, map,
  append_text, if◌then◌else◌,
}
use streaming_video_service.Golang.{Error, Result, ok, err, error_of}
use streaming_video_service.Streaming.Domain.{Video, UploadVideoReq, UploadVideoRes, GetVideoRes}
use streaming_video_service.Streaming.Pb.{
  VideoMetadata, StreamData, metadata, chunk, unset, PbUploadVideoRes, PbGetVideoRes,
  SearchFeedBack, SearchRes, ContentRes,
}
use streaming_video_service.Streaming.UseCase.{
  Stores, StreamingUseCase, upload_video, get_video, search, get_recommendations,
}
use streaming_video_service.Streaming.Playback.{ObjectStore, get_index_m3u8, get_hls_segment}

-- What `stream.Recv` gives, up to io.EOF, which is the end of the list.
pub data Received : Type 0 where
  received : StreamData → Received
  failed : Error → Received

pub data Code : Type 0 where
  unknown invalid_argument : Code

-- `SendAndClose`, or an error of a status.
pub data StreamEnd : Type 0 where
  answered : PbUploadVideoRes → StreamEnd
  aborted : Code → String → StreamEnd

-- `metadata` and `fileBuffer`. The bytes of a `bytes.Buffer` are nil exactly while it is empty, since
-- a write of no bytes allocates nothing; a write to one never fails.
pub record Upload : Type 0 where
  pub metadata : Option VideoMetadata
  pub file_buffer : String

abbrev pub no_upload : Upload
no_upload = record { metadata = none; file_buffer = "" }

-- The loop over the stream: the upload at its end, or an early return.
unfoldable pub receive_upload : List Received → Upload → Upload ⊎ StreamEnd
receive_upload [] u = inl u
receive_upload (failed e ∷ rs) u = inr (aborted unknown (append_text "接收流失敗: " e))
receive_upload (received (metadata m) ∷ rs) u = receive_upload rs (record u { metadata = some m })
receive_upload (received (chunk content) ∷ rs) u =
    receive_upload rs (record u { file_buffer = append_text u.file_buffer content })
receive_upload (received unset ∷ rs) u = inr (aborted invalid_argument "未知的數據類型")

abbrev pub refused : String → PbUploadVideoRes
refused message = record { success = false; message = message; video_id = 0 }

abbrev pub upload_res : Result UploadVideoRes → PbUploadVideoRes
upload_res (err e) = refused e
upload_res (ok res) = record { success = true; message = res.message; video_id = res.video_id }

abbrev pub request_of : VideoMetadata → String → UploadVideoReq
request_of m content = record {
  title = m.title;
  description = m.description;
  video_type = m.video_type;
  file_name = m.file_name;
  file = content;
}

abbrev pub feed_back : Video → SearchFeedBack
feed_back video = record {
  video_id = video.id;
  title = video.title;
  description = video.description;
  file_name = video.file_name;
  video_type = video.video_type;
  status = video.status;
  view_c_count = video.view_count;
}

abbrev pub search_res : Result (List Video) → SearchRes × Option Error
search_res (err e) = (record { success = false; error = e; video = [] }, some e)
search_res (ok videos) = (record { success = true; error = ""; video = map feed_back videos }, none)

abbrev pub get_video_res : Result GetVideoRes → PbGetVideoRes × Option Error
get_video_res (err e) =
    (record { success = false; video_id = 0; title = ""; hls_url = ""; error = e }, some e)
get_video_res (ok video) = (
  record {
    success = true;
    video_id = video.video_id;
    title = video.title;
    hls_url = video.hls_url;
    error = "";
  },
  none,
)

abbrev pub content_res : Result String → ContentRes
content_res (err e) = record { success = false; error = e; content = "" }
content_res (ok content) = record { success = true; error = ""; content = content }

module _ {V O F Q : Type 0} (uc : StreamingUseCase V O F Q) where
  -- The checks after the loop, and the use case.
  unfoldable pub finish_upload :
      Option VideoMetadata → String → Stores V O F Q → PbUploadVideoRes × Stores V O F Q
  finish_upload none content s = (refused "缺少影片元資料", s)
  finish_upload (some m) content s =
      if content == ""
      then (refused "缺少寫入檔案區塊", s)
      else let (r, s') = upload_video uc (request_of m content) s in (upload_res r, s')

  -- `UploadVideo`, on what the stream gives.
  unfoldable pub handle_upload_video : List Received → Stores V O F Q → StreamEnd × Stores V O F Q
  unfolding receive_upload finish_upload
  handle_upload_video rs s = elim (receive_upload rs no_upload) [
    | inr early ↦ (early, s)
    | inl u ↦ let (res, s') = finish_upload u.metadata u.file_buffer s in (answered res, s')
  ]

  -- `GetVideo`; the number is the one that `strconv.Atoi` gives in the use case.
  unfoldable pub handle_get_video : String → ℕ → Stores V O F Q → PbGetVideoRes × Option Error
  handle_get_video video_id id s = get_video_res (get_video uc video_id id s)

  -- `Search`
  unfoldable pub handle_search : String → Stores V O F Q → SearchRes × Option Error
  handle_search key_word s = search_res (search uc key_word s)

  -- `GetRecommendations`
  unfoldable pub handle_get_recommendations : ℕ → Stores V O F Q → SearchRes × Option Error
  handle_get_recommendations limit s = search_res (get_recommendations uc limit s)

-- `GetIndexM3U8`: its error is nil, whatever the use case gives.
unfoldable pub handle_get_index_m3u8 :
    {O : Type 0} → ObjectStore O → String → O → ContentRes × Option Error
handle_get_index_m3u8 store video_id o = (content_res (get_index_m3u8 store video_id o), none)

-- `GetHlsSegment`
unfoldable pub handle_get_hls_segment :
    {O : Type 0} → ObjectStore O → String → String → O → ContentRes × Option Error
handle_get_hls_segment store video_id segment o =
    let r = get_hls_segment store video_id segment o in (content_res r, error_of r)

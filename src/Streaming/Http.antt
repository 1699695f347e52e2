-- ===== src/Streaming/Http.antt =====
-- internal/streaming/api/handlers/video_handler.go: HTTP handlers over the repository, MinIO and
-- RabbitMQ themselves, which no route uses. `strconv.Atoi` is a parameter: the number of a text, and
-- 0 where it gives an error that is dropped.
pub mod Upload
use streaming_video_service.Prelude.{
  ℕ, String, Bool, true, false, not, ◌==◌, Option, none, some, List, [], ◌∷◌, join, append_text,
  if◌then◌else◌,
}
use streaming_video_service.Golang.{Error, Result, ok, err}
use streaming_video_service.Streaming.Decimal.{decimal}
use streaming_video_service.Streaming.Domain.{
  Video, TranscodingJob, UploadVideoReq, GetVideoRes, video_ready, queue_name,
}
use streaming_video_service.Streaming.Repository.{VideoRepo, MinIoClient, Disk, Queue}
use streaming_video_service.Streaming.Playback.{ObjectStore, playlist_key, segment_key}
use streaming_video_service.Streaming.UseCase.{Stores, new_video, temp_path, object_name, job_of}
use streaming_video_service.Api.Http.{HttpRes, content, json_res, error_res}

-- `VideoHandler`, with the disk, and `SaveFile` of fiber: the content, the path, and the files.
pub record VideoHandler (V O F Q : Type 0) : Type 0 where
  pub minio_client : MinIoClient O F
  pub video_repo : VideoRepo V
  pub rabbit_channel : Queue Q
  pub disk : Disk F
  pub save_file : String → String → F → Option Error × F

-- The JSON of the answer to an upload.
pub record UploadJson : Type 0 where
  pub msg : String
  pub video_id : ℕ

module _ {V O F Q : Type 0} (h : VideoHandler V O F Q) where
  -- Step 8: an error of the clean-up is only logged.
  unfoldable pub http_clean_up :
      UploadVideoReq → Video → Stores V O F Q → HttpRes UploadJson × Stores V O F Q
  http_clean_up up video s = (
    json_res (record { msg = "上傳成功，等待轉碼"; video_id = video.id }),
    record s { files = (h.disk.remove (temp_path up.file_name) s.files).1 },
  )

  -- Step 7.
  unfoldable pub http_publish :
      UploadVideoReq → Video → Result String → Stores V O F Q → HttpRes UploadJson × Stores V O F Q
  unfolding http_clean_up
  http_publish up video (err e) s = (error_res 500 "訊息序列化失敗", s)
  http_publish up video (ok body) s =
      let (e, q) = h.rabbit_channel.publish queue_name body s.queue in
      let s' : Stores V O F Q = record s { queue = q } in
      elim e [ some m ↦ (error_res 500 "發布轉碼工作訊息失敗", s') | none ↦ http_clean_up up video s' ]

  -- Steps 5 and 6.
  unfoldable pub http_store_object :
      UploadVideoReq → Video → Stores V O F Q → HttpRes UploadJson × Stores V O F Q
  unfolding http_publish
  http_store_object up video s =
      let key = object_name video.id up.file_name in
      let (e, o) =
        h.minio_client.upload_file key (temp_path up.file_name) "video/mp4" s.files s.objects in
      let s' : Stores V O F Q = record s { objects = o } in
      elim e [
        | some m ↦ (error_res 500 "上傳 MinIO 失敗", s')
        | none ↦
            let named : Video = record video { file_name = key } in
            let (e', v) = h.video_repo.update named s.videos in
            let s'' : Stores V O F Q = record s' { videos = v } in
            elim e' [
              | some m ↦ (error_res 500 "更新影片記錄失敗", s'')
              | none ↦ http_publish up named (h.rabbit_channel.marshal (job_of named)) s''
            ]
      ]

  -- Step 4.
  unfoldable pub http_store_row :
      UploadVideoReq → Stores V O F Q → HttpRes UploadJson × Stores V O F Q
  unfolding http_store_object
  http_store_row up s =
      let (r, v) = h.video_repo.create (new_video up) s.videos in
      let s' : Stores V O F Q = record s { videos = v } in
      elim r [ err m ↦ (error_res 500 "資料庫建立影片失敗", s') | ok video ↦ http_store_object up video s' ]

  -- The end of step 3, by what `SaveFile` gives.
  unfoldable pub http_saved :
      UploadVideoReq → Option Error × F → Stores V O F Q → HttpRes UploadJson × Stores V O F Q
  unfolding http_store_row
  http_saved up (some m, f) s = (error_res 500 "儲存檔案失敗", record s { files = f })
  http_saved up (none, f) s = http_store_row up (record s { files = f })

  -- `UploadVideo`, of the form's fields and its file, if there is one.
  unfoldable pub http_upload :
      Result UploadVideoReq → Stores V O F Q → HttpRes UploadJson × Stores V O F Q
  unfolding http_saved
  http_upload (err e) s = (error_res 400 "未檢測到檔案", s)
  http_upload (ok up) s =
      let (e, f) = h.disk.mkdir_all "./tmp" s.files in
      elim e [
        | some m ↦ (error_res 500 "建立暫存目錄失敗", record s { files = f })
        | none ↦ http_saved up (h.save_file up.file (temp_path up.file_name) f) s
      ]

  -- `GetVideo`, of the number that `strconv.Atoi` gives.
  unfoldable pub http_get_video : ℕ → V → HttpRes GetVideoRes
  http_get_video id v = elim (h.video_repo.get_by_id id v) [
    | err e ↦ error_res 404 "找不到影片"
    | ok video ↦
        if not (video.status == video_ready)
        then error_res 400 "影片尚未處理完成"
        else json_res (record {
          video_id = video.id;
          title = video.title;
          hls_url =
              join ("http://127.0.0.1:8083/video/hls/" ∷ decimal video.id ∷ "/index.m3u8" ∷ []);
        })
  ]

  abbrev http_listed : String → Result (List Video) → HttpRes (List Video)
  http_listed text (err e) = error_res 500 text
  http_listed text (ok videos) = json_res videos

  -- `Search`
  unfoldable pub http_search : String → V → HttpRes (List Video)
  http_search key_word v = http_listed "搜尋失敗" (h.video_repo.search_videos key_word v)

  abbrev limit_or_ten : Result ℕ → ℕ
  limit_or_ten (err e) = 10
  limit_or_ten (ok limit) = limit

  -- `GetRecommendations`, of what `strconv.Atoi` gives: an error means 10.
  unfoldable pub http_get_recommendations : Result ℕ → V → HttpRes (List Video)
  http_get_recommendations limit v =
      http_listed "推薦失敗" (h.video_repo.recommend_videos (limit_or_ten limit) v)

-- The content under its type, or 500 with a text: `GetObject`, then `io.Copy`.
unfoldable pub http_copied : String → String → String → Result (Result String) → HttpRes String
http_copied kind missing unread (err e) = record {
  status = 500;
  body = content "text/plain; charset=utf-8" (append_text missing e);
}
http_copied kind missing unread (ok (err e)) = record {
  status = 500;
  body = content kind (append_text unread e);
}
http_copied kind missing unread (ok (ok text)) = record { status = 200; body = content kind text }

-- `GetIndexM3U8` and `GetHlsSegment`
unfoldable pub http_get_index_m3u8 : {O : Type 0} → ObjectStore O → ℕ → O → HttpRes String
unfolding http_copied
http_get_index_m3u8 store id o =
    http_copied "application/vnd.apple.mpegurl" "無法取得 m3u8 檔案: " "讀取 m3u8 檔案失敗: "
      (store.get_object (playlist_key (decimal id)) o)

unfoldable pub http_get_hls_segment : {O : Type 0} → ObjectStore O → ℕ → String → O → HttpRes String
unfolding http_copied
http_get_hls_segment store id segment o =
    http_copied "video/mp2t" "無法取得 TS 檔案: " "讀取 TS 檔案失敗: "
      (store.get_object (segment_key (decimal id) segment) o)

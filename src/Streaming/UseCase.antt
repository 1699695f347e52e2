-- ===== src/Streaming/UseCase.antt =====
-- internal/streaming/app/streaming_usecase.go. `GetVideo` starts from the number that `strconv.Atoi`
-- gives.
pub mod Uploading
use streaming_video_service.Prelude.{
  ℕ, String, Bool, true, false, not, ◌==◌, Option, none, some, List, [], ◌∷◌, if◌then◌else◌, join,
  append_text,
}
use streaming_video_service.Golang.FilePath.{file_path_join}
use streaming_video_service.Golang.{Error, Result, ok, err}
use streaming_video_service.Streaming.Decimal.{decimal}
use streaming_video_service.Streaming.Domain.{
  Video, TranscodingJob, UploadVideoReq, UploadVideoRes, GetVideoRes, video_upload, video_ready,
  queue_name,
}
use streaming_video_service.Streaming.Repository.{VideoRepo, MinIoClient, Disk, Queue}

-- The database, the objects, the local files and RabbitMQ.
pub record Stores (V O F Q : Type 0) : Type 0 where
  pub videos : V
  pub objects : O
  pub files : F
  pub queue : Q

pub record StreamingUseCase (V O F Q : Type 0) : Type 0 where
  pub minio_client : MinIoClient O F
  pub video_repo : VideoRepo V
  pub disk : Disk F
  pub rabbit_channel : Queue Q

-- The messages: what the request was about, the problem, and the error.
abbrev pub message : String → String → String → Error → Error
message about name problem e = join (about ∷ "[" ∷ name ∷ "] " ∷ problem ∷ " : " ∷ e ∷ [])

abbrev pub new_video : UploadVideoReq → Video
new_video up = record {
  id = 0;
  title = up.title;
  description = up.description;
  file_name = up.file_name;
  video_type = up.video_type;
  status = video_upload;
  view_count = 0;
}

-- `filepath.Join("./tmp", name)` of a file's name.
abbrev pub temp_path : String → String
temp_path name = file_path_join "./tmp" name

abbrev pub object_name : ℕ → String → String
object_name id name = join ("original/" ∷ decimal id ∷ "/" ∷ name ∷ [])

abbrev pub job_of : Video → TranscodingJob
job_of video = record {
  video_id = video.id;
  file_name = video.file_name;
  job_type = video.video_type;
}

module _ {V O F Q : Type 0} (uc : StreamingUseCase V O F Q) where
  -- Steps 7 and 8 of `UploadVideo`: the job, by its JSON, then the temporary file.
  unfoldable pub publish_job :
      UploadVideoReq
      → Video
      → Result String
      → Stores V O F Q
      → Result UploadVideoRes × Stores V O F Q
  publish_job up video (err e) s =
      (err (message "fileName" up.file_name "Job JSON 訊息序列化失敗轉換失敗" e), s)
  publish_job up video (ok body) s =
      let (e, q) = uc.rabbit_channel.publish queue_name body s.queue in
      let s' : Stores V O F Q = record s { queue = q } in
      elim e [
        | some m ↦ (err (message "fileName" up.file_name "發送 RabbitMQ 訊息失敗" m), s')
        | none ↦
            let (e', f) = uc.disk.remove (temp_path up.file_name) s.files in
            let s'' : Stores V O F Q = record s' { files = f } in
            elim e' [
              | some m ↦ (err (join ("fileName[" ∷ up.file_name ∷ "] 清理暫存檔案失敗: " ∷ m ∷ [])), s'')
              | none ↦ (ok (record { message = "上傳成功，等待轉碼"; video_id = video.id }), s'')
            ]
      ]

  -- Steps 5 and 6: the object, and its name in the video's row.
  unfoldable pub upload_original :
      UploadVideoReq → Video → Stores V O F Q → Result UploadVideoRes × Stores V O F Q
  unfolding publish_job
  upload_original up video s =
      let key = object_name video.id up.file_name in
      let (e, o) =
        uc.minio_client.upload_file key (temp_path up.file_name) "video/mp4" s.files s.objects in
      let s' : Stores V O F Q = record s { objects = o } in
      elim e [
        | some m ↦ (err (message "fileName" up.file_name "上傳 MinIO 失敗" m), s')
        | none ↦
            let named : Video = record video { file_name = key } in
            let (e', v) = uc.video_repo.update named s.videos in
            let s'' : Stores V O F Q = record s' { videos = v } in
            elim e' [
              | some m ↦ (err (message "fileName" up.file_name "更新影片記錄失敗" m), s'')
              | none ↦ publish_job up named (uc.rabbit_channel.marshal (job_of named)) s''
            ]
      ]

  -- The content of the temporary file, and step 4, the video's row.
  unfoldable pub store_video :
      UploadVideoReq → Stores V O F Q → Result UploadVideoRes × Stores V O F Q
  unfolding upload_original
  store_video up s =
      let (e, f) = uc.disk.copy_file (temp_path up.file_name) up.file s.files in
      let s' : Stores V O F Q = record s { files = f } in
      elim e [
        | some m ↦ (err (message "fileName" up.file_name "儲存檔案失敗" m), s')
        | none ↦
            let (r, v) = uc.video_repo.create (new_video up) s.videos in
            let s'' : Stores V O F Q = record s' { videos = v } in
            elim r [
              | err m ↦ (err (message "fileName" up.file_name "資料庫建立影片失敗" m), s'')
              | ok video ↦ upload_original up video s''
            ]
      ]

  -- `UploadVideo`: the directory and the temporary file, then the rest.
  unfoldable pub upload_video :
      UploadVideoReq → Stores V O F Q → Result UploadVideoRes × Stores V O F Q
  unfolding store_video
  upload_video up s =
      let (e, f) = uc.disk.mkdir_all "./tmp" s.files in
      elim e [
        | some m ↦ (err (message "fileName" up.file_name "建立暫存目錄失敗" m), record s { files = f })
        | none ↦
            let (e', f') = uc.disk.create_file (temp_path up.file_name) f in
            elim e' [
              | some m ↦
                  (err (message "fileName" up.file_name "建立暫存檔案失敗" m), record s { files = f' })
              | none ↦ store_video up (record s { files = f' })
            ]
      ]

  -- `GetVideo`
  unfoldable pub get_video : String → ℕ → Stores V O F Q → Result GetVideoRes
  get_video video_id id s = elim (uc.video_repo.get_by_id id s.videos) [
    | err e ↦ err (join ("videoID[" ∷ video_id ∷ "] 找不到影片: " ∷ e ∷ []))
    | ok video ↦
        if not (video.status == video_ready)
        then err (join ("videoID[" ∷ video_id ∷ "] 影片尚未處理完成" ∷ []))
        else ok (record {
          video_id = video.id;
          title = video.title;
          hls_url =
              join ("http://127.0.0.1:8083/video/hls/" ∷ decimal video.id ∷ "/index.m3u8" ∷ []);
        })
  ]

  listed : Error → Result (List Video) → Result (List Video)
  listed about (ok videos) = ok videos
  listed about (err e) = err (append_text about e)

  -- `Search`; the copy of each video has all its fields.
  unfoldable pub search : String → Stores V O F Q → Result (List Video)
  unfolding listed
  search key_word s =
      listed (join ("keyword[" ∷ key_word ∷ "] search err : " ∷ []))
        (uc.video_repo.search_videos key_word s.videos)

  -- `GetRecommendations`
  unfoldable pub get_recommendations : ℕ → Stores V O F Q → Result (List Video)
  unfolding listed
  get_recommendations limit s =
      listed (join ("limit[" ∷ decimal limit ∷ "] get recommendations err : " ∷ []))
        (uc.video_repo.recommend_videos limit s.videos)

-- ===== src/Streaming/Worker.antt =====
-- internal/streaming/app/work.go and ffmpeg.go: the worker that transcodes uploaded videos.
pub mod Processing
pub mod Contents
pub mod Consuming
pub mod Deliveries
use streaming_video_service.Prelude.{
  ℕ, zero, suc, String, Bool, true, false, ◌==◌, Option, none, some, List, [], ◌∷◌, ◌++◌,
  if◌then◌else◌, append_text, join, nat_beq,
}
use Prim.Native.Char.{code}
use Prim.Native.String.{[] as empty_text, ◌∷◌ as text_cons}
use streaming_video_service.Golang.{Error, Result, ok, err}
use streaming_video_service.Streaming.Decimal.{decimal}
use streaming_video_service.Streaming.Domain.{Video, TranscodingJob, video_ready}
use streaming_video_service.Streaming.Repository.{VideoRepo, MinIoClient, Disk}

-- The database, the objects and the local files.
pub record Stores (V O F : Type 0) : Type 0 where
  pub videos : V
  pub objects : O
  pub files : F

pub record Consumer (V O F : Type 0) : Type 0 where
  pub minio_client : MinIoClient O F
  pub video_repo : VideoRepo V
  pub disk : Disk F

abbrev pub local_input_path : ℕ → String
local_input_path id = join ("./tmp/" ∷ decimal id ∷ "_original.mp4" ∷ [])

abbrev pub local_output_dir : ℕ → String
local_output_dir id = join ("./tmp/" ∷ decimal id ∷ "_processed" ∷ [])

-- The object key of an output file.
abbrev pub processed_key : ℕ → String → String
processed_key id name = join ("processed/" ∷ decimal id ∷ "/" ∷ name ∷ [])

-- `filepath.Join(localOutputDir, name)` of a file's name; the leading "./" is cleaned.
abbrev pub local_file_path : ℕ → String → String
local_file_path id name = join ("tmp/" ∷ decimal id ∷ "_processed/" ∷ name ∷ [])

-- The arguments of `TranscodeToHLS`.
abbrev pub hls_args : String → String → List String
hls_args input output_dir =
    "-i"
    ∷ input
    ∷ "-c:v"
    ∷ "libx264"
    ∷ "-c:a"
    ∷ "aac"
    ∷ "-f"
    ∷ "hls"
    ∷ "-hls_time"
    ∷ "4"
    ∷ "-hls_list_size"
    ∷ "0"
    ∷ append_text output_dir "/index.m3u8"
    ∷ []

-- `filepath.Ext` over what is left of a name, and what stands there from the last dot after the last
-- slash.
unfoldable pub ext_from : String → String → String
ext_from empty_text ext = ext
ext_from (text_cons c cs) ext =
    if nat_beq (code c) 47
    then ext_from cs ""
    else if nat_beq (code c) 46
    then ext_from cs (text_cons c cs)
    else ext_from cs ext

-- `getContentType`
unfoldable pub get_content_type : String → String
unfolding ext_from
get_content_type file_name =
    let ext = ext_from file_name "" in
    if ext == ".m3u8"
    then "application/vnd.apple.mpegurl"
    else if ext == ".ts"
    then "video/MP2T"
    else "application/octet-stream"

-- An error with its context.
abbrev pub wrapped : String → Error → Option Error
wrapped context e = some (append_text context (append_text ": " e))

module _ {V O F : Type 0} (c : Consumer V O F) where
  -- The loop that uploads the output files; the first failure ends it.
  unfoldable pub upload_files : ℕ → List String → F → O → Option Error × O
  upload_files id [] f o = (none, o)
  upload_files id (name ∷ names) f o =
      let key = processed_key id name in
      let (e, o') =
        c.minio_client.upload_file key (local_file_path id name) (get_content_type key) f o in
      let rest = upload_files id names f o' in
      elim e [ none ↦ rest | some m ↦ (wrapped "上傳轉碼結果失敗" m, o') ]

  -- Steps 6 and 7: the status, then the local files, whose errors are logged only.
  unfoldable pub finish_job : ℕ → Stores V O F → Option Error × Stores V O F
  finish_job id s = elim (c.video_repo.get_by_id id s.videos) [
    | err e ↦ (wrapped "從資料庫取得影片失敗" e, s)
    | ok video ↦
        let (e, v) = c.video_repo.update (record video { status = video_ready }) s.videos in
        elim e [
          | some m ↦ (wrapped "更新影片狀態失敗" m, record s { videos = v })
          | none ↦
              let f₁ = (c.disk.remove (local_input_path id) s.files).1 in
              let f₂ = (c.disk.remove_all (local_output_dir id) f₁).1 in
              (none, record s { videos = v; files = f₂ })
        ]
  ]

  -- Step 5: the files of the output directory.
  unfoldable pub upload_outputs : ℕ → Stores V O F → Option Error × Stores V O F
  unfolding upload_files finish_job
  upload_outputs id s = elim (c.disk.read_dir (local_output_dir id) s.files) [
    | err e ↦ (wrapped "讀取轉碼輸出目錄失敗" e, s)
    | ok names ↦
        let (e, o) = upload_files id names s.files s.objects in
        let s' : Stores V O F = record s { objects = o } in
        elim e [ some m ↦ (some m, s') | none ↦ finish_job id s' ]
  ]

  -- Steps 3 and 4.
  unfoldable pub transcode : ℕ → Stores V O F → Option Error × Stores V O F
  unfolding upload_outputs
  transcode id s =
      let (e, f) = c.disk.mkdir_all (local_output_dir id) s.files in
      elim e [
        | some m ↦ (wrapped "建立轉碼輸出目錄失敗" m, record s { files = f })
        | none ↦
            let (e', f') = c.disk.ffmpeg (hls_args (local_input_path id) (local_output_dir id)) f in
            let s' : Stores V O F = record s { files = f' } in
            elim e' [
              | some (m, output) ↦ (
                wrapped "FFmpeg HLS 轉碼失敗"
                    (join ("FFmpeg HLS 錯誤: " ∷ m ∷ ", output: " ∷ output ∷ [])),
                s',
              )
              | none ↦ upload_outputs id s'
            ]
      ]

  -- `processTranscodingJob`
  unfoldable pub process_transcoding_job :
      TranscodingJob → Stores V O F → Option Error × Stores V O F
  unfolding transcode
  process_transcoding_job job s =
      let (e, f) =
        c.minio_client.download_file job.file_name (local_input_path job.video_id) s.objects
          s.files in
      let s' : Stores V O F = record s { files = f } in
      elim e [ some m ↦ (wrapped "下載原始影片失敗" m, s') | none ↦ transcode job.video_id s' ]

-- What becomes of a message: `Ack(false)`, or `Nack(false, true)`.
pub data Verdict : Type 0 where
  acked : Verdict
  requeued : Verdict

abbrev pub verdict : Option Error → Verdict
verdict none = acked
verdict (some e) = requeued

module _ {V O F : Type 0} (c : Consumer V O F) where
  -- The case of `StartConsumer` for one message, by its JSON.
  unfoldable pub handle_message : Result TranscodingJob → Stores V O F → Verdict × Stores V O F
  handle_message (err e) s = (requeued, s)
  handle_message (ok job) s = let (e, s') = process_transcoding_job c job s in (verdict e, s')

  -- The loop of `StartConsumer`, for the next `n` messages: the broker puts a message that is
  -- requeued back where `requeue` says.
  unfoldable pub consume :
      (Result TranscodingJob → List (Result TranscodingJob) → List (Result TranscodingJob))
      → ℕ
      → List (Result TranscodingJob)
      → Stores V O F
      → List (Result TranscodingJob) × Stores V O F
  unfolding handle_message
  consume requeue zero queue s = (queue, s)
  consume requeue (suc n) [] s = ([], s)
  consume requeue (suc n) (m ∷ queue) s =
      let (v, s') = handle_message m s in
      consume requeue n (elim v [ acked ↦ queue | requeued ↦ requeue m queue ]) s'

-- ===== src/Streaming/Repository.antt =====
-- internal/streaming/repository/video_repo.go, over gorm as a parameter, and what the service calls of
-- MinIO, RabbitMQ and the operating system.
use streaming_video_service.Prelude.{ℕ, String, Option, List, append_text}
use streaming_video_service.Golang.{Error, Result}
use streaming_video_service.Streaming.Domain.{Video, TranscodingJob, video_ready}

-- `VideoRepo`. `Create` fills the id of the video, which it gives back.
pub record VideoRepo (V : Type 0) : Type 0 where
  pub create : Video → V → Result Video × V
  pub get_by_id : ℕ → V → Result Video
  pub update : Video → V → Option Error × V
  pub find_by_status : String → V → Result (List Video)
  pub search_videos : String → V → Result (List Video)
  pub recommend_videos : ℕ → V → Result (List Video)

-- The calls of gorm: `Create`, `First` by the primary key, `Save`, and `Find` of a status, of the
-- two ILIKE patterns with a status, and ordered by `view_count` with a limit.
pub record Gorm (V : Type 0) : Type 0 where
  pub create : Video → V → Result Video × V
  pub first : ℕ → V → Result Video
  pub save : Video → V → Option Error × V
  pub find_status : String → V → Result (List Video)
  pub find_like : String → String → V → Result (List Video)
  pub find_popular : ℕ → V → Result (List Video)

unfoldable pub video_repo : {V : Type 0} → Gorm V → VideoRepo V
video_repo db = record {
  create = λ video v. db.create video v;
  get_by_id = λ id v. db.first id v;
  update = λ video v. db.save video v;
  find_by_status = λ status v. db.find_status status v;
  search_videos =
      λ keyword v. db.find_like (append_text "%" (append_text keyword "%")) video_ready v;
  recommend_videos = λ limit v. db.find_popular limit v;
}

-- `MinIOClientRepo`, what the use case and the worker call of it: objects in `O`, local files in `F`.
pub record MinIoClient (O F : Type 0) : Type 0 where
  pub upload_file : String → String → String → F → O → Option Error × O
  pub download_file : String → String → O → F → Option Error × F

-- `os` and FFmpeg.
pub record Disk (F : Type 0) : Type 0 where
  pub mkdir_all : String → F → Option Error × F
  pub create_file : String → F → Option Error × F
  pub open_file : String → F → Result String
  pub copy_file : String → String → F → Option Error × F
  pub read_dir : String → F → Result (List String)
  -- `CombinedOutput`: the error beside the output.
  pub ffmpeg : List String → F → Option (Error × String) × F
  pub remove : String → F → Option Error × F
  pub remove_all : String → F → Option Error × F

-- `RabbitRepo.Publish`, and the JSON of a job.
pub record Queue (Q : Type 0) : Type 0 where
  pub marshal : TranscodingJob → Result String
  pub publish : String → String → Q → Option Error × Q

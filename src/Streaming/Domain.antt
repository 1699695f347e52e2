-- ===== src/Streaming/Domain.antt =====
-- internal/streaming/domain
use streaming_video_service.Prelude.{ℕ, String}

-- VideoStatus
abbrev pub video_ready : String
video_ready = "ready"

abbrev pub video_upload : String
video_upload = "upload"

abbrev pub video_processing : String
video_processing = "processing"

abbrev pub queue_name : String
queue_name = "transcode"

-- `UploadVideoReq`; the reader is its content.
pub record UploadVideoReq : Type 0 where
  pub title : String
  pub description : String
  pub video_type : String
  pub file_name : String
  pub file : String

pub record UploadVideoRes : Type 0 where
  pub message : String
  pub video_id : ℕ

pub record GetVideoRes : Type 0 where
  pub video_id : ℕ
  pub title : String
  pub hls_url : String

pub record Video : Type 0 where
  pub id : ℕ
  pub title : String
  pub description : String
  pub file_name : String
  pub video_type : String
  pub status : String
  pub view_count : ℕ

pub record TranscodingJob : Type 0 where
  pub video_id : ℕ
  pub file_name : String
  pub job_type : String

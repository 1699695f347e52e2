-- ===== src/Streaming/Pb.antt =====
-- pkg/proto/streaming/streaming.proto: the messages of the streaming service. A 64-bit id is a
-- natural number; the bytes of a file are a text.
use streaming_video_service.Prelude.{ℕ, String, Bool, List}

pub record VideoMetadata : Type 0 where
  pub title : String
  pub description : String
  pub video_type : String
  pub file_name : String

-- The oneof of `UploadVideoReq`; `unset` is a message with no field of it.
pub data StreamData : Type 0 where
  metadata : VideoMetadata → StreamData
  chunk : String → StreamData
  unset : StreamData

-- `streaming_pb.UploadVideoRes`, beside the type of that name of the domain.
pub record PbUploadVideoRes : Type 0 where
  pub success : Bool
  pub message : String
  pub video_id : ℕ

-- `streaming_pb.GetVideoRes`
pub record PbGetVideoRes : Type 0 where
  pub success : Bool
  pub video_id : ℕ
  pub title : String
  pub hls_url : String
  pub error : String

pub record SearchFeedBack : Type 0 where
  pub video_id : ℕ
  pub title : String
  pub description : String
  pub file_name : String
  pub video_type : String
  pub status : String
  pub view_c_count : ℕ

-- `SearchRes` and `GetRecommendationsRes`
pub record SearchRes : Type 0 where
  pub success : Bool
  pub error : String
  pub video : List SearchFeedBack

-- `GetIndexM3U8Res` and `GetHlsSegmentRes`
pub record ContentRes : Type 0 where
  pub success : Bool
  pub error : String
  pub content : String

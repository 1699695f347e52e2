-- ===== src/Api/Upload.antt =====
-- internal/api/handlers/streaming_handler.go: `UploadVideo`, which sends a form's file in chunks. The
-- file and the gRPC client are parameters.
pub mod Chunks
pub mod Reassembly
use streaming_video_service.Prelude.{
  ℕ, zero, suc, ◌*◌, String, Bool, true, false, ◌==◌, Option, none, some, if◌then◌else◌,
}
use streaming_video_service.Golang.{Error, Result, ok, err}
use streaming_video_service.Streaming.Pb.{
  VideoMetadata, StreamData, metadata, chunk, PbUploadVideoRes,
}
use streaming_video_service.Api.Http.{HttpRes, json_res, error_res}

-- `Read` into a buffer: the bytes that it gives, with nil or io.EOF, or another error.
pub data Reading : Type 0 where
  bytes : String → Reading
  broken : Error → Reading

-- `multipart.File`: `read` takes the length of the buffer.
pub record Reader (R : Type 0) : Type 0 where
  pub read : ℕ → R → Reading × R

-- `StreamingClient.UploadVideo`, and `Send` and `CloseAndRecv` of the stream that it opens.
pub record UploadClient (T : Type 0) : Type 0 where
  pub start : T → Option Error × T
  pub send : StreamData → T → Option Error × T
  pub close_and_recv : T → Result PbUploadVideoRes × T

-- The form's fields, and the file with its name and what `Open` gives.
pub record FileHeader (R : Type 0) : Type 0 where
  pub file_name : String
  pub opened : Result R

pub record Form (R : Type 0) : Type 0 where
  pub title : String
  pub description : String
  pub video_type : String
  pub file : Result (FileHeader R)

abbrev pub chunk_size : ℕ
chunk_size = 32 * 1024

-- How the loop ends: the file was sent, an answer was given early, or the fuel ran out.
pub data Sending : Type 0 where
  sent : Sending
  stopped : String → Sending
  unfinished : Sending

abbrev pub metadata_of : {R : Type 0} → Form R → FileHeader R → VideoMetadata
metadata_of form header = record {
  title = form.title;
  description = form.description;
  video_type = form.video_type;
  file_name = header.file_name;
}

-- Steps 5 and 6.
unfoldable pub close_upload :
    {T : Type 0} → UploadClient T → Sending → T → Option (HttpRes PbUploadVideoRes) × T
close_upload client unfinished t = (none, t)
close_upload client (stopped text) t = (some (error_res 500 text), t)
close_upload client sent t =
    let (r, t') = client.close_and_recv t in
    elim r [
      | err e ↦ (some (error_res 500 "Failed to complete upload"), t')
      | ok res ↦ (some (json_res res), t')
    ]

module _ {R T : Type 0} (reader : Reader R) (client : UploadClient T) where
  -- Step 4, the loop over the file.
  unfoldable pub send_file : ℕ → R → T → Sending × T
  send_file zero file t = (unfinished, t)
  send_file (suc fuel) file t =
      let (got, file') = reader.read chunk_size file in
      elim got [
        | broken e ↦ (stopped "Error reading file", t)
        | bytes data_read ↦
            if data_read == ""
            then (sent, t)
            else let (e, t') = client.send (chunk data_read) t in
              elim e [
                | some m ↦ (stopped "Error sending file chunk", t')
                | none ↦ send_file fuel file' t'
              ]
      ]

  -- Steps 2 and 3, of an opened file, and the rest.
  unfoldable pub stream_file : ℕ → VideoMetadata → R → T → Option (HttpRes PbUploadVideoRes) × T
  unfolding send_file close_upload
  stream_file fuel m file t =
      let (e, t') = client.start t in
      elim e [
        | some error ↦ (some (error_res 500 "Failed to create gRPC stream"), t')
        | none ↦
            let (e', t'') = client.send (metadata m) t' in
            elim e' [
              | some error ↦ (some (error_res 500 "Failed to send metadata"), t'')
              | none ↦ let (s, t₃) = send_file fuel file t'' in close_upload client s t₃
            ]
      ]

  -- `UploadVideo`; `none` stands for a loop that outlasts its fuel.
  unfoldable pub gateway_upload : ℕ → Form R → T → Option (HttpRes PbUploadVideoRes) × T
  unfolding stream_file
  gateway_upload fuel form t = elim form.file [
    | err e ↦ (some (error_res 400 "Missing file"), t)
    | ok header ↦ elim header.opened [
      | err e ↦ (some (error_res 500 "Failed to open file"), t)
      | ok file ↦ stream_file fuel (metadata_of form header) file t
    ]
  ]

-- ===== src/Api/Streaming/Playback.antt =====
-- Playing a video through the gateway: its playlist and its segments, and what the worker has made of
-- an upload.
use streaming_video_service.Prelude.{ℕ, String, ◌≡◌, true, Option, none, some, [], ◌∷◌, join}
use streaming_video_service.Golang.{Error, Result, ok, err}
use streaming_video_service.Streaming.Decimal.{decimal}
use streaming_video_service.Streaming.Domain.{Video}
use streaming_video_service.Streaming.Pb.{PbGetVideoRes, ContentRes}
use streaming_video_service.Streaming.Repository.{VideoRepo, Disk}
use streaming_video_service.Streaming.Playback.{ObjectStore, get_index_m3u8, get_hls_segment}
use streaming_video_service.Streaming.UseCase.{Stores as VideoStores}
use streaming_video_service.Streaming.Server.{handle_get_index_m3u8, handle_get_hls_segment}
use streaming_video_service.Streaming.Worker.{Stores}
use streaming_video_service.Api.Http.{HttpRes, content, error_res}
use streaming_video_service.Api.Rpc.{Delivered}
use streaming_video_service.Api.Streaming.{
  StreamingServiceClient, gateway_get_index_m3u8, gateway_get_hls_segment,
}

-- A client of the server whose objects are `o`.
pub record Plays {O : Type 0} (client : StreamingServiceClient) (store : ObjectStore O) (o : O)
    : Type 0 where
  pub index-Delivered :
      (id : String) → Delivered (client.get_index_m3u8 id) (handle_get_index_m3u8 store id o)
  pub segment-Delivered :
      (id segment : String)
      → Delivered (client.get_hls_segment id segment) (handle_get_hls_segment store id segment o)

abbrev pub content_or_empty : Result String → String
content_or_empty (ok text) = text
content_or_empty (err e) = ""

-- The answer that shows a missing object as an error.
abbrev pub IsContentOrError : Result String → HttpRes ContentRes → Type 0
IsContentOrError (ok text) out = out ≡ record { status = 200; body = content "video/mp2t" text }
IsContentOrError (err e) out = (m : Error) × (out ≡ error_res 500 m)

-- Objects that are there can be opened and read.
pub record Opens {O : Type 0} (store : ObjectStore O) (content_of : O → String → Option String)
    : Type 0 where
  pub get_object-ok :
      (key text : String) (o : O)
      → content_of o key ≡ some text
      → store.get_object key o ≡ ok (ok text)

-- The database gives the video of an id, and, where it has one, it as it was last stored.
pub record Saves {V : Type 0} (repo : VideoRepo V) : Type 0 where
  pub get_by_id-id :
      (id : ℕ) (video : Video) (v : V) → repo.get_by_id id v ≡ ok video → video.id ≡ id
  pub get_by_id-update :
      (video old : Video) (v : V)
      → repo.get_by_id video.id v ≡ ok old
      → (repo.update video v).0 ≡ none
      → repo.get_by_id video.id (repo.update video v).1 ≡ ok video

-- A file of the output directory that the gateway serves with its content, as a segment and, if it is
-- the playlist, as this.
abbrev pub IsServed : {F : Type 0} → Disk F → F → StreamingServiceClient → ℕ → String → Type 0
IsServed disk f client id name =
    (text : String) × (disk.open_file (join ("tmp/" ∷ decimal id ∷ "_processed/" ∷ name ∷ [])) f
      ≡ ok text)
    × (gateway_get_hls_segment client (decimal id) name
        ≡ record { status = 200; body = content "video/mp2t" text })
    × (name ≡ "index.m3u8"
        → gateway_get_index_m3u8 client (decimal id)
          ≡ record { status = 200; body = content "application/vnd.apple.mpegurl" text })

-- The response for a ready video.
abbrev pub playable : Video → PbGetVideoRes
playable video = record {
  success = true;
  video_id = video.id;
  title = video.title;
  hls_url = join ("http://127.0.0.1:8083/video/hls/" ∷ decimal video.id ∷ "/index.m3u8" ∷ []);
  error = "";
}

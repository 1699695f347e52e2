-- ===== src/Tests/Playing.antt =====
-- Playing a video through the gateway, on stores in memory.
use streaming_video_service.Prelude.{
  ℕ, String, Option, none, some, List, [], ◌∷◌, ◌==◌, if◌then◌else◌,
}
use streaming_video_service.Golang.{Error, Result, ok, err}
use streaming_video_service.Streaming.Domain.{Video}
use streaming_video_service.Streaming.Repository.{video_repo, MinIoClient}
use streaming_video_service.Streaming.Storage.{MinIo, minio_client}
use streaming_video_service.Streaming.Playback.{ObjectStore, get_index_m3u8, get_hls_segment}
use streaming_video_service.Streaming.UseCase.{Stores as VideoStores, StreamingUseCase}
use streaming_video_service.Streaming.Server.{
  handle_get_video, handle_get_index_m3u8, handle_get_hls_segment,
}
use streaming_video_service.Streaming.Worker.{Stores, Consumer, process_transcoding_job}
use streaming_video_service.Api.Streaming.{StreamingServiceClient}
use streaming_video_service.Tests.Videos.{gorm, disk, rabbit, cat, cat_job}

delivered : {A : Type 0} → A × Option Error → Result A
delivered (res, none) = ok res
delivered (res, some e) = err e

-- Objects with their contents.
abbrev Shelf : Type 0
Shelf = List (String × String)

look_up : Shelf → String → Option String
look_up [] key = none
look_up ((k, text) ∷ rest) key =
    let later = look_up rest key in if k == key then some text else later

given : Option String → Result String
given none = err "no such key"
given (some text) = ok text

abbrev shelf : MinIo Shelf
shelf = record {
  put_object = λ key text kind o. (none, (key, text) ∷ o);
  get_object = λ key o. given (look_up o key);
}

opened : Option String → Result (Result String)
opened none = err "no such key"
opened (some text) = ok (ok text)

abbrev object_store : ObjectStore Shelf
object_store = record { get_object = λ key o. opened (look_up o key) }

abbrev minio : MinIoClient Shelf ℕ
minio = minio_client shelf disk

abbrev consumer : Consumer (List Video) Shelf ℕ
consumer = record { minio_client = minio; video_repo = video_repo gorm; disk = disk }

abbrev stores : Stores (List Video) Shelf ℕ
stores = record { videos = cat ∷ []; objects = ("original/1/cat.mp4", "meow") ∷ []; files = 0 }

abbrev uc : StreamingUseCase (List Video) Shelf ℕ (List String)
uc = record {
  minio_client = minio;
  video_repo = video_repo gorm;
  disk = disk;
  rabbit_channel = rabbit;
}

-- A client for the video 1, after its job.
abbrev watched : VideoStores (List Video) Shelf ℕ (List String)
watched =
    let out = (process_transcoding_job consumer cat_job stores).1 in
    record { videos = out.videos; objects = out.objects; files = out.files; queue = [] }

abbrev player : StreamingServiceClient
player = record {
  get_video = λ id. delivered (handle_get_video uc id 1 watched);
  search = λ key_word. err "not used";
  get_recommendations = λ limit. err "not used";
  get_index_m3u8 = λ id. delivered (handle_get_index_m3u8 object_store id watched.objects);
  get_hls_segment =
      λ id segment. delivered (handle_get_hls_segment object_store id segment watched.objects);
}

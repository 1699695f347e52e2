-- ===== src/Tests/Videos.antt =====
-- Stores in memory for the tests of the streaming service: videos are a list, the objects are the
-- list of their keys, the disk counts its operations, and the queue is the list of its messages.
use streaming_video_service.Prelude.{
  ℕ, ◌+◌, String, Bool, false, ◌==◌, ==_self, ◌||◌, Option, none, some, List, [], ◌∷◌, ◌++◌, length,
  find?, nat_beq, arith, update_first,
}
use streaming_video_service.Golang.{Result, ok, err}
use streaming_video_service.Streaming.Domain.{Video, TranscodingJob, UploadVideoReq}
use streaming_video_service.Streaming.Repository.{Gorm, video_repo, MinIoClient, Disk, Queue}
use streaming_video_service.Streaming.Storage.{MinIo, minio_client, Puts, Keeps, minio_client-Keeps}
use streaming_video_service.Streaming.UseCase.{Stores as UploadStores, StreamingUseCase}
use streaming_video_service.Streaming.Worker.{Stores, Consumer}

abbrev pub or_missing : Option Video → Result Video
or_missing none = err "record not found"
or_missing (some v) = ok v

abbrev pub video_has_id : ℕ → Video → Bool
video_has_id id v = nat_beq v.id id

abbrev pub gorm : Gorm (List Video)
gorm = record {
  create =
      λ video v. let new : Video = record video { id = length v + 1 } in (ok new, v ++ new ∷ []);
  first = λ id v. or_missing (find? (video_has_id id) v);
  save = λ video v. (none, update_first (video_has_id video.id) (λ _. video) v);
  find_status = λ status v. ok v;
  find_like = λ like status v. ok v;
  find_popular = λ limit v. ok v;
}

abbrev pub server : MinIo (List String)
server = record { put_object = λ key content kind o. (none, key ∷ o); get_object = λ key o. ok key }

abbrev pub disk : Disk ℕ
disk = record {
  mkdir_all = λ path f. (none, f + 1);
  create_file = λ path f. (none, f + 1);
  copy_file = λ path content f. (none, f + 1);
  open_file = λ path f. ok path;
  read_dir = λ path f. ok ("index.m3u8" ∷ "index0.ts" ∷ []);
  ffmpeg = λ args f. (none, f + 1);
  remove = λ path f. (none, f + 1);
  remove_all = λ path f. (none, f + 1);
}

abbrev pub rabbit : Queue (List String)
rabbit = record {
  marshal = λ job. ok job.file_name;
  publish = λ name body q. (none, q ++ body ∷ []);
}

abbrev pub has_key : List String → String → Bool
has_key [] key = false
has_key (k ∷ ks) key = k == key || has_key ks key

pub server-Puts : Puts server has_key
server-Puts = record {
  put_object-has = λ key content kind o e. ground (arith, ==_self key);
  put_object-keeps = λ key content kind other o h. ground (arith, h);
}

abbrev pub minio : MinIoClient (List String) ℕ
minio = minio_client server disk

pub minio-Keeps : Keeps minio has_key
minio-Keeps = minio_client-Keeps server has_key server-Puts disk

abbrev pub consumer : Consumer (List Video) (List String) ℕ
consumer = record { minio_client = minio; video_repo = video_repo gorm; disk = disk }

abbrev pub cat : Video
cat = record {
  id = 1;
  title = "cat";
  description = "";
  file_name = "original/1/cat.mp4";
  video_type = "short";
  status = "upload";
  view_count = 0;
}

abbrev pub cat_job : TranscodingJob
cat_job = record { video_id = 1; file_name = "original/1/cat.mp4"; job_type = "short" }

abbrev pub stores : Stores (List Video) (List String) ℕ
stores = record { videos = cat ∷ []; objects = "original/1/cat.mp4" ∷ []; files = 0 }

abbrev pub uc : StreamingUseCase (List Video) (List String) ℕ (List String)
uc = record {
  minio_client = minio;
  video_repo = video_repo gorm;
  disk = disk;
  rabbit_channel = rabbit;
}

abbrev pub empty : UploadStores (List Video) (List String) ℕ (List String)
empty = record { videos = []; objects = []; files = 0; queue = [] }

abbrev pub request : UploadVideoReq
request = record {
  title = "cat";
  description = "";
  video_type = "short";
  file_name = "cat.mp4";
  file = "bytes";
}

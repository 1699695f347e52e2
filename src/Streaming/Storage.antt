-- ===== src/Streaming/Storage.antt =====
-- pkg/database/minio.go: `UploadFile` and `DownloadFile`, over the client of MinIO, a parameter, and
-- the local files.
use streaming_video_service.Prelude.{String, ◌≡◌, Bool, true, Option, none, some, append_text}
use streaming_video_service.Golang.{Error, Result, ok, err}
use streaming_video_service.Streaming.Repository.{MinIoClient, Disk}

-- `PutObject` with the content of a file, and the content of the object of `GetObject`.
pub record MinIo (O : Type 0) : Type 0 where
  pub put_object : String → String → String → O → Option Error × O
  pub get_object : String → O → Result String

-- `UploadFile`, by the content of the opened file.
unfoldable pub put_opened :
    {O : Type 0} → MinIo O → String → String → Result String → O → Option Error × O
put_opened client key kind (ok content) o = client.put_object key content kind o
put_opened client key kind (err e) o = (some (append_text "開啟檔案失敗: " e), o)

-- `DownloadFile`, by the content of the object.
unfoldable pub save_object : {F : Type 0} → Disk F → String → Result String → F → Option Error × F
save_object disk dest (err e) f = (some (append_text "取得物件失敗: " e), f)
save_object disk dest (ok content) f =
    let (e, f') = disk.create_file dest f in
    elim e [
      | some m ↦ (some (append_text "建立檔案失敗: " m), f')
      | none ↦ disk.copy_file dest content f'
    ]

-- `minIOClient`
unfoldable pub minio_client : {O F : Type 0} → MinIo O → Disk F → MinIoClient O F
unfolding put_opened save_object
minio_client client disk = record {
  upload_file = λ key path kind f o. put_opened client key kind (disk.open_file path f) o;
  download_file = λ key dest o f. save_object disk dest (client.get_object key o) f;
}

-- `has` tells which keys have an object: `PutObject` without an error has made one, and none is lost.
pub record Puts {O : Type 0} (client : MinIo O) (has : O → String → Bool) : Type 0 where
  pub put_object-has :
      (key content kind : String) (o : O)
      → (client.put_object key content kind o).0 ≡ none
      → has (client.put_object key content kind o).1 key ≡ true
  pub put_object-keeps :
      (key content kind other : String) (o : O)
      → has o other ≡ true
      → has (client.put_object key content kind o).1 other ≡ true

-- The same of `UploadFile`, as the worker relies on it.
pub record Keeps {O F : Type 0} (minio : MinIoClient O F) (has : O → String → Bool) : Type 0 where
  pub upload_file-has :
      (key path kind : String) (f : F) (o : O)
      → (minio.upload_file key path kind f o).0 ≡ none
      → has (minio.upload_file key path kind f o).1 key ≡ true
  pub upload_file-keeps :
      (key path kind other : String) (f : F) (o : O)
      → has o other ≡ true
      → has (minio.upload_file key path kind f o).1 other ≡ true

module _ {O : Type 0} (client : MinIo O) (has : O → String → Bool) (laws : Puts client has) where
  put_opened-has :
      (key kind : String) (r : Result String) (o : O)
      → (put_opened client key kind r o).0 ≡ none
      → has (put_opened client key kind r o).1 key ≡ true
  unfolding put_opened
  put_opened-has key kind (ok content) o e = laws.put_object-has key content kind o e
  put_opened-has key kind (err m) o e = absurd (cc)

  put_opened-keeps :
      (key kind other : String) (r : Result String) (o : O)
      → has o other ≡ true
      → has (put_opened client key kind r o).1 other ≡ true
  unfolding put_opened
  put_opened-keeps key kind other (ok content) o h =
      laws.put_object-keeps key content kind other o h
  put_opened-keeps key kind other (err m) o h = h

  pub minio_client-Keeps : {F : Type 0} (disk : Disk F) → Keeps (minio_client client disk) has
  unfolding minio_client
  minio_client-Keeps disk = record {
    upload_file-has = λ key path kind f o e. put_opened-has key kind (disk.open_file path f) o e;
    upload_file-keeps =
        λ key path kind other f o h. put_opened-keeps key kind other (disk.open_file path f) o h;
  }

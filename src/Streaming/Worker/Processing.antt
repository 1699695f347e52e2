-- ===== src/Streaming/Worker/Processing.antt =====
-- What `processTranscodingJob` of internal/streaming/app/work.go has done when it gives no error.
use streaming_video_service.Prelude.{
  ℕ, String, ◌≡◌, refl, sym, subst, Bool, true, Option, none, some, Option-cases, List, [], ◌∷◌,
  All, arith, inl, inr,
}
use streaming_video_service.Golang.{Error, ok, Result-cases}
use streaming_video_service.Streaming.Domain.{Video, TranscodingJob, video_ready}
use streaming_video_service.Streaming.Storage.{Keeps}
use streaming_video_service.Streaming.Worker.{
  Stores, Consumer, processed_key, local_file_path, local_output_dir, local_input_path,
  get_content_type, wrapped, hls_args, upload_files, finish_job, upload_outputs, transcode,
  process_transcoding_job,
}

-- A step of the loop that uploads: the file, then the others;
pub upload_files-next :
    {V O F : Type 0} (c : Consumer V O F) (id : ℕ) (name : String) (names : List String) (f : F)
    (o : O)
    → let k = processed_key id name in
      let out = c.minio_client.upload_file k (local_file_path id name) (get_content_type k) f o in
      out.0 ≡ none → upload_files c id (name ∷ names) f o ≡ upload_files c id names f out.1
unfolding upload_files
upload_files-next c id name names f o up = rw (up, upload_files) refl

-- or the failure that ends it.
pub upload_files-failed :
    {V O F : Type 0} (c : Consumer V O F) (id : ℕ) (name : String) (names : List String) (f : F)
    (o : O) (e : Error)
    → let k = processed_key id name in
      let out = c.minio_client.upload_file k (local_file_path id name) (get_content_type k) f o in
      out.0 ≡ some e → upload_files c id (name ∷ names) f o ≡ (wrapped "上傳轉碼結果失敗" e, out.1)
unfolding upload_files
upload_files-failed c id name names f o e down = rw (down, upload_files) refl

module _ {V O F : Type 0} (c : Consumer V O F) (has : O → String → Bool)
    (laws : Keeps c.minio_client has) where
  upload_files-keeps :
      (id : ℕ) (names : List String) (f : F) (o : O) (key : String)
      → has o key ≡ true
      → has (upload_files c id names f o).1 key ≡ true
  upload_files-keeps id [] f o key h = unfold upload_files in h
  upload_files-keeps id (name ∷ names) f o key h =
      let k = processed_key id name in
      let path = local_file_path id name in
      let kind = get_content_type k in
      let kept = laws.upload_file-keeps k path kind key f o h in
      elim (Option-cases (c.minio_client.upload_file k path kind f o).0) [
        | inl up ↦
            rw (upload_files-next c id name names f o up) (
              upload_files-keeps id names f (c.minio_client.upload_file k path kind f o).1 key kept)
        | inr (e, down) ↦ rw (upload_files-failed c id name names f o e down) kept
      ]

  upload_files-has :
      (id : ℕ) (names : List String) (f : F) (o : O)
      → (upload_files c id names f o).0 ≡ none
      → All
          (λ (name : String). has (upload_files c id names f o).1 (processed_key id name) ≡ true)
          names
  upload_files-has id [] f o done = tt
  upload_files-has id (name ∷ names) f o done =
      let k = processed_key id name in
      let path = local_file_path id name in
      let kind = get_content_type k in
      let o' = (c.minio_client.upload_file k path kind f o).1 in
      elim (Option-cases (c.minio_client.upload_file k path kind f o).0) [
        | inr (e, down) ↦
            let is = upload_files-failed c id name names f o e down in
            absurd (ground (arith, rw is at done))
        | inl up ↦
            let next = upload_files-next c id name names f o up in
            subst
              (λ (out : Option Error × O).
                All (λ (x : String). has out.1 (processed_key id x) ≡ true) (name ∷ names))
              (sym next)
              (
                upload_files-keeps id names f o' k (laws.upload_file-has k path kind f o up),
                upload_files-has id names f o' (rw next at done),
              )
      ]

  finish_job-inv :
      (id : ℕ) (s : Stores V O F)
      → (finish_job c id s).0 ≡ none
      → (video : Video) × (c.video_repo.get_by_id id s.videos ≡ ok video)
        × ((c.video_repo.update (record video { status = video_ready }) s.videos).0 ≡ none)
        × ((finish_job c id s).1.videos
            ≡ (c.video_repo.update (record video { status = video_ready }) s.videos).1)
        × ((finish_job c id s).1.objects ≡ s.objects)
  unfolding finish_job
  finish_job-inv id s done = elim (Result-cases (c.video_repo.get_by_id id s.videos)) [
    | inr (e, missing) ↦ absurd (ground (arith, missing, done))
    | inl (video, there) ↦
        let new : Video = record video { status = video_ready } in
        elim (Option-cases (c.video_repo.update new s.videos).0) [
          | inr (e, down) ↦ absurd (ground (arith, rw down at (rw (there, finish_job) at done)))
          | inl up ↦ (
            video,
            there,
            up,
            rw (there, finish_job) (rw up refl),
            rw (there, finish_job) (rw up refl),
          )
        ]
  ]

  -- What a job without an error has done from the output files on.
  abbrev pub Done : ℕ → Stores V O F → Stores V O F → Type 0
  Done id s s' =
      (names : List String) × (video : Video) × (c.disk.read_dir (local_output_dir id) s.files
        ≡ ok names)
      × All (λ (name : String). has s'.objects (processed_key id name) ≡ true) names
      × (c.video_repo.get_by_id id s.videos ≡ ok video)
      × ((c.video_repo.update (record video { status = video_ready }) s.videos).0 ≡ none)
      × (s'.videos ≡ (c.video_repo.update (record video { status = video_ready }) s.videos).1)
      × ((upload_files c id names s.files s.objects).0 ≡ none)
      × (s'.objects ≡ (upload_files c id names s.files s.objects).1)

  upload_outputs-Done :
      (id : ℕ) (s : Stores V O F)
      → (upload_outputs c id s).0 ≡ none
      → Done id s (upload_outputs c id s).1
  unfolding upload_outputs
  upload_outputs-Done id s done =
      elim (Result-cases (c.disk.read_dir (local_output_dir id) s.files)) [
        | inr (e, missing) ↦ absurd (ground (arith, missing, done))
        | inl (names, there) ↦
            let o = (upload_files c id names s.files s.objects).1 in
            let s' : Stores V O F = record s { objects = o } in
            elim (Option-cases (upload_files c id names s.files s.objects).0) [
              | inr (e, down) ↦
                  absurd (ground (arith, rw down at (rw (there, upload_outputs) at done)))
              | inl up ↦
                  let is : upload_outputs c id s ≡ finish_job c id s' =
                    rw (there, upload_outputs) (rw up refl) in
                  let (video, found, stored, videos, objects) =
                    finish_job-inv id s' (rw is at done) in
                  (
                    names,
                    video,
                    there,
                    rw is (rw objects (upload_files-has id names s.files s.objects up)),
                    found,
                    stored,
                    rw is videos,
                    up,
                    rw is objects,
                  )
            ]
      ]

  transcode-Done :
      (id : ℕ) (s : Stores V O F)
      → (transcode c id s).0 ≡ none
      → let f = (c.disk.mkdir_all (local_output_dir id) s.files).1 in
        let run = c.disk.ffmpeg (hls_args (local_input_path id) (local_output_dir id)) f in
        (run.0 ≡ none) × Done id (record s { files = run.1 }) (transcode c id s).1
  unfolding transcode
  transcode-Done id s done =
      elim (Option-cases (c.disk.mkdir_all (local_output_dir id) s.files).0) [
        | inr (e, down) ↦ absurd (ground (arith, rw (down, transcode) at done))
        | inl up ↦
            let f = (c.disk.mkdir_all (local_output_dir id) s.files).1 in
            let args = hls_args (local_input_path id) (local_output_dir id) in
            elim (Option-cases (c.disk.ffmpeg args f).0) [
              | inr ((e, out), down) ↦
                  absurd (ground (arith, rw down at (rw (up, transcode) at done)))
              | inl ran ↦
                  let s' : Stores V O F = record s { files = (c.disk.ffmpeg args f).1 } in
                  let is : transcode c id s ≡ upload_outputs c id s' =
                    rw (up, transcode) (rw ran refl) in
                  (ran, rw is (upload_outputs-Done id s' (rw is at done)))
            ]
      ]

  -- When `processTranscodingJob` gives no error, the original was downloaded and FFmpeg has run on it
  -- without an error; every file that it left in the output directory has an object under
  -- "processed/", the video's id and the file's name; and the video, which was in the database, was
  -- stored with the status "ready" and no other change.
  pub process_transcoding_job-Done :
      (job : TranscodingJob) (s : Stores V O F)
      → (process_transcoding_job c job s).0 ≡ none
      → let id = job.video_id in
        let got =
          c.minio_client.download_file job.file_name (local_input_path id) s.objects s.files in
        let made = c.disk.mkdir_all (local_output_dir id) got.1 in
        let run = c.disk.ffmpeg (hls_args (local_input_path id) (local_output_dir id)) made.1 in
        (got.0 ≡ none)
        × (run.0 ≡ none)
        × Done id (record s { files = run.1 }) (process_transcoding_job c job s).1
  unfolding process_transcoding_job
  process_transcoding_job-Done job s done =
      let id = job.video_id in
      let path = local_input_path id in
      elim (Option-cases (c.minio_client.download_file job.file_name path s.objects s.files).0) [
        | inr (e, down) ↦ absurd (ground (arith, rw (down, process_transcoding_job) at done))
        | inl got ↦
            let s' : Stores V O F = record s {
              files = (c.minio_client.download_file job.file_name path s.objects s.files).1;
            } in
            let is : process_transcoding_job c job s ≡ transcode c id s' =
              rw (got, process_transcoding_job) refl in
            let (ran, all_done) = transcode-Done id s' (rw is at done) in (got, ran, rw is all_done)
      ]

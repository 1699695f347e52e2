-- ===== src/Streaming/UseCase/Uploading.antt =====
-- What `UploadVideo` of internal/streaming/app/streaming_usecase.go has done when it gives no error.
use streaming_video_service.Prelude.{String, ◌≡◌, refl, none, Option-cases, arith, inl, inr}
use streaming_video_service.Golang.{Result, ok, err, Result-cases}
use streaming_video_service.Streaming.Domain.{Video, UploadVideoReq, UploadVideoRes, queue_name}
use streaming_video_service.Streaming.UseCase.{
  Stores, StreamingUseCase, new_video, temp_path, object_name, job_of, publish_job, store_video,
  upload_original, upload_video,
}

module _ {V O F Q : Type 0} (uc : StreamingUseCase V O F Q) where
  publish_job-ok :
      (up : UploadVideoReq) (video : Video) (r : Result String) (s : Stores V O F Q)
      (res : UploadVideoRes)
      → (publish_job uc up video r s).0 ≡ ok res
      → (body : String) × (r ≡ ok body)
        × (res.video_id ≡ video.id)
        × ((uc.rabbit_channel.publish queue_name body s.queue).0 ≡ none)
        × ((publish_job uc up video r s).1.queue
            ≡ (uc.rabbit_channel.publish queue_name body s.queue).1)
        × ((publish_job uc up video r s).1.videos ≡ s.videos)
        × ((publish_job uc up video r s).1.objects ≡ s.objects)
  unfolding publish_job
  publish_job-ok up video (err e) s res h = absurd (cc)
  publish_job-ok up video (ok body) s res h =
      elim (Option-cases (uc.rabbit_channel.publish queue_name body s.queue).0) [
        | inr (m, down) ↦ absurd (ground (arith, rw (down, publish_job) at h))
        | inl sent ↦ elim (Option-cases (uc.disk.remove (temp_path up.file_name) s.files).0) [
          | inr (m, down) ↦ absurd (ground (arith, rw down at (rw (sent, publish_job) at h)))
          | inl gone ↦ (
            body,
            refl,
            ground (arith, rw gone at (rw (sent, publish_job) at h)),
            sent,
            rw (sent, publish_job) (rw gone refl),
            rw (sent, publish_job) (rw gone refl),
            rw (sent, publish_job) (rw gone refl),
          )
        ]
      ]

  -- What follows the creation of the row: the original is stored, the row has its name, and a job
  -- for it is in the queue.
  abbrev pub IsSent : UploadVideoReq → Video → V → O → F → Q → Stores V O F Q → Type 0
  IsSent up video v o f q s' =
      let key = object_name video.id up.file_name in
      let named : Video = record video { file_name = key } in
      (body : String) × (uc.rabbit_channel.marshal (job_of named) ≡ ok body)
      × ((uc.minio_client.upload_file key (temp_path up.file_name) "video/mp4" f o).0 ≡ none)
      × (s'.objects ≡ (uc.minio_client.upload_file key (temp_path up.file_name) "video/mp4" f o).1)
      × ((uc.video_repo.update named v).0 ≡ none)
      × (s'.videos ≡ (uc.video_repo.update named v).1)
      × ((uc.rabbit_channel.publish queue_name body q).0 ≡ none)
      × (s'.queue ≡ (uc.rabbit_channel.publish queue_name body q).1)

  upload_original-IsSent :
      (up : UploadVideoReq) (video : Video) (s : Stores V O F Q) (res : UploadVideoRes)
      → (upload_original uc up video s).0 ≡ ok res
      → (res.video_id ≡ video.id)
        × IsSent up video s.videos s.objects s.files s.queue (upload_original uc up video s).1
  unfolding upload_original
  upload_original-IsSent up video s res h =
      let key = object_name video.id up.file_name in
      let path = temp_path up.file_name in
      let named : Video = record video { file_name = key } in
      elim (Option-cases (uc.minio_client.upload_file key path "video/mp4" s.files s.objects).0) [
        | inr (m, down) ↦ absurd (ground (arith, rw (down, upload_original) at h))
        | inl stored ↦ elim (Option-cases (uc.video_repo.update named s.videos).0) [
          | inr (m, down) ↦ absurd (ground (arith, rw down at (rw (stored, upload_original) at h)))
          | inl renamed ↦
              let s'' : Stores V O F Q = record s {
                objects = (uc.minio_client.upload_file key path "video/mp4" s.files s.objects).1;
                videos = (uc.video_repo.update named s.videos).1;
              } in
              let r = uc.rabbit_channel.marshal (job_of named) in
              let is : upload_original uc up video s ≡ publish_job uc up named r s'' =
                rw (stored, upload_original) (rw renamed refl) in
              let (body, written, id, sent, queue, videos, objects) =
                publish_job-ok up named r s'' res (rw is at h) in
              (id, (body, written, stored, rw is objects, renamed, rw is videos, sent, rw is queue))
        ]
      ]

  -- When `UploadVideo` gives no error, the content was written to the temporary file and a row with
  -- the status "upload" was created, whose id is the answer. The temporary file was then stored as
  -- the object "original/", the id and the file's name, the row got that name as its file name, and
  -- a job with the id, that name and the video's type was published to the queue, in this order.
  pub upload_video-IsSent :
      (up : UploadVideoReq) (s : Stores V O F Q) (res : UploadVideoRes)
      → (upload_video uc up s).0 ≡ ok res
      → let made = uc.disk.mkdir_all "./tmp" s.files in
        let opened = uc.disk.create_file (temp_path up.file_name) made.1 in
        let written = uc.disk.copy_file (temp_path up.file_name) up.file opened.1 in
        let created = uc.video_repo.create (new_video up) s.videos in
        (made.0 ≡ none)
        × (opened.0 ≡ none)
        × (written.0 ≡ none)
        × ((video : Video) × (created.0 ≡ ok video)
            × (res.video_id ≡ video.id)
            × IsSent up video created.1 s.objects written.1 s.queue (upload_video uc up s).1)
  unfolding upload_video store_video
  upload_video-IsSent up s res h =
      let path = temp_path up.file_name in
      let f = (uc.disk.mkdir_all "./tmp" s.files).1 in
      let f' = (uc.disk.create_file path f).1 in
      let f'' = (uc.disk.copy_file path up.file f').1 in
      elim (Option-cases (uc.disk.mkdir_all "./tmp" s.files).0) [
        | inr (m, down) ↦ absurd (ground (arith, rw (down, upload_video) at h))
        | inl made ↦ elim (Option-cases (uc.disk.create_file path f).0) [
          | inr (m, down) ↦ absurd (ground (arith, rw down at (rw (made, upload_video) at h)))
          | inl opened ↦ elim (Option-cases (uc.disk.copy_file path up.file f').0) [
            | inr (m, down) ↦ absurd (
                ground
                  (arith, rw (down, store_video) at (rw opened at (rw (made, upload_video) at h))))
            | inl written ↦ elim (Result-cases (uc.video_repo.create (new_video up) s.videos).0) [
              | inr (m, down) ↦ absurd (
                  ground (
                    arith,
                    rw down at (
                        rw (written, store_video) at (rw opened at (rw (made, upload_video) at h))),
                  ))
              | inl (video, created) ↦
                  let s' : Stores V O F Q = record s {
                    files = f'';
                    videos = (uc.video_repo.create (new_video up) s.videos).1;
                  } in
                  let is : upload_video uc up s ≡ upload_original uc up video s' =
                    rw (made, upload_video)
                      (rw opened (rw (written, store_video) (rw created refl))) in
                  let (id, rest) = upload_original-IsSent up video s' res (rw is at h) in
                  (made, opened, written, (video, created, id, rw is rest))
            ]
          ]
        ]
      ]

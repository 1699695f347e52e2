-- ===== src/Streaming/Lifecycle/Uploads.antt =====
-- What an upload does to the videos, on every branch.
use streaming_video_service.Prelude.{
  ℕ, String, ◌≡◌, refl, sym, ap, inl, inr, true, nat_beq, some, Option-cases, subst, arith,
}
use streaming_video_service.Golang.{Result, ok, err, Result-cases}
use streaming_video_service.Streaming.Domain.{Video, UploadVideoReq, queue_name}
use streaming_video_service.Streaming.UseCase.{
  Stores, StreamingUseCase, new_video, temp_path, object_name, job_of, publish_job, upload_original,
  store_video, upload_video,
}
use streaming_video_service.Streaming.Lifecycle.{
  Videos, Stored, Later, Later-refl, Later-of_eq, Later-trans, Later-set,
}

module _ {V O F Q : Type 0} (uc : StreamingUseCase V O F Q) where
  publish_job-videos :
      (up : UploadVideoReq) (video : Video) (body : Result String) (s : Stores V O F Q)
      → (publish_job uc up video body s).1.videos ≡ s.videos
  unfolding publish_job
  publish_job-videos up video (err e) s = refl
  publish_job-videos up video (ok body) s =
      elim (Option-cases (uc.rabbit_channel.publish queue_name body s.queue).0) [
        | inr (m, e) ↦ rw (e, publish_job) refl
        | inl e ↦
            rw (e, publish_job)
              (elim (Option-cases (uc.disk.remove (temp_path up.file_name) s.files).0) [
                | inl gone ↦ rw gone refl
                | inr (m, stays) ↦ rw stays refl
              ])
      ]

nat_beq_self : (n : ℕ) → nat_beq n n ≡ true
nat_beq_self n = ground arith

module _ {V O F Q : Type 0} (uc : StreamingUseCase V O F Q) (view : V → Videos)
    (stored : Stored uc.video_repo view) where
  -- From one database to another, with no video made ready.
  abbrev Moves : V → V → Type 0
  Moves v v' = (k : ℕ) → Later ⊥ (view v k) (view v' k)

  Moves-refl : (v : V) → Moves v v
  Moves-refl v k = Later-refl ⊥ (view v k)

  upload_original-Moves :
      (up : UploadVideoReq) (video : Video) (s : Stores V O F Q)
      → view s.videos video.id ≡ some video
      → Moves s.videos (upload_original uc up video s).1.videos
  unfolding upload_original
  upload_original-Moves up video s there =
      let key = object_name video.id up.file_name in
      let named : Video = record video { file_name = key } in
      let v = (uc.video_repo.update named s.videos).1 in
      elim (Option-cases
        (uc.minio_client.upload_file key (temp_path up.file_name) "video/mp4" s.files
          s.objects).0) [
            | inr (m, e) ↦ rw (e, upload_original) (Moves-refl s.videos)
            | inl e ↦
                rw (e, upload_original)
                  (elim (Option-cases (uc.video_repo.update named s.videos).0) [
                    | inr (m, down) ↦ rw down (λ k.
                        Later-of_eq ⊥ (view s.videos k) (view v k)
                          (stored.update-some named s.videos m down k))
                    | inl done ↦ rw done (
                        subst (Moves s.videos)
                          (sym (
                            publish_job-videos uc up named
                              (uc.rabbit_channel.marshal (job_of named)) _))
                          (Later-set (λ k. ⊥) (view s.videos) (view v) video.id named
                            (stored.update-none named s.videos done)
                            (subst (λ o. Later ⊥ o (some named)) (sym there)
                              (refl, refl, refl, refl, inl refl))))
                  ])
          ]

  store_video-Moves :
      (up : UploadVideoReq) (s : Stores V O F Q) → Moves s.videos (store_video uc up s).1.videos
  unfolding store_video
  store_video-Moves up s =
      elim (Option-cases (uc.disk.copy_file (temp_path up.file_name) up.file s.files).0) [
        | inr (m, e) ↦ rw (e, store_video) (Moves-refl s.videos)
        | inl e ↦
            rw (e, store_video)
              (elim (Result-cases (uc.video_repo.create (new_video up) s.videos).0) [
                | inr (m, down) ↦ rw down (λ k.
                    Later-of_eq ⊥ (view s.videos k) _
                      (stored.create-err (new_video up) s.videos m down k))
                | inl (video, made) ↦
                    let v = (uc.video_repo.create (new_video up) s.videos).1 in
                    let s' : Stores V O F Q = record s {
                      videos = v;
                      files = (uc.disk.copy_file (temp_path up.file_name) up.file s.files).1;
                    } in
                    let (filled, fresh, is) = stored.create-ok (new_video up) video s.videos made in
                    let first =
                      Later-set (λ k. ⊥) (view s.videos) (view v) video.id video is
                        (subst (λ o. Later ⊥ o (some video)) (sym fresh)
                          (inl (ap (λ (x : Video). x.status) filled))) in
                    let there = rw (nat_beq_self video.id) at (is video.id) in
                    rw made (λ k.
                      Later-trans ⊥ (view s.videos k) (view v k) _ (first k)
                        (upload_original-Moves up video s' there k))
              ])
      ]

  -- An upload, whichever step fails, keeps of every video its status and what its client gave, and adds
  -- at most videos with the status "upload".
  pub upload_video-Moves :
      (up : UploadVideoReq) (s : Stores V O F Q) → Moves s.videos (upload_video uc up s).1.videos
  unfolding upload_video
  upload_video-Moves up s =
      let f = (uc.disk.mkdir_all "./tmp" s.files).1 in
      let made = uc.disk.create_file (temp_path up.file_name) f in
      elim (Option-cases (uc.disk.mkdir_all "./tmp" s.files).0) [
        | inr (m, e) ↦ rw (e, upload_video) (Moves-refl s.videos)
        | inl e ↦
            rw (e, upload_video)
              (elim (Option-cases made.0) [
                | inr (m, e') ↦ rw e' (Moves-refl s.videos)
                | inl e' ↦ rw e' (store_video-Moves up (record s { files = made.1 }))
              ])
      ]

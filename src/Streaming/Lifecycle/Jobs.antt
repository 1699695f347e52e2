-- ===== src/Streaming/Lifecycle/Jobs.antt =====
-- What a job of the worker does to the videos, on every branch.
use streaming_video_service.Prelude.{ℕ, ◌≡◌, refl, sym, inl, inr, some, Option-cases, subst}
use streaming_video_service.Golang.{Result-cases}
use streaming_video_service.Streaming.Domain.{Video, TranscodingJob, video_ready}
use streaming_video_service.Streaming.Worker.{
  Stores, Consumer, local_input_path, local_output_dir, hls_args, upload_files, finish_job,
  upload_outputs, transcode, process_transcoding_job,
}
use streaming_video_service.Streaming.Lifecycle.{
  Videos, Stored, Later, Later-refl, Later-of_eq, Later-set,
}

module _ {V O F : Type 0} (c : Consumer V O F) (view : V → Videos)
    (stored : Stored c.video_repo view) where
  -- From one database to another, with no video made ready but the one of an id.
  abbrev Moves : ℕ → V → V → Type 0
  Moves id v v' = (k : ℕ) → Later (k ≡ id) (view v k) (view v' k)

  Moves-refl : (id : ℕ) (v : V) → Moves id v v
  Moves-refl id v k = Later-refl (k ≡ id) (view v k)

  finish_job-Moves : (id : ℕ) (s : Stores V O F) → Moves id s.videos (finish_job c id s).1.videos
  unfolding finish_job
  finish_job-Moves id s = elim (Result-cases (c.video_repo.get_by_id id s.videos)) [
    | inr (m, e) ↦ rw (e, finish_job) (Moves-refl id s.videos)
    | inl (video, e) ↦
        let ready : Video = record video { status = video_ready } in
        let v = (c.video_repo.update ready s.videos).1 in
        let (there, is_id) = stored.get_by_id-ok id video s.videos e in
        elim (Option-cases (c.video_repo.update ready s.videos).0) [
          | inr (m, down) ↦
              rw (e, finish_job)
                (rw down (λ k.
                  Later-of_eq (k ≡ id) (view s.videos k) (view v k)
                    (stored.update-some ready s.videos m down k)))
          | inl done ↦
              rw (e, finish_job)
                (rw done (
                  Later-set (λ k. k ≡ id) (view s.videos) (view v) video.id ready
                    (stored.update-none ready s.videos done)
                    (subst (λ j. Later (video.id ≡ id) (view s.videos j) (some ready)) (sym is_id)
                      (subst (λ o. Later (video.id ≡ id) o (some ready)) (sym there)
                        (refl, refl, refl, refl, inr (refl, is_id))))))
        ]
  ]

  upload_outputs-Moves :
      (id : ℕ) (s : Stores V O F) → Moves id s.videos (upload_outputs c id s).1.videos
  unfolding upload_outputs
  upload_outputs-Moves id s = elim (Result-cases (c.disk.read_dir (local_output_dir id) s.files)) [
    | inr (m, e) ↦ rw (e, upload_outputs) (Moves-refl id s.videos)
    | inl (names, e) ↦
        let out = upload_files c id names s.files s.objects in
        rw (e, upload_outputs)
          (elim (Option-cases out.0) [
            | inr (m, down) ↦ rw down (Moves-refl id s.videos)
            | inl done ↦ rw done (finish_job-Moves id (record s { objects = out.1 }))
          ])
  ]

  transcode-Moves : (id : ℕ) (s : Stores V O F) → Moves id s.videos (transcode c id s).1.videos
  unfolding transcode
  transcode-Moves id s =
      let f = (c.disk.mkdir_all (local_output_dir id) s.files).1 in
      let run = c.disk.ffmpeg (hls_args (local_input_path id) (local_output_dir id)) f in
      elim (Option-cases (c.disk.mkdir_all (local_output_dir id) s.files).0) [
        | inr (m, e) ↦ rw (e, transcode) (Moves-refl id s.videos)
        | inl e ↦
            rw (e, transcode)
              (elim (Option-cases run.0) [
                | inr ((m, output), e') ↦ rw e' (Moves-refl id s.videos)
                | inl e' ↦ rw e' (upload_outputs-Moves id (record s { files = run.1 }))
              ])
      ]

  -- A job, whichever step fails, keeps every video with what its client gave, and changes at most the
  -- status of the job's video, to "ready".
  pub process_transcoding_job-Moves :
      (job : TranscodingJob) (s : Stores V O F)
      → Moves job.video_id s.videos (process_transcoding_job c job s).1.videos
  unfolding process_transcoding_job
  process_transcoding_job-Moves job s =
      let path = local_input_path job.video_id in
      let got = c.minio_client.download_file job.file_name path s.objects s.files in
      elim (Option-cases got.0) [
        | inr (m, e) ↦ rw (e, process_transcoding_job) (Moves-refl job.video_id s.videos)
        | inl e ↦
            rw (e, process_transcoding_job)
              (transcode-Moves job.video_id (record s { files = got.1 }))
      ]

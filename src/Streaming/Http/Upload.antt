-- ===== src/Streaming/Http/Upload.antt =====
-- The upload of the HTTP handler beside that of the use case, from the saved file on: how fiber's
-- `SaveFile` puts the content there is not compared.
use streaming_video_service.Prelude.{
  ℕ, String, ◌≡◌, refl, Option, none, Option-cases, inl, inr, arith,
}
use streaming_video_service.Golang.{Error, Result, ok, err, Result-cases}
use streaming_video_service.Streaming.Domain.{Video, UploadVideoReq, UploadVideoRes, queue_name}
use streaming_video_service.Streaming.UseCase.{
  Stores, StreamingUseCase, new_video, temp_path, object_name, job_of, publish_job, upload_original,
  store_video,
}
use streaming_video_service.Api.Http.{HttpRes, json_res, error_res}
use streaming_video_service.Streaming.Http.{
  VideoHandler, UploadJson, http_clean_up, http_publish, http_store_object, http_store_row,
}

-- Both leave the same, and what succeeds in the use case is answered by 200.
pub record Agrees {W : Type 0} (r : Result UploadVideoRes × W) (out : HttpRes UploadJson × W)
    : Type 0 where
  pub same_state : r.1 ≡ out.1
  pub answer :
      (res : UploadVideoRes)
      → r.0 ≡ ok res
      → out.0 ≡ json_res (record { msg = res.message; video_id = res.video_id })

-- The handler over what the use case has.
abbrev pub handler_of :
    {V O F Q : Type 0}
    → StreamingUseCase V O F Q
    → (String → String → F → Option Error × F)
    → VideoHandler V O F Q
handler_of uc save_file = record {
  minio_client = uc.minio_client;
  video_repo = uc.video_repo;
  rabbit_channel = uc.rabbit_channel;
  disk = uc.disk;
  save_file = save_file;
}

both_fail :
    {W : Type 0} (m : Error) (code : ℕ) (text : String) (w : W)
    → Agrees (err m, w) (error_res code text, w)
both_fail m code text w = record { same_state = refl; answer = λ res e. absurd (cc e) }

module _ {V O F Q : Type 0} (uc : StreamingUseCase V O F Q)
    (save_file : String → String → F → Option Error × F) where
  publish-Agrees :
      (up : UploadVideoReq) (video : Video) (body : Result String) (s : Stores V O F Q)
      → Agrees
          (publish_job uc up video body s)
          (http_publish (handler_of uc save_file) up video body s)
  unfolding publish_job http_publish http_clean_up
  publish-Agrees up video (err e) s = both_fail _ _ _ s
  publish-Agrees up video (ok body) s =
      elim (Option-cases (uc.rabbit_channel.publish queue_name body s.queue).0) [
        | inr (m, e) ↦ rw (e, publish_job, http_publish) (both_fail _ _ _ _)
        | inl e ↦
            rw (e, publish_job, http_publish)
              (elim (Option-cases (uc.disk.remove (temp_path up.file_name) s.files).0) [
                | inl gone ↦
                    rw gone (record { same_state = refl; answer = λ res e. ground (arith, e) })
                | inr (m, stays) ↦
                    rw stays (record { same_state = refl; answer = λ res e. absurd (cc e) })
              ])
      ]

  object-Agrees :
      (up : UploadVideoReq) (video : Video) (s : Stores V O F Q)
      → Agrees
          (upload_original uc up video s)
          (http_store_object (handler_of uc save_file) up video s)
  unfolding upload_original http_store_object
  object-Agrees up video s =
      let key = object_name video.id up.file_name in
      let named : Video = record video { file_name = key } in
      elim (Option-cases
        (uc.minio_client.upload_file key (temp_path up.file_name) "video/mp4" s.files
          s.objects).0) [
            | inr (m, e) ↦ rw (e, upload_original, http_store_object) (both_fail _ _ _ _)
            | inl e ↦
                rw (e, upload_original, http_store_object)
                  (elim (Option-cases (uc.video_repo.update named s.videos).0) [
                    | inr (m, e') ↦ rw e' (both_fail _ _ _ _)
                    | inl e' ↦
                        rw e' (publish-Agrees up named (uc.rabbit_channel.marshal (job_of named)) _)
                  ])
          ]

  -- From the files as they are when the content has been copied into the temporary file without an
  -- error, the HTTP handler leaves the same videos, objects, files and messages as the use case,
  -- whichever of the steps fail; and an upload that succeeds in the use case is answered by 200 with its
  -- message and id.
  pub store_video-http_store_row :
      (up : UploadVideoReq) (s : Stores V O F Q)
      → let copied = uc.disk.copy_file (temp_path up.file_name) up.file s.files in
        copied.0 ≡ none
        → Agrees
            (store_video uc up s)
            (http_store_row (handler_of uc save_file) up (record s { files = copied.1 }))
  unfolding store_video http_store_row
  store_video-http_store_row up s e =
      rw (e, store_video)
        (elim (Result-cases (uc.video_repo.create (new_video up) s.videos).0) [
          | inr (m, e') ↦ rw (e', http_store_row) (both_fail _ _ _ _)
          | inl (video, e') ↦ rw (e', http_store_row) (object-Agrees up video _)
        ])

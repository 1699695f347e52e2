-- ===== src/Streaming/Lifecycle/Runs.antt =====
-- Any sequence of uploads and jobs, against the life of a video.
use streaming_video_service.Prelude.{
  ℕ, String, ◌≡◌, ◌≢◌, eq_of_some, ◌⊎◌, inl, inr, refl, sym, ◌∙◌, ap, Bool-cases, ◌==◌, eq_iff,
  Option, none, some, List, [], ◌∷◌, arith,
}
use streaming_video_service.Golang.{ok, Result-cases}
use streaming_video_service.Streaming.Domain.{
  Video, GetVideoRes, video_ready, video_upload, UploadVideoReq, TranscodingJob,
}
use streaming_video_service.Streaming.UseCase.{Stores, StreamingUseCase, upload_video, get_video}
use streaming_video_service.Streaming.Worker.{Consumer, process_transcoding_job}
use streaming_video_service.Streaming.Lifecycle.{
  Videos, Stored, Later, Later-refl, Later-trans, Later-mono,
}
use streaming_video_service.Streaming.Lifecycle.Uploads.{upload_video-Moves}
use streaming_video_service.Streaming.Lifecycle.Jobs.{process_transcoding_job-Moves}

-- A request to the use case, or a job that the worker takes.
pub data Op : Type 0 where
  uploads : UploadVideoReq → Op
  transcodes : TranscodingJob → Op

-- A job of the sequence names a video.
abbrev pub HasJob : List Op → ℕ → Type 0
HasJob [] id = ⊥
HasJob (uploads up ∷ ops) id = HasJob ops id
HasJob (transcodes job ∷ ops) id = (id ≡ job.video_id) ⊎ HasJob ops id

upload_ne_ready : video_upload ≢ video_ready
upload_ne_ready e = cc ((eq_iff video_upload video_ready).1 e)

-- A video that is ready was so before, or may have become so.
was_ready :
    (P : Type 0) (before after : Option Video) (video : Video)
    → Later P before after
    → after ≡ some video
    → video.status ≡ video_ready
    → ((a : Video) × (before ≡ some a) × (a.status ≡ video_ready)) ⊎ P
was_ready P before none video h e r = absurd (cc e)
was_ready P none (some b) video (inl new) e r =
    absurd (upload_ne_ready (sym new ∙ ap (λ (x : Video). x.status) (eq_of_some e) ∙ r))
was_ready P none (some b) video (inr (is, may)) e r = inr may
was_ready P (some a) (some b) video (i, t, d, y, inl same) e r =
    inl (a, refl, sym same ∙ ap (λ (x : Video). x.status) (eq_of_some e) ∙ r)
was_ready P (some a) (some b) video (i, t, d, y, inr (is, may)) e r = inr may

module _ {V O F Q : Type 0} (uc : StreamingUseCase V O F Q) where
  -- The worker with the clients of the use case.
  abbrev pub worker : Consumer V O F
  worker = record { minio_client = uc.minio_client; video_repo = uc.video_repo; disk = uc.disk }

  unfoldable pub op_state : Op → Stores V O F Q → Stores V O F Q
  op_state (uploads up) s = (upload_video uc up s).1
  op_state (transcodes job) s =
      let out =
        (process_transcoding_job worker job
          (record { videos = s.videos; objects = s.objects; files = s.files })).1 in
      record s { videos = out.videos; objects = out.objects; files = out.files }

  unfoldable pub ops_state : List Op → Stores V O F Q → Stores V O F Q
  unfolding op_state
  ops_state [] s = s
  ops_state (op ∷ ops) s = ops_state ops (op_state op s)

  module _ (view : V → Videos) (stored : Stored uc.video_repo view) where
    ops_state-Later :
        (ops : List Op) (s : Stores V O F Q) (id : ℕ)
        → Later (HasJob ops id) (view s.videos id) (view (ops_state ops s).videos id)
    unfolding ops_state op_state
    ops_state-Later [] s id = Later-refl ⊥ (view s.videos id)
    ops_state-Later (uploads up ∷ ops) s id =
        let s' = (upload_video uc up s).1 in
        Later-trans (HasJob ops id) (view s.videos id) (view s'.videos id) _
          (Later-mono ⊥ (HasJob ops id) (λ h. absurd h) (view s.videos id) (view s'.videos id)
            (upload_video-Moves uc view stored up s id))
          (ops_state-Later ops s' id)
    ops_state-Later (transcodes job ∷ ops) s id =
        let P = HasJob (transcodes job ∷ ops) id in
        let s' = op_state (transcodes job) s in
        Later-trans P (view s.videos id) (view s'.videos id) _
          (Later-mono (id ≡ job.video_id) P (λ h. inl h) (view s.videos id) (view s'.videos id)
            (process_transcoding_job-Moves worker view stored job _ id))
          (Later-mono (HasJob ops id) P (λ h. inr h) (view s'.videos id)
            (view (ops_state ops s').videos id) (ops_state-Later ops s' id))

    -- `GetVideo` gives only videos that are ready.
    get_video-ready :
        (text : String) (id : ℕ) (s : Stores V O F Q) (res : GetVideoRes)
        → get_video uc text id s ≡ ok res
        → (video : Video) × (view s.videos id ≡ some video) × (video.status ≡ video_ready)
    unfolding get_video
    get_video-ready text id s res e = elim (Result-cases (uc.video_repo.get_by_id id s.videos)) [
      | inr (m, missing) ↦ absurd (ground (arith, rw (missing, get_video) at e))
      | inl (video, there) ↦ elim (Bool-cases (video.status == video_ready)) [
        | inl is ↦ (
          video,
          (stored.get_by_id-ok id video s.videos there).0,
          (eq_iff video.status video_ready).0 is,
        )
        | inr other ↦ absurd (ground (arith, rw other at (rw (there, get_video) at e)))
      ]
    ]

    -- The service keeps the life of its videos: whatever uploads and jobs it takes, in whichever order,
    -- and whichever of their steps fail, no video goes away, and each keeps its id and the title,
    -- description and type that its client gave. A new video has the status "upload" or "ready", an old
    -- one keeps its status or gets "ready", and "ready" is new only for a video that a job of the
    -- sequence names. So `GetVideo` gives a video afterwards only if it was ready before, or a job of
    -- the sequence names it.
    pub ops_state-get_video :
        (ops : List Op) (s : Stores V O F Q) (id : ℕ)
        → Later (HasJob ops id) (view s.videos id) (view (ops_state ops s).videos id)
          × ((text : String) (res : GetVideoRes)
              → get_video uc text id (ops_state ops s) ≡ ok res
              → ((a : Video) × (view s.videos id ≡ some a) × (a.status ≡ video_ready))
                ⊎ HasJob ops id)
    ops_state-get_video ops s id = (
      ops_state-Later ops s id,
      λ text res e.
          let (video, there, is) = get_video-ready text id (ops_state ops s) res e in
          was_ready (HasJob ops id) (view s.videos id) (view (ops_state ops s).videos id) video
            (ops_state-Later ops s id) there is,
    )

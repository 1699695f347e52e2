-- ===== src/Streaming/Server/Receiving.antt =====
-- What the loop over an upload's stream gathers, and what the handler makes of it.
use streaming_video_service.Prelude.{
  String, ◌≡◌, refl, ◌⊎◌, inl, inr, Option, none, some, List, [], ◌∷◌, append_text, Option-cases,
}
use text.Mathlib.TextLemmas.{append_assoc, append-nil, nil-append}
use streaming_video_service.Streaming.Pb.{VideoMetadata, metadata, chunk, unset}
use streaming_video_service.Streaming.UseCase.{Stores, StreamingUseCase}
use streaming_video_service.Streaming.Server.{
  Received, received, failed, unknown, invalid_argument, StreamEnd, answered, aborted, Upload,
  no_upload, receive_upload, finish_upload, handle_upload_video,
}

-- The first thing in a stream that ends the loop early.
abbrev pub fault : List Received → Option StreamEnd
fault [] = none
fault (failed e ∷ rs) = some (aborted unknown (append_text "接收流失敗: " e))
fault (received unset ∷ rs) = some (aborted invalid_argument "未知的數據類型")
fault (received (metadata m) ∷ rs) = fault rs
fault (received (chunk c) ∷ rs) = fault rs

abbrev or_else : Option VideoMetadata → Option VideoMetadata → Option VideoMetadata
or_else none o = o
or_else (some m) o = some m

-- The last metadata of a stream.
abbrev pub last_metadata : List Received → Option VideoMetadata
last_metadata [] = none
last_metadata (received (metadata m) ∷ rs) = or_else (last_metadata rs) (some m)
last_metadata (received (chunk c) ∷ rs) = last_metadata rs
last_metadata (received unset ∷ rs) = last_metadata rs
last_metadata (failed e ∷ rs) = last_metadata rs

-- The content of all chunks, in their order.
abbrev pub all_content : List Received → String
all_content [] = ""
all_content (received (chunk c) ∷ rs) = append_text c (all_content rs)
all_content (received (metadata m) ∷ rs) = all_content rs
all_content (received unset ∷ rs) = all_content rs
all_content (failed e ∷ rs) = all_content rs

abbrev gathered : List Received → Upload → Upload
gathered rs u = record {
  metadata = or_else (last_metadata rs) u.metadata;
  file_buffer = append_text u.file_buffer (all_content rs);
}

abbrev summary : Option StreamEnd → Upload → Upload ⊎ StreamEnd
summary none u = inl u
summary (some e) u = inr e

or_else_assoc : (a b c : Option VideoMetadata) → or_else (or_else a b) c ≡ or_else a (or_else b c)
or_else_assoc none b c = refl
or_else_assoc (some m) b c = refl

receive_upload-gathered :
    (rs : List Received) (u : Upload) → receive_upload rs u ≡ summary (fault rs) (gathered rs u)
unfolding receive_upload
receive_upload-gathered [] u = rw append-nil refl
receive_upload-gathered (failed e ∷ rs) u = refl
receive_upload-gathered (received unset ∷ rs) u = refl
receive_upload-gathered (received (metadata m) ∷ rs) u =
    rw (receive_upload-gathered rs (record u { metadata = some m }), or_else_assoc) refl
receive_upload-gathered (received (chunk c) ∷ rs) u =
    rw
      (
        receive_upload-gathered rs (record u { file_buffer = append_text u.file_buffer c }),
        append_assoc,
      )
      refl

or_else-none : (o : Option VideoMetadata) → or_else o none ≡ o
or_else-none none = refl
or_else-none (some m) = refl

pub receive_upload_lem :
    (rs : List Received)
    → receive_upload rs no_upload
      ≡ summary (fault rs) (record { metadata = last_metadata rs; file_buffer = all_content rs })
receive_upload_lem rs = rw (receive_upload-gathered rs no_upload, or_else-none, nil-append) refl

module _ {V O F Q : Type 0} (uc : StreamingUseCase V O F Q) where
  -- What the handler does with a stream, by its fault, its last metadata and its content.
  abbrev pub served : List Received → Stores V O F Q → StreamEnd × Stores V O F Q
  served rs s = elim (fault rs) [
    | some e ↦ (e, s)
    | none ↦
        let (res, s') = finish_upload uc (last_metadata rs) (all_content rs) s in (answered res, s')
  ]

  -- `UploadVideo` answers a stream by three things of it alone. A stream with a fault, an error of the
  -- transport or a message of no kind, is answered by the first one, and nothing is stored. Any other
  -- is answered by the checks and the use case, on its last metadata and on the content of all its
  -- chunks in their order.
  pub handle_upload_video-served :
      (rs : List Received) (s : Stores V O F Q) → handle_upload_video uc rs s ≡ served rs s
  unfolding handle_upload_video
  handle_upload_video-served rs s = elim (Option-cases (fault rs)) [
    | inl none_yet ↦ rw (receive_upload_lem rs, handle_upload_video) (rw (none_yet, served) refl)
    | inr (e, first) ↦ rw (receive_upload_lem rs, handle_upload_video) (rw (first, served) refl)
  ]

  pub handle_upload_video-finish_upload :
      (rs : List Received) (s : Stores V O F Q)
      → fault rs ≡ none
      → (handle_upload_video uc rs s).0
        ≡ answered (finish_upload uc (last_metadata rs) (all_content rs) s).0
  handle_upload_video-finish_upload rs s e =
      rw (handle_upload_video-served rs s) (rw (e, served) refl)

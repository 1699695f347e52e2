-- ===== src/Api/Upload/Reassembly.antt =====
-- The upload from the form to the use case: the chunks of `UploadVideo`, and what the loop of the
-- gRPC server makes of them.
use Prim.Native.String.{count}
use streaming_video_service.Prelude.{
  ℕ, ◌<◌, ◌≡◌, refl, sym, ◌∙◌, ap, ◌≢◌, inl, inr, String, none, some, Option-cases, List, [], ◌∷◌,
  ◌++◌, map, append_text, join, subst, arith,
}
use streaming_video_service.Golang.{Result, ok, err, Result-cases}
use streaming_video_service.Streaming.Pb.{
  VideoMetadata, StreamData, metadata, chunk, PbUploadVideoRes,
}
use streaming_video_service.Streaming.UseCase.{Stores, StreamingUseCase}
use streaming_video_service.Streaming.Server.{
  received, StreamEnd, answered, aborted, finish_upload, handle_upload_video,
}
use streaming_video_service.Streaming.Server.Receiving.{
  fault, last_metadata, all_content, handle_upload_video-finish_upload,
}
use streaming_video_service.Api.Http.{HttpRes, json_res, error_res}
use streaming_video_service.Api.Upload.{
  Reader, UploadClient, Form, FileHeader, Sending, sent, stopped, unfinished, metadata_of,
  send_file, close_upload, stream_file, gateway_upload,
}
use streaming_video_service.Api.Upload.Chunks.{
  ReadsAll, InOrder, AreSent, send_file-AreSent, send_file-ne-unfinished,
}

-- What the client gets of the end of a stream.
abbrev pub answer_of : StreamEnd → Result PbUploadVideoRes
answer_of (answered res) = ok res
answer_of (aborted code text) = err text

-- The gRPC server, on the messages that reach it.
abbrev pub served_by :
    {V O F Q : Type 0}
    → StreamingUseCase V O F Q
    → Stores V O F Q
    → List StreamData
    → Result PbUploadVideoRes
served_by uc s messages = answer_of (handle_upload_video uc (map received messages) s).0

chunks-fault : (parts : List String) → fault (map received (map chunk parts)) ≡ none
chunks-fault [] = refl
chunks-fault (p ∷ ps) = chunks-fault ps

chunks-last_metadata : (parts : List String) → last_metadata (map received (map chunk parts)) ≡ none
chunks-last_metadata [] = refl
chunks-last_metadata (p ∷ ps) = chunks-last_metadata ps

chunks-all_content :
    (parts : List String) → all_content (map received (map chunk parts)) ≡ join parts
chunks-all_content [] = refl
chunks-all_content (p ∷ ps) = ap (append_text p) (chunks-all_content ps)

-- The metadata and chunks of a text reach the use case as they are.
served_by-AreSent :
    {V O F Q : Type 0} (uc : StreamingUseCase V O F Q) (s : Stores V O F Q) (m : VideoMetadata)
    (text : String) (after : List StreamData)
    → AreSent text (metadata m ∷ []) after
    → served_by uc s after ≡ ok (finish_upload uc (some m) text s).0
served_by-AreSent uc s m text after a = rw a.parts-after (
    rw
      (handle_upload_video-finish_upload uc
        (received (metadata m) ∷ map received (map chunk a.parts)) s (chunks-fault a.parts))
      (rw (chunks-last_metadata a.parts, chunks-all_content a.parts, a.parts-join) refl))

ok_inj : {A : Type 0} {x y : A} → ok x ≡ ok y → x ≡ y
ok_inj e = ground arith

close_upload-json :
    {T : Type 0} (client : UploadClient T) (sending : Sending) (t : T) (res : PbUploadVideoRes)
    → (close_upload client sending t).0 ≡ some (json_res res)
    → (sending ≡ sent) × ((client.close_and_recv t).0 ≡ ok res)
unfolding close_upload
close_upload-json client unfinished t res e = absurd (cc e)
close_upload-json client (stopped text) t res e = absurd (ground (arith, e))
close_upload-json client sent t res e = elim (Result-cases (client.close_and_recv t).0) [
  | inl (r, got) ↦ let e' = rw (got, close_upload) at e in (refl, got ∙ ground (arith, e'))
  | inr (m, got) ↦ let e' = rw (got, close_upload) at e in absurd (ground (arith, e'))
]

close_upload-some :
    {T : Type 0} (client : UploadClient T) (sending : Sending) (t : T)
    → sending ≢ unfinished
    → (out : HttpRes PbUploadVideoRes) × ((close_upload client sending t).0 ≡ some out)
unfolding close_upload
close_upload-some client unfinished t ne = absurd (ne refl)
close_upload-some client (stopped text) t ne = (error_res 500 text, refl)
close_upload-some client sent t ne = elim (Result-cases (client.close_and_recv t).0) [
  | inl (r, got) ↦ (json_res r, rw (got, close_upload) refl)
  | inr (m, got) ↦ (error_res 500 "Failed to complete upload", rw (got, close_upload) refl)
]

module _ {R T : Type 0} (reader : Reader R) (client : UploadClient T) {rest : R → String}
    {messages : T → List StreamData} {serve : List StreamData → Result PbUploadVideoRes}
    (reads : ReadsAll reader rest) (order : InOrder client messages serve) where
  stream_file-AreSent :
      (fuel : ℕ) (m : VideoMetadata) (file : R) (t : T) (res : PbUploadVideoRes)
      → (stream_file reader client fuel m file t).0 ≡ some (json_res res)
      → (after : List StreamData) × AreSent (rest file) (metadata m ∷ []) after
        × (serve after ≡ ok res)
  unfolding stream_file
  stream_file-AreSent fuel m file t res = elim (Option-cases (client.start t).0) [
    | inr (x, no_stream) ↦ rw (no_stream, stream_file) (λ e. absurd (ground (arith, e)))
    | inl started ↦ elim (Option-cases (client.send (metadata m) (client.start t).1).0) [
      | inr (x, unsent) ↦ rw (started, stream_file) (rw unsent (λ e. absurd (ground (arith, e))))
      | inl done ↦
          let t₁ = (client.start t).1 in
          let t₂ = (client.send (metadata m) t₁).1 in
          let run = send_file reader client fuel file t₂ in
          rw (started, stream_file)
            (rw done (λ e.
              let (over, closed) = close_upload-json client run.0 run.1 res e in
              let first =
                order.send-messages (metadata m) t₁ done
                ∙ ap (λ l. l ++ metadata m ∷ []) (order.start-messages t started) in
              (
                messages run.1,
                subst (λ before. AreSent (rest file) before (messages run.1)) first
                    (send_file-AreSent reader client reads order fuel file t₂ over),
                order.close_and_recv-serve run.1 res closed,
              )))
    ]
  ]

  -- An upload that the gateway answers with 200 is the one of the form: the answer is what the server
  -- makes of the form's title, description and type, the file's name, and the whole file, however its
  -- reads divide it into chunks. So the use case gets the file byte for byte.
  pub gateway_upload-finish_upload :
      {V O F Q : Type 0} (uc : StreamingUseCase V O F Q) (s : Stores V O F Q) (fuel : ℕ)
      (form : Form R) (header : FileHeader R) (file : R) (t : T) (res : PbUploadVideoRes)
      → ((ds : List StreamData) → serve ds ≡ served_by uc s ds)
      → form.file ≡ ok header
      → header.opened ≡ ok file
      → (gateway_upload reader client fuel form t).0 ≡ some (json_res res)
      → res ≡ (finish_upload uc (some (metadata_of form header)) (rest file) s).0
  unfolding stream_file gateway_upload
  gateway_upload-finish_upload uc s fuel form header file t res same has is e =
      let e' = rw is at (rw (has, gateway_upload) at e) in
      let (after, sent_as, got) =
        stream_file-AreSent fuel (metadata_of form header) file t res e' in
      ok_inj (
        sym got
        ∙ same after
        ∙ served_by-AreSent uc s (metadata_of form header) (rest file) after sent_as)

  stream_file-some :
      (fuel : ℕ) (m : VideoMetadata) (file : R) (t : T)
      → count (rest file) < fuel
      → (out : HttpRes PbUploadVideoRes) × ((stream_file reader client fuel m file t).0 ≡ some out)
  unfolding stream_file
  stream_file-some fuel m file t enough = elim (Option-cases (client.start t).0) [
    | inr (x, no_stream) ↦
        (error_res 500 "Failed to create gRPC stream", rw (no_stream, stream_file) refl)
    | inl started ↦ elim (Option-cases (client.send (metadata m) (client.start t).1).0) [
      | inr (x, unsent) ↦
          (error_res 500 "Failed to send metadata", rw (started, stream_file) (rw unsent refl))
      | inl done ↦
          let t₂ = (client.send (metadata m) (client.start t).1).1 in
          let run = send_file reader client fuel file t₂ in
          let (out, e) =
            close_upload-some client run.0 run.1
              (send_file-ne-unfinished reader client reads order fuel file t₂ enough) in
          (out, rw (started, stream_file) (rw done e))
    ]
  ]

  -- With a unit of fuel for each byte of the file and one more, the gateway answers.
  pub gateway_upload-some :
      (fuel : ℕ) (form : Form R) (t : T)
      → ((header : FileHeader R) (file : R)
          → form.file ≡ ok header
          → header.opened ≡ ok file
          → count (rest file) < fuel)
      → (out : HttpRes PbUploadVideoRes) × ((gateway_upload reader client fuel form t).0 ≡ some out)
  unfolding gateway_upload stream_file stream_file-some
  gateway_upload-some fuel form t enough = elim (Result-cases form.file) [
    | inr (x, missing) ↦ (error_res 400 "Missing file", rw (missing, gateway_upload) refl)
    | inl (header, has) ↦ elim (Result-cases header.opened) [
      | inr (x, shut) ↦
          (error_res 500 "Failed to open file", rw (has, gateway_upload) (rw shut refl))
      | inl (file, is) ↦
          let (out, e) =
            stream_file-some fuel (metadata_of form header) file t (enough header file has is) in
          (out, rw (has, gateway_upload) (rw is e))
    ]
  ]

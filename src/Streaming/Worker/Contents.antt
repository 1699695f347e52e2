-- ===== src/Streaming/Worker/Contents.antt =====
-- What is in the objects that a job of internal/streaming/app/work.go uploads: the output files.
use text.Mathlib.TextLemmas.{append-nil, append_cancel_left}
use streaming_video_service.Prelude.{
  ℕ, String, ◌≡◌, refl, sym, subst, ◌∙◌, ◌≢◌, ◌==◌, eq_iff, Bool-cases, Option, none, some,
  Option-cases, List, [], ◌∷◌, All, arith, inl, inr,
}
use streaming_video_service.Golang.{Error, Result, ok, err}
use streaming_video_service.Streaming.Decimal.{decimal}
use streaming_video_service.Streaming.Repository.{MinIoClient, Disk}
use streaming_video_service.Streaming.Storage.{MinIo, put_opened, minio_client}
use streaming_video_service.Streaming.Worker.{
  Consumer, processed_key, local_file_path, get_content_type, upload_files,
}
use streaming_video_service.Streaming.Worker.Processing.{upload_files-next, upload_files-failed}

-- `content` gives the content of each object: `PutObject` without an error sets one and no other.
pub record Sets {O : Type 0} (client : MinIo O) (content : O → String → Option String)
    : Type 0 where
  pub put_object-content :
      (key text kind : String) (o : O)
      → (client.put_object key text kind o).0 ≡ none
      → content (client.put_object key text kind o).1 key ≡ some text
  pub put_object-others :
      (key text kind other : String) (o : O)
      → (client.put_object key text kind o).0 ≡ none
      → key ≢ other
      → content (client.put_object key text kind o).1 other ≡ content o other

-- The same of `UploadFile`, by the content of the local file.
pub record Copies {O F : Type 0} (minio : MinIoClient O F) (disk : Disk F)
    (content : O → String → Option String) : Type 0 where
  pub upload_file-content :
      (key path kind : String) (f : F) (o : O)
      → (minio.upload_file key path kind f o).0 ≡ none
      → (text : String) × (disk.open_file path f ≡ ok text)
        × (content (minio.upload_file key path kind f o).1 key ≡ some text)
  pub upload_file-others :
      (key path kind other : String) (f : F) (o : O)
      → (minio.upload_file key path kind f o).0 ≡ none
      → key ≢ other
      → content (minio.upload_file key path kind f o).1 other ≡ content o other

module _ {O : Type 0} (client : MinIo O) (content : O → String → Option String)
    (laws : Sets client content) where
  put_opened-content :
      (key kind : String) (r : Result String) (o : O)
      → (put_opened client key kind r o).0 ≡ none
      → (text : String) × (r ≡ ok text)
        × (content (put_opened client key kind r o).1 key ≡ some text)
  unfolding put_opened
  put_opened-content key kind (ok text) o e =
      (text, refl, laws.put_object-content key text kind o e)
  put_opened-content key kind (err m) o e = absurd (cc)

  put_opened-others :
      (key kind other : String) (r : Result String) (o : O)
      → (put_opened client key kind r o).0 ≡ none
      → key ≢ other
      → content (put_opened client key kind r o).1 other ≡ content o other
  unfolding put_opened
  put_opened-others key kind other (ok text) o e ne =
      laws.put_object-others key text kind other o e ne
  put_opened-others key kind other (err m) o e ne = refl

  pub minio_client-Copies :
      {F : Type 0} (disk : Disk F) → Copies (minio_client client disk) disk content
  unfolding minio_client
  minio_client-Copies disk = record {
    upload_file-content =
        λ key path kind f o e. put_opened-content key kind (disk.open_file path f) o e;
    upload_file-others = λ key path kind other f o e ne.
        put_opened-others key kind other (disk.open_file path f) o e ne;
  }

processed_key-inj : (id : ℕ) (a b : String) → processed_key id a ≡ processed_key id b → a ≡ b
processed_key-inj id a b e =
    sym (append-nil a)
    ∙ append_cancel_left "/" _ _
        (append_cancel_left (decimal id) _ _ (append_cancel_left "processed/" _ _ e))
    ∙ append-nil b

module _ {V O F : Type 0} (c : Consumer V O F) (content : O → String → Option String)
    (laws : Copies c.minio_client c.disk content) where
  -- The object of an output file has the content of the file.
  abbrev pub IsStored : ℕ → F → O → String → Type 0
  IsStored id f o name =
      (text : String) × (c.disk.open_file (local_file_path id name) f ≡ ok text)
      × (content o (processed_key id name) ≡ some text)

  -- A later file of the loop has another key, or is the same file.
  step-IsStored :
      (id : ℕ) (next name : String) (f : F) (o : O)
      → let k = processed_key id next in
        let up = c.minio_client.upload_file k (local_file_path id next) (get_content_type k) f o in
        up.0 ≡ none → IsStored id f o name → IsStored id f up.1 name
  step-IsStored id next name f o done (text, read, held) =
      let k = processed_key id next in
      let kind = get_content_type k in
      let path = local_file_path id next in
      let o' = (c.minio_client.upload_file k path kind f o).1 in
      elim (Bool-cases (next == name)) [
        | inl same ↦
            subst (IsStored id f o') ((eq_iff next name).0 same)
              (laws.upload_file-content k path kind f o done)
        | inr other ↦
            let apart : k ≢ processed_key id name = λ e.
              absurd
                (ground (arith, (eq_iff next name).1 (processed_key-inj id next name e), other)) in
            (
              text,
              read,
              laws.upload_file-others k path kind (processed_key id name) f o done apart ∙ held,
            )
      ]

  upload_files-keeps_IsStored :
      (id : ℕ) (names : List String) (f : F) (o : O) (name : String)
      → (upload_files c id names f o).0 ≡ none
      → IsStored id f o name
      → IsStored id f (upload_files c id names f o).1 name
  upload_files-keeps_IsStored id [] f o name done h = unfold upload_files in h
  upload_files-keeps_IsStored id (next ∷ names) f o name done h =
      let k = processed_key id next in
      let path = local_file_path id next in
      let kind = get_content_type k in
      elim (Option-cases (c.minio_client.upload_file k path kind f o).0) [
        | inr (e, down) ↦
            absurd (ground (arith, rw (upload_files-failed c id next names f o e down) at done))
        | inl up ↦
            let is = upload_files-next c id next names f o up in
            rw is (
              upload_files-keeps_IsStored id names f (c.minio_client.upload_file k path kind f o).1
                name (rw is at done) (step-IsStored id next name f o up h))
      ]

  pub upload_files-IsStored :
      (id : ℕ) (names : List String) (f : F) (o : O)
      → (upload_files c id names f o).0 ≡ none
      → All (IsStored id f (upload_files c id names f o).1) names
  upload_files-IsStored id [] f o done = tt
  upload_files-IsStored id (name ∷ names) f o done =
      let k = processed_key id name in
      let path = local_file_path id name in
      let kind = get_content_type k in
      let o' = (c.minio_client.upload_file k path kind f o).1 in
      elim (Option-cases (c.minio_client.upload_file k path kind f o).0) [
        | inr (e, down) ↦
            absurd (ground (arith, rw (upload_files-failed c id name names f o e down) at done))
        | inl up ↦
            let is = upload_files-next c id name names f o up in
            let rest = rw is at done in
            subst (λ (out : Option Error × O). All (IsStored id f out.1) (name ∷ names)) (sym is)
              (
                upload_files-keeps_IsStored id names f o' name rest
                    (laws.upload_file-content k path kind f o up),
                upload_files-IsStored id names f o' rest,
              )
      ]

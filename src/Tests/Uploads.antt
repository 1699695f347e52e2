-- ===== src/Tests/Uploads.antt =====
-- An upload through the gateway, from a file that gives its bytes one by one, to the streaming service
-- in memory; and the HTTP handler of the streaming service.
use Prim.Native.String.{count, [] as empty_text, ◌∷◌ as text_cons}
use text.Mathlib.TextLemmas.{length-cons, cons-append, nil-append}
use streaming_video_service.Prelude.{
  ℕ, zero, suc, ◌≤◌, ◌<◌, ◌≡◌, refl, sym, String, true, Option, none, some, List, [], ◌∷◌, ◌++◌,
  append_text, arith,
}
use streaming_video_service.Golang.{Error, ok}
use streaming_video_service.Streaming.Repository.{video_repo}
use streaming_video_service.Streaming.Storage.{put_opened, save_object, minio_client}
use streaming_video_service.Streaming.Pb.{StreamData, chunk, unset, PbUploadVideoRes}
use streaming_video_service.Streaming.UseCase.{
  temp_path, publish_job, upload_original, store_video, upload_video,
}
use streaming_video_service.Streaming.Server.{
  received, receive_upload, finish_upload, handle_upload_video,
}
use streaming_video_service.Streaming.Server.Receiving.{served, handle_upload_video-served}
use streaming_video_service.Streaming.Http.{http_store_row}
use streaming_video_service.Streaming.Http.Upload.{Agrees, handler_of, store_video-http_store_row}
use streaming_video_service.Api.Http.{HttpRes}
use streaming_video_service.Api.Upload.{
  Reading, bytes, Reader, UploadClient, Form, FileHeader, metadata_of, send_file, close_upload,
  stream_file, gateway_upload,
}
use streaming_video_service.Api.Upload.Chunks.{ReadsAll, InOrder, AreSent, send_file-AreSent}
use streaming_video_service.Api.Upload.Reassembly.{
  served_by, gateway_upload-finish_upload, gateway_upload-some,
}
use streaming_video_service.Tests.Videos.{disk, uc, empty, request}

-- The next byte of a file, and the rest of it.
next_byte : ℕ → String → Reading × String
next_byte zero file = (bytes "", file)
next_byte (suc n) empty_text = (bytes "", empty_text)
next_byte (suc n) (text_cons c cs) = (bytes (text_cons c empty_text), cs)

abbrev reader : Reader String
reader = record { read = next_byte }

abbrev whole : String → String
whole file = file

bytes_inj : (s t : String) → bytes s ≡ bytes t → s ≡ t
bytes_inj s t e = ground arith

next-rest :
    (n : ℕ) (file part : String)
    → (next_byte n file).0 ≡ bytes part
    → file ≡ append_text part (next_byte n file).1
unfolding next_byte
next-rest zero file part e = rw (← bytes_inj _ _ e) (sym (nil-append file))
next-rest (suc n) empty_text part e = rw (← bytes_inj _ _ e) refl
next-rest (suc n) (text_cons c cs) part e =
    rw (← bytes_inj _ _ e) (rw (cons-append c empty_text cs) (rw (nil-append cs) refl))

next-le : (n : ℕ) (file part : String) → (next_byte n file).0 ≡ bytes part → count part ≤ n
unfolding next_byte
next-le zero file part e = rw (← bytes_inj _ _ e) (omega arith)
next-le (suc n) empty_text part e = rw (← bytes_inj _ _ e) (omega arith)
next-le (suc n) (text_cons c cs) part e =
    rw (← bytes_inj _ _ e) (omega (arith, length-cons c empty_text))

next-end : (n : ℕ) (file : String) → 0 < n → (next_byte n file).0 ≡ bytes "" → file ≡ ""
unfolding next_byte
next-end zero file lt e = absurd (omega arith)
next-end (suc n) empty_text lt e = refl
next-end (suc n) (text_cons c cs) lt e = absurd (cc (bytes_inj _ _ e))

reader-ReadsAll : ReadsAll reader whole
reader-ReadsAll = record {
  read-rest = λ n file part e. next-rest n file part e;
  read-le = λ n file part e. next-le n file part e;
  read-end = λ n file lt e. next-end n file lt e;
}

-- A connection that keeps the messages and hands them to the server at the end.
abbrev connection : UploadClient (List StreamData)
connection = record {
  start = λ t. (none, []);
  send = λ d t. (none, t ++ d ∷ []);
  close_and_recv = λ t. (served_by uc empty t, t);
}

abbrev all_messages : List StreamData → List StreamData
all_messages t = t

connection-InOrder : InOrder connection all_messages (served_by uc empty)
connection-InOrder = record {
  start-messages = λ t e. refl;
  send-messages = λ d t e. refl;
  close_and_recv-serve = λ t res e. e;
}

abbrev cat_header : FileHeader String
cat_header = record { file_name = "cat.mp4"; opened = ok "miau" }

abbrev cat_form : Form String
cat_form = record { title = "cat"; description = ""; video_type = "short"; file = ok cat_header }

abbrev cat_answer : PbUploadVideoRes
cat_answer = record { success = true; message = "上傳成功，等待轉碼"; video_id = 1 }

send_file-AreSent_example : AreSent "miau" [] (send_file reader connection 9 "miau" []).1
unfolding send_file next_byte
send_file-AreSent_example =
    send_file-AreSent reader connection reader-ReadsAll connection-InOrder 9 "miau" [] refl

gateway_upload-finish_upload_example :
    cat_answer ≡ (finish_upload uc (some (metadata_of cat_form cat_header)) "miau" empty).0
unfolding gateway_upload stream_file send_file close_upload next_byte handle_upload_video
    receive_upload finish_upload upload_video store_video upload_original publish_job video_repo
    minio_client put_opened save_object
gateway_upload-finish_upload_example =
    gateway_upload-finish_upload reader connection reader-ReadsAll connection-InOrder uc empty 9
      cat_form cat_header "miau" [] cat_answer (λ ds. refl) refl refl refl

opened_miau :
    (header : FileHeader String) (file : String)
    → cat_form.file ≡ ok header
    → header.opened ≡ ok file
    → "miau" ≡ file
opened_miau header file has is = ground (arith, has, is)

gateway_upload-some_example :
    (out : HttpRes PbUploadVideoRes) × ((gateway_upload reader connection 9 cat_form []).0
      ≡ some out)
gateway_upload-some_example =
    gateway_upload-some reader connection reader-ReadsAll connection-InOrder 9 cat_form []
      (λ header file has is. rw (← opened_miau header file has is) (omega arith))

handle_upload_video-served_example :
    handle_upload_video uc (received (chunk "m") ∷ received unset ∷ []) empty
    ≡ served uc (received (chunk "m") ∷ received unset ∷ []) empty
handle_upload_video-served_example =
    handle_upload_video-served uc (received (chunk "m") ∷ received unset ∷ []) empty

abbrev save_file : String → String → ℕ → Option Error × ℕ
save_file text path f = disk.copy_file path text f

store_video-http_store_row_example :
    let copied = disk.copy_file (temp_path "cat.mp4") "bytes" 0 in
    Agrees
      (store_video uc request empty)
      (http_store_row (handler_of uc save_file) request (record empty { files = copied.1 }))
store_video-http_store_row_example = store_video-http_store_row uc save_file request empty refl

-- ===== src/Tests/Streaming.antt =====
-- The streaming service on stores in memory.
use streaming_video_service.Prelude.{◌≡◌, refl, true, none, [], ◌∷◌, ◌++◌, arith}
use streaming_video_service.Golang.{ok, err}
use streaming_video_service.Streaming.Domain.{Video, UploadVideoRes}
use streaming_video_service.Streaming.Repository.{video_repo}
use streaming_video_service.Streaming.Storage.{put_opened, save_object, minio_client}
use streaming_video_service.Streaming.UseCase.{
  new_video, temp_path, publish_job, upload_original, store_video, upload_video,
}
use streaming_video_service.Streaming.UseCase.Uploading.{IsSent, upload_video-IsSent}
use streaming_video_service.Streaming.Worker.{
  local_input_path, local_output_dir, hls_args, upload_files, finish_job, upload_outputs, transcode,
  process_transcoding_job, consume,
}
use streaming_video_service.Streaming.Worker.Processing.{Done, process_transcoding_job-Done}
use streaming_video_service.Streaming.Worker.Consuming.{
  any_malformed, PutsBack, consume-any_malformed,
}
use streaming_video_service.Tests.Videos.{
  disk, has_key, minio, minio-Keeps, consumer, cat_job, stores, uc, empty, request,
}

process_transcoding_job-Done_example :
    let got = minio.download_file "original/1/cat.mp4" (local_input_path 1) stores.objects 0 in
    let made = disk.mkdir_all (local_output_dir 1) got.1 in
    let run = disk.ffmpeg (hls_args (local_input_path 1) (local_output_dir 1)) made.1 in
    (got.0 ≡ none)
    × (run.0 ≡ none)
    × Done consumer has_key minio-Keeps 1
        (record stores { files = run.1 })
        (process_transcoding_job consumer cat_job stores).1
unfolding process_transcoding_job transcode upload_outputs upload_files finish_job video_repo
    minio_client put_opened save_object
process_transcoding_job-Done_example =
    process_transcoding_job-Done consumer has_key minio-Keeps cat_job stores refl

-- A message put back at the end is in the queue.
puts_last : PutsBack (λ m queue. queue ++ m ∷ [])
puts_last m [] = ground arith
puts_last m (x ∷ queue) = ground (arith, puts_last m queue)

consume-any_malformed_example :
    any_malformed
      (consume consumer (λ m queue. queue ++ m ∷ []) 3 (ok cat_job ∷ err "bad" ∷ []) stores).0
    ≡ true
consume-any_malformed_example =
    consume-any_malformed consumer (λ m queue. queue ++ m ∷ []) puts_last 3
      (ok cat_job ∷ err "bad" ∷ []) stores refl

abbrev upload_answer : UploadVideoRes
upload_answer = record { message = "上傳成功，等待轉碼"; video_id = 1 }

upload_video-IsSent_example :
    let made = disk.mkdir_all "./tmp" 0 in
    let opened = disk.create_file (temp_path "cat.mp4") made.1 in
    let written = disk.copy_file (temp_path "cat.mp4") "bytes" opened.1 in
    let created = uc.video_repo.create (new_video request) [] in
    (made.0 ≡ none)
    × (opened.0 ≡ none)
    × (written.0 ≡ none)
    × ((video : Video) × (created.0 ≡ ok video)
        × (upload_answer.video_id ≡ video.id)
        × IsSent uc request video created.1 [] written.1 [] (upload_video uc request empty).1)
unfolding upload_video store_video upload_original publish_job video_repo minio_client put_opened
    save_object
upload_video-IsSent_example = upload_video-IsSent uc request empty upload_answer refl

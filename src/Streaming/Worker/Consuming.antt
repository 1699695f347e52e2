-- ===== src/Streaming/Worker/Consuming.antt =====
-- The loop of `StartConsumer` in internal/streaming/app/work.go.
use streaming_video_service.Prelude.{
  ℕ, zero, suc, ◌≡◌, refl, ◌∙◌, Bool, true, false, ◌||◌, List, [], ◌∷◌,
}
use streaming_video_service.Golang.{Result, ok, err}
use streaming_video_service.Streaming.Domain.{TranscodingJob}
use streaming_video_service.Streaming.Worker.{
  Stores, Consumer, Verdict, acked, requeued, handle_message, consume,
}

abbrev pub is_malformed : Result TranscodingJob → Bool
is_malformed (ok job) = false
is_malformed (err e) = true

abbrev pub any_malformed : List (Result TranscodingJob) → Bool
any_malformed [] = false
any_malformed (m ∷ queue) = is_malformed m || any_malformed queue

abbrev pub Requeue : Type 0
Requeue = Result TranscodingJob → List (Result TranscodingJob) → List (Result TranscodingJob)

-- A message that is put back is in the queue, wherever the broker puts it.
abbrev pub PutsBack : Requeue → Type 0
PutsBack requeue =
    (m : Result TranscodingJob) (queue : List (Result TranscodingJob))
    → any_malformed (requeue m queue) ≡ any_malformed (m ∷ queue)

module _ {V O F : Type 0} (c : Consumer V O F) where
  handle_message-malformed :
      (m : Result TranscodingJob) (s : Stores V O F)
      → is_malformed m ≡ true
      → (handle_message c m s).0 ≡ requeued
  unfolding handle_message
  handle_message-malformed (ok job) s h = absurd (cc)
  handle_message-malformed (err e) s h = refl

  next_malformed :
      (requeue : Requeue) (puts : PutsBack requeue) (m : Result TranscodingJob)
      (queue : List (Result TranscodingJob)) (v : Verdict)
      → (is_malformed m ≡ true → v ≡ requeued)
      → any_malformed (m ∷ queue) ≡ true
      → any_malformed (elim v [ acked ↦ queue | requeued ↦ requeue m queue ]) ≡ true
  next_malformed requeue puts m queue requeued h e = puts m queue ∙ e
  next_malformed requeue puts (ok job) queue acked h e = e
  next_malformed requeue puts (err x) queue acked h e = absurd (cc (h refl))

  -- However many messages the worker takes, a queue with a message that is no job has one for ever:
  -- it is put back each time, and never acknowledged or dropped.
  pub consume-any_malformed :
      (requeue : Requeue)
      → PutsBack requeue
      → (n : ℕ) (queue : List (Result TranscodingJob)) (s : Stores V O F)
      → any_malformed queue ≡ true
      → any_malformed (consume c requeue n queue s).0 ≡ true
  unfolding consume
  consume-any_malformed requeue puts zero queue s e = e
  consume-any_malformed requeue puts (suc n) [] s e = e
  consume-any_malformed requeue puts (suc n) (m ∷ queue) s e =
      consume-any_malformed requeue puts n
        (elim (handle_message c m s).0 [ acked ↦ queue | requeued ↦ requeue m queue ])
        (handle_message c m s).1
        (next_malformed requeue puts m queue (handle_message c m s).0 (handle_message-malformed m s)
          e)

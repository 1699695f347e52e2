-- ===== src/Chat/Repository/Message/Write.antt =====
-- What `UpdateBucket` leaves in the collection.
use streaming_video_service.Prelude.{
  String, ◌≡◌, sym, ap, ◌∙◌, eq_iff, ==_self, some, none, List, arith, find?,
  find?-update_first_self, find?-pass,
}
use streaming_video_service.Mongo.{Collection, Documented}
use streaming_video_service.Chat.Domain.{ChatMessage, MessageBucket}
use streaming_video_service.Chat.Repository.Message.{of_day, set_bucket}

pub find?-of_day :
    (room date : String) (l : List MessageBucket) (b : MessageBucket)
    → find? (of_day room date) l ≡ some b
    → (b.room_id ≡ room) × (b.date ≡ date)
find?-of_day room date l b found =
    let hit = find?-pass (of_day room date) l b found in
    (ground (arith, hit, eq_iff b.room_id room), ground (arith, hit, eq_iff b.date date))

module _ {M : Type 0} (c : Collection M MessageBucket) (docs : M → List MessageBucket)
    (laws : Documented c docs) where
  -- A bucket of the day that is there is replaced whole, whatever its messages are by now.
  pub update_bucket-replaces :
      (room date : String) (old new : MessageBucket) (m : M)
      → find? (of_day room date) (docs m) ≡ some old
      → new.room_id ≡ room
      → new.date ≡ date
      → (c.update_one (of_day new.room_id new.date) (set_bucket new) m).0 ≡ none
      → find?
          (of_day room date)
          (docs (c.update_one (of_day new.room_id new.date) (set_bucket new) m).1)
        ≡ some new
  update_bucket-replaces room date old new m found r d done =
      let out = docs (c.update_one (of_day new.room_id new.date) (set_bucket new) m).1 in
      let found' : find? (of_day new.room_id new.date) (docs m) ≡ some old =
        ap (λ k. find? (of_day k new.date) (docs m)) r
        ∙ ap (λ k. find? (of_day room k) (docs m)) d
        ∙ found in
      let after : find? (of_day new.room_id new.date) out ≡ some new =
        rw (laws.update_one-eq (of_day new.room_id new.date) (set_bucket new) m done) (
          find?-update_first_self (of_day new.room_id new.date) (set_bucket new)
            (λ x h. ground (arith, ==_self new.room_id, ==_self new.date)) (docs m) old found') in
      ap (λ k. find? (of_day room k) out) (sym d)
      ∙ ap (λ k. find? (of_day k new.date) out) (sym r)
      ∙ after

  -- The bucket of the day that was found is written back with other messages.
  pub update_bucket-find :
      (room date : String) (b : MessageBucket) (messages : List ChatMessage) (m : M)
      → find? (of_day room date) (docs m) ≡ some b
      → (c.update_one (of_day b.room_id b.date) (set_bucket (record b { messages = messages })) m).0
        ≡ none
      → find? (of_day room date) (
          docs
            (c.update_one
              (of_day b.room_id b.date)
              (set_bucket (record b { messages = messages }))
              m).1)
        ≡ some (record b { messages = messages })
  update_bucket-find room date b messages m found done =
      let (r, d) = find?-of_day room date (docs m) b found in
      update_bucket-replaces room date b (record b { messages = messages }) m found r d done

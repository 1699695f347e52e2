-- ===== src/Connect/Waits.antt =====
-- How long the connections of pkg/database wait for a service that stays down.
use streaming_video_service.Prelude.{
  ℕ, zero, suc, ◌^◌, ◌<◌, ◌≤◌, subst, ◌+◌, ◌*◌, ◌≡◌, refl, String, ◌⊎◌, inl, inr, Option, none,
  some, arith,
}
use streaming_video_service.Golang.{Error, Result, err}
use streaming_video_service.Connect.{
  Connection, nanoseconds, seconds, attempt_loop, or_text, connect_rabbit_mq_with_retry,
  MongoDriver, pinged, mongo_loop, new_mongo_db,
}

-- A clock that the pauses advance.
abbrev pub Sleeps : {W : Type 0} → (ℕ → W → W) → (W → ℕ) → Type 0
Sleeps {W} sleep clock = (t : ℕ) (w : W) → clock (sleep t w) ≡ clock w + t

-- An attempt that fails whatever the state is, within a time.
abbrev pub IsDown : {C W : Type 0} → (W → ℕ) → ℕ → (W → Result C × W) → Type 0
IsDown {W = W} clock most connect =
    (w : W)
    → ((e : Error) × ((connect w).0 ≡ err e))
      × (clock w ≤ clock (connect w).1)
      × (clock (connect w).1 ≤ clock w + most)

-- Below three centuries the product does not wrap around.
seconds-small : (n : ℕ) → n < 9 * 10 ^ 9 → seconds n ≡ n * nanoseconds
unfolding seconds
seconds-small n small = ground (arith, small)

module _ {W : Type 0} (sleep : ℕ → W → W) (clock : W → ℕ) (sleeps : Sleeps sleep clock)
    (most : ℕ) where
  attempt_loop-clock :
      {C : Type 0} (connect : W → Result C × W) (t n : ℕ) (last : Option Error) (w : W)
      → IsDown clock most connect
      → clock w + n * t ≤ clock (attempt_loop connect (sleep t) n last w).1
  unfolding attempt_loop
  attempt_loop-clock connect t zero last w down = omega arith
  attempt_loop-clock connect t (suc n) last w down =
      let ((e, bad), least, _) = down w in
      rw (bad, attempt_loop)
        (grind (
          arith,
          least,
          sleeps t (connect w).1,
          attempt_loop-clock connect t n (some e) (sleep t (connect w).1) down,
        ))

  mongo_loop-clock :
      {C : Type 0} (mongo : MongoDriver C W) (c : Connection) (n : ℕ) (w : W)
      → IsDown clock most (λ w. pinged mongo (mongo.connect c.connect_str w))
      → clock (mongo_loop sleep mongo c n w).1 ≤ clock w + n * c.retry_interval + suc n * most
  unfolding mongo_loop
  mongo_loop-clock mongo c zero w down =
      let ((e, bad), _, late) = down w in rw (bad, mongo_loop) (omega (arith, late))
  mongo_loop-clock mongo c (suc n) w down =
      let ((e, bad), _, late) = down w in
      let w' = (pinged mongo (mongo.connect c.connect_str w)).1 in
      rw (bad, mongo_loop)
        (grind (
          arith,
          late,
          sleeps c.retry_interval w',
          mongo_loop-clock mongo c n (sleep c.retry_interval w') down,
        ))

  or_text-state :
      {C : Type 0} (text : String) (p : (C ⊎ Option Error) × W) → (or_text text p).1 ≡ p.1
  or_text-state text (inl c, w) = refl
  or_text-state text (inr e, w) = refl

  -- Under one configuration, with a `retry_interval` below 9 * 10^9, and while every attempt fails, after
  -- at most `most` nanoseconds: the wait for RabbitMQ is at least `retry_interval`
  -- seconds for each attempt, and the wait for MongoDB at most `retry_interval` nanoseconds for each
  -- retry, and what the attempts themselves take.
  pub connect_rabbit_mq_with_retry-new_mongo_db :
      {C M : Type 0} (dial : String → W → Result C × W) (mongo : MongoDriver M W) (d : Connection)
      (w : W)
      → d.retry_interval < 9 * 10 ^ 9
      → IsDown clock most (dial d.connect_str)
      → IsDown clock most (λ w. pinged mongo (mongo.connect d.connect_str w))
      → (clock w + d.retry_count * (d.retry_interval * nanoseconds)
          ≤ clock (connect_rabbit_mq_with_retry sleep dial d w).1)
        × (clock (new_mongo_db sleep mongo d w).1
            ≤ clock w + d.retry_count * d.retry_interval + suc d.retry_count * most)
  unfolding connect_rabbit_mq_with_retry new_mongo_db
  connect_rabbit_mq_with_retry-new_mongo_db dial mongo d w small down down' = (
    rw
        (or_text-state _ (
          attempt_loop (dial d.connect_str) (sleep (seconds d.retry_interval)) d.retry_count none
            w))
        (subst
          (λ t.
            clock w + d.retry_count * t
            ≤ clock
                (attempt_loop (dial d.connect_str) (sleep (seconds d.retry_interval)) d.retry_count
                  none w).1)
          (seconds-small d.retry_interval small)
          (attempt_loop-clock (dial d.connect_str) (seconds d.retry_interval) d.retry_count none w
            down)),
    mongo_loop-clock mongo d d.retry_count w down',
  )

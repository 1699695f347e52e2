-- ===== src/Connect/Retries.antt =====
-- How many attempts the connections of pkg/database make, what comes of them, and how long the
-- connections wait.
use streaming_video_service.Prelude.{
  ℕ, zero, suc, ◌<◌, ◌≡◌, refl, ◌∙◌, String, ◌⊎◌, inl, inr, Option, none, some, [], ◌∷◌, join,
  append_text, arith,
}
use streaming_video_service.Golang.{Error, Result, ok, err, Result-cases}
use streaming_video_service.Streaming.Decimal.{decimal}
use streaming_video_service.Connect.{
  Connection, seconds, shown, attempt_loop, connect_rabbit_mq_with_retry,
}

module _ {C W : Type 0} (connect : W → Result C × W) (after_failure : W → W) where
  -- A number of attempts that fail, with the error before them and the one after them, the state that
  -- they start in and the one that they leave.
  pub data Fails : ℕ → Option Error → W → Option Error → W → Type 0 where
    stop : {last : Option Error} {w : W} → Fails zero last w last w
    fail :
        {n : ℕ} {last final : Option Error} {e : Error} {w v : W}
        → (connect w).0 ≡ err e
        → Fails n (some e) (after_failure (connect w).1) final v
        → Fails (suc n) last w final v

  -- After fewer than `n` failures an attempt succeeds.
  pub record Connects (n : ℕ) (last : Option Error) (w : W) (out : (C ⊎ Option Error) × W)
      : Type 0 where
    pub failures : ℕ
    pub final : Option Error
    pub state : W
    pub client : C
    pub failures-lt : failures < n
    pub failures-Fails : Fails failures last w final state
    pub succeeds : (connect state).0 ≡ ok client
    pub result : out ≡ (inl client, (connect state).1)

  -- All `n` attempts fail.
  pub record GivesUp (n : ℕ) (last : Option Error) (w : W) (out : (C ⊎ Option Error) × W)
      : Type 0 where
    pub final : Option Error
    pub state : W
    pub all-Fails : Fails n last w final state
    pub result : out ≡ (inr final, state)

  pub attempt_loop_cases :
      (n : ℕ) (last : Option Error) (w : W)
      → let out = attempt_loop connect after_failure n last w in
        Connects n last w out ⊎ GivesUp n last w out
  unfolding attempt_loop
  attempt_loop_cases zero last w =
      inr (record { final = last; state = w; all-Fails = stop; result = refl })
  attempt_loop_cases (suc n) last w = elim (Result-cases (connect w).0) [
    | inl (c, up) ↦ inl (record {
      failures = 0;
      final = last;
      state = w;
      client = c;
      failures-lt = omega arith;
      failures-Fails = stop;
      succeeds = up;
      result = rw (up, attempt_loop) refl;
    })
    | inr (e, down) ↦
        let v = after_failure (connect w).1 in
        let next : attempt_loop connect after_failure (suc n) last w
            ≡ attempt_loop connect after_failure n (some e) v =
          rw (down, attempt_loop) refl in
        elim (attempt_loop_cases n (some e) v) [
          | inl a ↦ inl (record {
            failures = suc a.failures;
            final = a.final;
            state = a.state;
            client = a.client;
            failures-lt = omega (arith, a.failures-lt);
            failures-Fails = fail down a.failures-Fails;
            succeeds = a.succeeds;
            result = next ∙ a.result;
          })
          | inr a ↦ inr (record {
            final = a.final;
            state = a.state;
            all-Fails = fail down a.all-Fails;
            result = next ∙ a.result;
          })
        ]
  ]

module _ {C W : Type 0} (sleep : ℕ → W → W) (dial : String → W → Result C × W) where
  -- `ConnectRabbitMQWithRetry` ends after at most the configured number of attempts. Either fewer of
  -- them fail and the next one succeeds, and then its connection is the result, with no pause after it;
  -- or all of them fail, each with its pause, and the result is an error that names their number and
  -- the last error.
  pub connect_rabbit_mq_with_retry_attempts :
      (d : Connection) (w : W)
      → let connect = dial d.connect_str in
        let pause = sleep (seconds d.retry_interval) in
        let out = connect_rabbit_mq_with_retry sleep dial d w in
        ((k : ℕ) × (last : Option Error) × (v : W) × (c : C) × (k < d.retry_count)
          × Fails connect pause k none w last v
          × ((connect v).0 ≡ ok c)
          × (out ≡ (ok c, (connect v).1)))
        ⊎ ((last : Option Error) × (v : W) × Fails connect pause d.retry_count none w last v
            × (out ≡ (
              err (
                  append_text
                    (join (
                      "無法連線 RabbitMQ["
                      ∷ d.connect_str
                      ∷ "]，經過 "
                      ∷ decimal d.retry_count
                      ∷ " 次嘗試: "
                      ∷ []))
                    (shown last)),
              v,
            )))
  unfolding connect_rabbit_mq_with_retry
  connect_rabbit_mq_with_retry_attempts d w =
      elim (attempt_loop_cases (dial d.connect_str) (sleep (seconds d.retry_interval)) d.retry_count
        none w) [
          | inl a ↦ inl (
            a.failures,
            a.final,
            a.state,
            a.client,
            a.failures-lt,
            a.failures-Fails,
            a.succeeds,
            rw a.result refl,
          )
          | inr a ↦ inr (a.final, a.state, a.all-Fails, rw a.result refl)
        ]

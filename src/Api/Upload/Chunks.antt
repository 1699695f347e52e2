-- ===== src/Api/Upload/Chunks.antt =====
-- The chunks that the loop of `UploadVideo` sends.
use Prim.Native.String.{count, [] as empty_text, ◌∷◌ as text_cons}
use text.Mathlib.TextLemmas.{length-append, length-cons}
use streaming_video_service.Prelude.{
  ℕ, zero, suc, ◌≤◌, ◌<◌, ◌≡◌, refl, sym, ◌∙◌, ap, ◌≢◌, ◌⊎◌, inl, inr, String, false, ◌==◌, eq_iff,
  Bool-cases, none, Option-cases, List, [], ◌∷◌, ◌++◌, map, append_assoc as list_assoc, append-nil,
  append_text, join, All, arith,
}
use streaming_video_service.Golang.{Result, ok}
use streaming_video_service.Streaming.Pb.{StreamData, chunk, PbUploadVideoRes}
use streaming_video_service.Api.Upload.{
  Reading, bytes, broken, Reader, UploadClient, sent, unfinished, chunk_size, send_file,
}

-- The file that is left to read: `Read` gives a first part of it that fits the buffer, and nothing
-- only at its end.
pub record ReadsAll {R : Type 0} (reader : Reader R) (rest : R → String) : Type 0 where
  pub read-rest :
      (n : ℕ) (file : R) (part : String)
      → (reader.read n file).0 ≡ bytes part
      → rest file ≡ append_text part (rest (reader.read n file).1)
  pub read-le :
      (n : ℕ) (file : R) (part : String) → (reader.read n file).0 ≡ bytes part → count part ≤ n
  pub read-end : (n : ℕ) (file : R) → 0 < n → (reader.read n file).0 ≡ bytes "" → rest file ≡ ""

-- The messages of a stream, in order, reach the server, which answers them.
pub record InOrder {T : Type 0} (client : UploadClient T) (messages : T → List StreamData)
    (serve : List StreamData → Result PbUploadVideoRes) : Type 0 where
  pub start-messages : (t : T) → (client.start t).0 ≡ none → messages (client.start t).1 ≡ []
  pub send-messages :
      (d : StreamData) (t : T)
      → (client.send d t).0 ≡ none
      → messages (client.send d t).1 ≡ messages t ++ d ∷ []
  pub close_and_recv-serve :
      (t : T) (res : PbUploadVideoRes)
      → (client.close_and_recv t).0 ≡ ok res
      → serve (messages t) ≡ ok res

-- A chunk has at least one byte and at most 32 KB.
abbrev pub IsChunk : String → Type 0
IsChunk part = (part ≢ "") × (count part ≤ chunk_size)

pub Reading-cases :
    (got : Reading) → ((part : String) × (got ≡ bytes part)) ⊎ ((e : String) × (got ≡ broken e))
Reading-cases (bytes part) = inl (part, refl)
Reading-cases (broken e) = inr (e, refl)

-- The chunks that make up a text and that were sent after some messages.
pub record AreSent (text : String) (before after : List StreamData) : Type 0 where
  pub parts : List String
  pub parts-join : join parts ≡ text
  pub parts-IsChunk : All IsChunk parts
  pub parts-after : after ≡ before ++ map chunk parts

is_part : (part : String) → (part == "") ≡ false → part ≢ ""
is_part part more e = absurd (cc (more, (eq_iff part "").1 e))

AreSent-cons :
    (part text left : String) (before between after : List StreamData)
    → IsChunk part
    → text ≡ append_text part left
    → between ≡ before ++ chunk part ∷ []
    → AreSent left between after
    → AreSent text before after
AreSent-cons part text left before between after is whole one a = record {
  parts = part ∷ a.parts;
  parts-join = ap (append_text part) a.parts-join ∙ sym whole;
  parts-IsChunk = (is, a.parts-IsChunk);
  parts-after =
      a.parts-after
      ∙ ap (λ l. l ++ map chunk a.parts) one
      ∙ list_assoc before (chunk part ∷ []) (map chunk a.parts);
}

count_pos : (part : String) → part ≢ "" → 0 < count part
count_pos empty_text h = absurd (h refl)
count_pos (text_cons c cs) h = omega (arith, length-cons c cs)

-- A part that is not empty makes the rest shorter.
count-lt :
    (part text left : String) (n : ℕ)
    → part ≢ ""
    → text ≡ append_text part left
    → count text < suc n
    → count left < n
count-lt part text left n some_part whole lt =
    omega (arith, count_pos part some_part, ap count whole, length-append part left)

module _ {R T : Type 0} (reader : Reader R) (client : UploadClient T) {rest : R → String}
    {messages : T → List StreamData} {serve : List StreamData → Result PbUploadVideoRes}
    (reads : ReadsAll reader rest) (order : InOrder client messages serve) where
  -- When the loop ends at the end of the file, it has sent, after what was sent before and in their
  -- order, chunks that make up what was left of the file; each has at least one byte and at most 32 KB.
  pub send_file-AreSent :
      (fuel : ℕ) (file : R) (t : T)
      → (send_file reader client fuel file t).0 ≡ sent
      → AreSent (rest file) (messages t) (messages (send_file reader client fuel file t).1)
  unfolding send_file
  send_file-AreSent zero file t = λ e. absurd (cc e)
  send_file-AreSent (suc fuel) file t = elim (Reading-cases (reader.read chunk_size file).0) [
    | inr (m, got) ↦ rw (got, send_file) (λ e. absurd (cc e))
    | inl (part, got) ↦ elim (Bool-cases (part == "")) [
      | inl over ↦
          let empty = (eq_iff part "").0 over in
          let at_end = reads.read-end chunk_size file (omega arith) (got ∙ ap bytes empty) in
          rw (got, send_file)
            (rw over (λ e. record {
              parts = [];
              parts-join = sym at_end;
              parts-IsChunk = tt;
              parts-after = sym (append-nil (messages t));
            }))
      | inr more ↦
          let is : IsChunk part = (is_part part more, reads.read-le chunk_size file part got) in
          elim (Option-cases (client.send (chunk part) t).0) [
            | inr (m, unsent) ↦ rw (got, send_file) (rw more (rw unsent (λ e. absurd (cc e))))
            | inl done ↦
                rw (got, send_file)
                  (rw more (
                    rw done (λ e.
                      AreSent-cons part (rest file) (rest (reader.read chunk_size file).1)
                        (messages t) (messages (client.send (chunk part) t).1) _ is
                        (reads.read-rest chunk_size file part got)
                        (order.send-messages (chunk part) t done)
                        (send_file-AreSent fuel (reader.read chunk_size file).1
                          (client.send (chunk part) t).1 e))))
          ]
    ]
  ]

  -- One unit of fuel for each byte and one for the end are enough.
  pub send_file-ne-unfinished :
      (fuel : ℕ) (file : R) (t : T)
      → count (rest file) < fuel
      → (send_file reader client fuel file t).0 ≢ unfinished
  unfolding send_file
  send_file-ne-unfinished zero file t lt = absurd (omega arith)
  send_file-ne-unfinished (suc fuel) file t lt =
      elim (Reading-cases (reader.read chunk_size file).0) [
        | inr (m, got) ↦ rw (got, send_file) (λ e. cc e)
        | inl (part, got) ↦ elim (Bool-cases (part == "")) [
          | inl over ↦ rw (got, send_file) (rw over (λ e. cc e))
          | inr more ↦ elim (Option-cases (client.send (chunk part) t).0) [
            | inr (m, unsent) ↦ rw (got, send_file) (rw more (rw unsent (λ e. cc e)))
            | inl done ↦
                rw (got, send_file)
                  (rw more (
                    rw done (
                      send_file-ne-unfinished fuel (reader.read chunk_size file).1
                        (client.send (chunk part) t).1
                        (count-lt part (rest file) (rest (reader.read chunk_size file).1) fuel
                          (is_part part more) (reads.read-rest chunk_size file part got) lt))))
          ]
        ]
      ]

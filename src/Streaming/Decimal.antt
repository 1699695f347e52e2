-- ===== src/Streaming/Decimal.antt =====
-- `%d` of `fmt.Sprintf`, as internal/streaming uses it for the ids of videos.
use streaming_video_service.Prelude.{
  ℕ, zero, suc, ◌+◌, String, List, [], ◌∷◌, if◌then◌else◌, nat_beq, append_text,
}

-- The digits of a number, the last one first, of the number that follows.
abbrev pub increment : List ℕ → List ℕ
increment [] = 1 ∷ []
increment (d ∷ ds) = if nat_beq d 9 then 0 ∷ increment ds else (d + 1) ∷ ds

abbrev pub digits : ℕ → List ℕ
digits zero = 0 ∷ []
digits (suc n) = increment (digits n)

abbrev pub digit : ℕ → String
digit d =
    if nat_beq d 0
    then "0"
    else if nat_beq d 1
    then "1"
    else if nat_beq d 2
    then "2"
    else if nat_beq d 3
    then "3"
    else if nat_beq d 4
    then "4"
    else if nat_beq d 5
    then "5"
    else if nat_beq d 6
    then "6"
    else if nat_beq d 7
    then "7"
    else if nat_beq d 8
    then "8"
    else "9"

abbrev pub printed : List ℕ → String
printed [] = ""
printed (d ∷ ds) = append_text (printed ds) (digit d)

unfoldable pub decimal : ℕ → String
decimal n = printed (digits n)

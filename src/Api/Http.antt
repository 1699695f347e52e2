-- ===== src/Api/Http.antt =====
-- The responses of the handlers, as they make them of fiber's context. A response that sets no status
-- has the status 200.
use streaming_video_service.Prelude.{ℕ, String}
use streaming_video_service.Golang.{Result, ok, err}

-- `c.JSON` of a value, `c.JSON(fiber.Map{"error": …})`, or `c.Send` of content of some type.
pub data Body (A : Type 0) : Type 0 where
  json : A → Body A
  error_json : String → Body A
  content : String → String → Body A

pub record HttpRes (A : Type 0) : Type 0 where
  pub status : ℕ
  pub body : Body A

abbrev pub json_res : {A : Type 0} → A → HttpRes A
json_res a = record { status = 200; body = json a }

abbrev pub error_res : {A : Type 0} → ℕ → String → HttpRes A
error_res code text = record { status = code; body = error_json text }

-- The response to a call of a gRPC client: its value, or 500 with the error.
abbrev pub relayed : {A : Type 0} → Result A → HttpRes A
relayed (ok res) = json_res res
relayed (err e) = error_res 500 e

-- ===== src/Api/Rpc.antt =====
-- What a unary call of gRPC gives the caller: the response of the handler or, where the handler gives
-- an error, an error and no response.
use streaming_video_service.Prelude.{◌≡◌, Option, none, some}
use streaming_video_service.Golang.{Error, Result, ok, err}

abbrev pub Delivered : {A : Type 0} → Result A → A × Option Error → Type 0
Delivered got (res, none) = got ≡ ok res
Delivered got (res, some e) = (m : Error) × (got ≡ err m)

-- The same of a handler that changes a state.
abbrev pub Carried : {A W : Type 0} → Result A × W → (A × Option Error) × W → Type 0
Carried got ((res, none), w) = got ≡ (ok res, w)
Carried got ((res, some e), w) = (m : Error) × (got ≡ (err m, w))

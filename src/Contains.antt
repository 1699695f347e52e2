-- ===== src/Contains.antt =====
-- pkg/tool.go
pub mod Laws
pub mod Without
use streaming_video_service.Prelude.{String, Bool, true, false, ◌==◌, List, [], ◌∷◌, if◌then◌else◌}

unfoldable pub contains : List String → String → Bool
contains [] val = false
contains (v ∷ slice) val = if v == val then true else contains slice val

-- The loop of `ExitRoom` in internal/chat/app/room_usecause.go that copies all members but one.
unfoldable pub without : String → List String → List String
without user [] = []
without user (m ∷ members) = let rest = without user members in if m == user then rest else m ∷ rest

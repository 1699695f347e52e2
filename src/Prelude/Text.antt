-- ===== src/Prelude/Text.antt =====
-- Joining texts, as `+` and `fmt.Sprintf` do.
use Prim.Native.String.{String, ◌++◌ as str_append}
use mathlib.Core.List.{List, [], ◌∷◌}

abbrev pub append_text : String → String → String
append_text s t = str_append s t

abbrev pub join : List String → String
join [] = ""
join (s ∷ ss) = str_append s (join ss)

-- ===== src/Golang/FilePath.antt =====
-- `filepath.Join` of Go's standard library, of a directory and a name: the two with a slash between
-- them, cleaned.
use Prim.Native.Char.{code}
use Prim.Native.String.{[] as empty_text, ◌∷◌ as text_cons}
use streaming_video_service.Prelude.{
  String, ◌==◌, ◌||◌, List, [], ◌∷◌, append_text, join, nat_beq, if◌then◌else◌,
}

abbrev onto_first : String → List String → List String
onto_first c [] = c ∷ []
onto_first c (s ∷ ss) = append_text c s ∷ ss

-- What stands between the slashes.
segments : String → List String
segments empty_text = "" ∷ []
segments (text_cons c cs) =
    let rest = segments cs in
    if nat_beq (code c) 47 then "" ∷ rest else onto_first (text_cons c "") rest

-- A ".." takes the directory before it away, where there is one.
abbrev parent : List String → List String
parent [] = ".." ∷ []
parent (s ∷ ss) = if s == ".." then ".." ∷ s ∷ ss else ss

abbrev enter : String → List String → List String
enter s path = if s == "" || s == "." then path else if s == ".." then parent path else s ∷ path

-- The path to which the segments lead, from its end.
walk : List String → List String → List String
walk path [] = path
walk path (s ∷ ss) = walk (enter s path) ss

printed_path : String → List String → String
printed_path after [] = after
printed_path after (s ∷ ss) = printed_path (join (s ∷ "/" ∷ after ∷ [])) ss

abbrev or_dot : List String → String
or_dot [] = "."
or_dot (s ∷ ss) = printed_path s ss

unfoldable pub file_path_join : String → String → String
unfolding segments walk printed_path
file_path_join dir name = or_dot (walk [] (segments (join (dir ∷ "/" ∷ name ∷ []))))

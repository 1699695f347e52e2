-- ===== src/Contains/Laws.antt =====
-- Laws of `Contains`, and of the member lists that `appendIfNotExists` and `ExitRoom` make.
use streaming_video_service.Prelude.{
  String, ◌≡◌, true, false, ◌==◌, ==_self, List, [], ◌∷◌, ◌++◌, arith, eq_iff,
}
use streaming_video_service.Contains.{contains}

pub contains-append_self : (l : List String) (v : String) → contains (l ++ v ∷ []) v ≡ true
unfolding contains
contains-append_self [] v = ground (arith, ==_self v)
contains-append_self (x ∷ l) v = ground (arith, contains-append_self l v)

pub contains-append :
    (l : List String) (v u : String) → contains l u ≡ true → contains (l ++ v ∷ []) u ≡ true
unfolding contains
contains-append [] v u h = cc
contains-append (x ∷ l) v u h = ground (arith, contains-append l v u)

pub contains-append_ne :
    (l : List String) (v u : String) → (v == u) ≡ false → contains (l ++ v ∷ []) u ≡ contains l u
unfolding contains
contains-append_ne [] v u h = ground arith
contains-append_ne (x ∷ l) v u h = ground (arith, contains-append_ne l v u h)

-- No text stands twice.
abbrev pub Distinct : List String → Type 0
Distinct [] = Unit
Distinct (x ∷ xs) = (contains xs x ≡ false) × Distinct xs

pub Distinct-append :
    (l : List String) (v : String) → Distinct l → contains l v ≡ false → Distinct (l ++ v ∷ [])
unfolding contains
Distinct-append [] v d h = ground arith
Distinct-append (x ∷ l) v d h = (
  ground (arith, contains-append_ne l v x, eq_iff x v, eq_iff v x, d.0),
  Distinct-append l v d.1 (ground arith),
)
